-- ===== src/Conf/Commands/CipherLists.antt =====
-- TLSCiphersPrefer, TLSCiphersSuppress and their proxy variants: what `parse_ciphers` reads.
use mod_tls.Base.{
  ℕ, ◌≡◌, refl, inl, inr, Option, none, some, List, [], ◌∷◌, ◌++◌, String, arith, append-nil,
  append_assoc, if◌then◌else◌, Option-cases,
}
use mod_tls.Proto.{ProtoConf, get_cipher_by_name}
use mod_tls.Conf.Commands.{
  CmdEnv, CmdError, unknown_cipher, parse_tokens, parse_args, parse_ciphers, is_nop,
}

-- All tokens of all arguments, in order.
pub all_tokens : CmdEnv → List String → List String
all_tokens env [] = []
all_tokens env (v ∷ argv) = env.tokens v ++ all_tokens env argv

module _ (env : CmdEnv) (proto : ProtoConf ℕ) where
  -- The ids of the names before the first unknown one, and that name.
  pub known_ids : List String → List ℕ
  known_ids [] = []
  known_ids (name ∷ names) = elim (get_cipher_by_name env.apr proto name) [
    | none ↦ []
    | some cipher ↦ cipher ∷ known_ids names
  ]

  pub first_unknown : List String → Option CmdError
  first_unknown [] = none
  first_unknown (name ∷ names) = elim (get_cipher_by_name env.apr proto name) [
    | none ↦ some (unknown_cipher name)
    | some cipher ↦ first_unknown names
  ]

  parse_tokens_lem :
      (names : List String) (ciphers : List ℕ)
      → parse_tokens env proto ciphers names ≡ (ciphers ++ known_ids names, first_unknown names)
  unfolding parse_tokens known_ids first_unknown
  parse_tokens_lem [] ciphers = ground (arith, append-nil ciphers)
  parse_tokens_lem (name ∷ names) ciphers =
      elim (Option-cases (get_cipher_by_name env.apr proto name)) [
        | inl e ↦ ground (arith, append-nil ciphers)
        | inr (cipher, e) ↦ ground (
          arith,
          parse_tokens_lem names (ciphers ++ cipher ∷ []),
          append_assoc ciphers (cipher ∷ []) (known_ids names),
        )
      ]

  known_ids-append :
      (names others : List String)
      → first_unknown names ≡ none
      → (known_ids (names ++ others) ≡ known_ids names ++ known_ids others)
        × (first_unknown (names ++ others) ≡ first_unknown others)
  unfolding known_ids first_unknown
  known_ids-append [] others h = (refl, refl)
  known_ids-append (name ∷ names) others h = ground (arith, known_ids-append names others)

  unknown-append :
      (names others : List String) (err : CmdError)
      → first_unknown names ≡ some err
      → (known_ids (names ++ others) ≡ known_ids names)
        × (first_unknown (names ++ others) ≡ some err)
  unfolding known_ids first_unknown
  unknown-append [] others err h = cc
  unknown-append (name ∷ names) others err h = ground (arith, unknown-append names others err)

  parse_args_lem :
      (argv : List String) (ciphers : List ℕ)
      → parse_args env proto ciphers argv
        ≡ (ciphers ++ known_ids (all_tokens env argv), first_unknown (all_tokens env argv))
  unfolding parse_args all_tokens
  parse_args_lem [] ciphers = unfold known_ids first_unknown in ground (arith, append-nil ciphers)
  parse_args_lem (v ∷ argv) ciphers = elim (Option-cases (first_unknown (env.tokens v))) [
    | inl e ↦ ground (
      arith,
      parse_tokens_lem (env.tokens v) ciphers,
      parse_args_lem argv (ciphers ++ known_ids (env.tokens v)),
      known_ids-append (env.tokens v) (all_tokens env argv),
      append_assoc ciphers (known_ids (env.tokens v)) (known_ids (all_tokens env argv)),
    )
    | inr (err, e) ↦ ground (
      arith,
      parse_tokens_lem (env.tokens v) ciphers,
      unknown-append (env.tokens v) (all_tokens env argv) err,
    )
  ]

  -- Unless the only argument is the word that stands for no list, the array holds the ids of all
  -- tokens of all arguments before the first token that names no cipher, and the error is that
  -- token.
  pub parse_ciphers_lem :
      (nop_name : String) (argv : List String)
      → parse_ciphers env proto nop_name argv ≡ (
          if is_nop env proto nop_name argv
          then ([], none)
          else (known_ids (all_tokens env argv), first_unknown (all_tokens env argv)))
  unfolding parse_ciphers
  parse_ciphers_lem nop_name argv = ground (arith, parse_args_lem argv [])
