-- ===== src/Core/Handshake.antt =====
-- `tls_core_conn_post_handshake`: what is taken from the session once its handshake is done.
use mod_tls.Base.{
  arith, ◌∙◌, inl, inr, refl, sym, ap, append-nil, append_assoc, Option-cases, drop-get_elem?-none,
  drop-get_elem?-some, is_empty, Option-cases, drop, is_empty, ◌+◌, get_elem?, ◌≤◌, ◌≡◌, length, ℕ,
  zero, suc, Bool, true, false, not, ◌&&◌, Option, none, some, List, [], ◌∷◌, ◌++◌, String, is_some,
  if◌then◌else◌, Status, success, failed, egeneral, econnaborted,
}
use mod_tls.Proto.{Apr, ProtoConf, get_version_name, get_cipher_name}
use mod_tls.Conf.{ClientAuth, ServerConf, DirConf}
use mod_tls.Conn.{Conn}
use mod_tls.Var.Fixup.{handshake_done_keeps}
use mod_tls.Var.{VarEnv, handshake_done}
use mod_tls.Var.Names.{VarDef}

-- What `rustls_connection_...` tells of a session.
pub record Session : Type 0 where
  pub is_handshaking : Bool
  pub protocol_version : ℕ
  pub negotiated_ciphersuite : ℕ
  pub peer_certificate : ℕ → Option ℕ

-- The `while` loop, on fuel: `cert` is the certificate at place `i`.
unfoldable pub collect : ℕ → (ℕ → Option ℕ) → ℕ → List ℕ → Option ℕ → Option (List ℕ)
collect fuel at i certs none = some certs
collect zero at i certs (some cert) = none
collect (suc fuel) at i certs (some cert) =
    collect fuel at (suc i) (certs ++ cert ∷ []) (at (suc i))

-- `cc->peer_certs`, which stays as it was if there is no certificate.
unfoldable pub peer_certs : ℕ → (ℕ → Option ℕ) → Option (List ℕ) → Option (Option (List ℕ))
peer_certs fuel at before = elim (at 0) [
  | none ↦ some before
  | some cert ↦ elim (collect fuel at 0 [] (some cert)) [
    | none ↦ none
    | some certs ↦ some (some certs)
  ]
]

abbrev is_required : ClientAuth → Bool
is_required ClientAuth.required = true
is_required _ = false

-- The environment of the calls that it makes.
pub record PostEnv : Type 0 where
  pub apr : Apr
  pub proto : ProtoConf ℕ
  pub vars : VarEnv
  pub lookups : List (String × VarDef)
  pub server_conf : ℕ → ServerConf
  pub server_dir : ℕ → DirConf

-- The connection with what the session tells.
unfoldable pub seen_session : PostEnv → Session → Conn → Option (List ℕ) → Conn
seen_session env session cc certs = record cc {
  tls_protocol_id = session.protocol_version;
  tls_protocol_name = some (get_version_name env.apr session.protocol_version);
  tls_cipher_id = session.negotiated_ciphersuite;
  tls_cipher_name = some (get_cipher_name env.apr env.proto session.negotiated_ciphersuite);
  peer_certs = certs;
}

-- `none` if the fuel does not suffice. The status of a missing certificate is set and then
-- overwritten.
unfoldable pub post_handshake : PostEnv → ℕ → Session → Conn → Option (Conn × Status)
post_handshake env fuel session cc =
    if session.is_handshaking
    then some (cc, failed egeneral)
    else elim (peer_certs fuel session.peer_certificate cc.peer_certs) [
      | none ↦ none
      | some certs ↦
          let sc = env.server_conf cc.server in
          let seen = seen_session env session cc certs in
          let rv =
            if not (is_some certs) && is_required sc.client_auth
            then failed econnaborted
            else success in
          let (done, rv) = handshake_done env.vars env.lookups sc (env.server_dir cc.server) seen in
          some (done, rv)
    ]

collect_lem :
    (fuel : ℕ) (chain : List ℕ) (i : ℕ) (certs : List ℕ)
    → length chain ≤ i + fuel
    → collect fuel (get_elem? chain) i certs (get_elem? chain i) ≡ some (certs ++ drop i chain)
unfolding collect
collect_lem zero chain i certs h = elim (Option-cases (get_elem? chain i)) [
  | inl k ↦ rw k (rw (drop-get_elem?-none chain i k) (ap some (sym (append-nil certs))))
  | inr (c, k) ↦ absurd (omega (arith, (drop-get_elem?-some chain i c k).1))
]
collect_lem (suc fuel) chain i certs h = elim (Option-cases (get_elem? chain i)) [
  | inl k ↦ rw k (rw (drop-get_elem?-none chain i k) (ap some (sym (append-nil certs))))
  | inr (c, k) ↦ rw k (
      collect_lem fuel chain (suc i) (certs ++ c ∷ []) (omega arith)
      ∙ ap some (
          append_assoc certs (c ∷ []) (drop (suc i) chain)
          ∙ ap (◌++◌ certs) (sym (drop-get_elem?-some chain i c k).0)))
]

-- With as many rounds as there are certificates, the loop ends, and the connection has the peer's
-- whole chain in order, or what it had if there is none.
pub peer_certs_lem :
    (fuel : ℕ) (chain : List ℕ) (before : Option (List ℕ))
    → length chain ≤ fuel
    → peer_certs fuel (get_elem? chain) before
      ≡ some (if is_empty chain then before else some chain)
unfolding peer_certs
peer_certs_lem fuel [] before h = refl
peer_certs_lem fuel (c ∷ chain) before h =
    ap
      (λ (r : Option (List ℕ)). elim r as (λ x. Option (Option (List ℕ))) [
        | none ↦ none
        | some certs ↦ some (some certs)
      ])
      (collect_lem fuel (c ∷ chain) 0 [] (omega arith))

-- Once the handshake is over, the call ends with success if the fuel covers the chain, also where
-- the server requires a client certificate and the peer has sent none.
pub post_handshake_success :
    (env : PostEnv) (fuel : ℕ) (session : Session) (chain : List ℕ) (cc : Conn)
    → session.is_handshaking ≡ false
    → session.peer_certificate ≡ get_elem? chain
    → length chain ≤ fuel
    → (done : Conn) × (post_handshake env fuel session cc ≡ some (done, success))
      × (done.state ≡ cc.state)
      × (done.peer_certs ≡ (if is_empty chain then cc.peer_certs else some chain))
      × (done.tls_protocol_id ≡ session.protocol_version)
unfolding post_handshake seen_session
post_handshake_success env fuel session chain cc h s l =
    let all_certs =
      ap (λ (at : ℕ → Option ℕ). peer_certs fuel at cc.peer_certs) s
      ∙ peer_certs_lem fuel chain cc.peer_certs l in
    let seen = seen_session env session cc (if is_empty chain then cc.peer_certs else some chain) in
    let r =
      handshake_done env.vars env.lookups (env.server_conf cc.server) (env.server_dir cc.server)
        seen in
    let (e, kept) =
      handshake_done_keeps env.vars env.lookups (env.server_conf cc.server)
        (env.server_dir cc.server) seen in
    rw h (
      rw all_certs (
        r.0,
        ap (λ x. some (r.0, x)) e,
        ap (λ (c : Conn). c.state) kept,
        ap (λ (c : Conn). c.peer_certs) kept,
        ap (λ (c : Conn). c.tls_protocol_id) kept,
      ))
