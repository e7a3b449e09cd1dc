-- ===== src/Cert/Reuse.antt =====
-- What is found again in the registry of keys and among the verifiers.
use mod_tls.Base.{
  ◌⊎◌, Result, [], ◌∷◌, false, Bool-cases, ◌>>=◌, ℕ, Bool, none, some, List, String, text_eq,
  text_eq_iff, ◌≡◌, refl, ap, ◌∙◌, inl, inr, ok, Result-cases, Option-cases, arith, if◌then◌else◌,
}
use mod_tls.Hash.{hash_get, hash_set, hash_get-hash_set}
use mod_tls.Conf.{CertSpec}
use mod_tls.Cert.{
  CertEnv, Registry, cert_spec_to_id, reg_load, reg_get_certified_key, Verifiers, VerifierEntry,
  verifiers_get_or_make_entry, make_verifier, verifiers_get_internal, load_cert_key, stores_get,
}

hash_get-hash_set_same {ℓ} :
    {V : Type ℓ} (m : List (String × V)) (k : String) (v : V)
    → hash_get text_eq (hash_set text_eq m k v) k ≡ some v
hash_get-hash_set_same m k v =
    hash_get-hash_set text_eq text_eq_iff m k k v
    ∙ ap (λ (t : Bool). if t then some v else hash_get text_eq m k) ((text_eq_iff k k).1 refl)

-- Once a key is loaded, every specification with the same certificate file or text gives that key,
-- for any server and any key file, and the registry stays as it is.
pub reg_get_certified_key_again :
    (env : CertEnv) (reg reg' : Registry) (s t key : ℕ) (spec other : CertSpec)
    → reg_get_certified_key env reg s spec ≡ some (reg', ok key)
    → cert_spec_to_id spec ≡ cert_spec_to_id other
    → reg_get_certified_key env reg' t other ≡ some (reg', ok key)
unfolding reg_get_certified_key reg_load
reg_get_certified_key_again env reg reg' s t key spec other h e =
    elim (Option-cases (cert_spec_to_id spec)) [
      | inl k ↦ ground arith
      | inr (id, k) ↦ elim (Option-cases (hash_get text_eq reg.id2entry id)) [
        | inr (entry, g) ↦ ground arith
        | inl g ↦ elim (Result-cases (load_cert_key env spec)) [
          | inr (f, l) ↦ ground arith
          | inl ((pem, loaded), l) ↦ ground (
            arith,
            hash_get-hash_set_same reg.id2entry id
                (record { id = id; cert_pem = pem; server = s; certified_key = loaded }),
          )
        ]
      ]
    ]

make_verifier_stored :
    (env : CertEnv) (v v' : Verifiers) (file : String) (allow : Bool) (entry : VerifierEntry)
    (verifier : ℕ)
    → make_verifier env v file allow entry ≡ (v', ok verifier)
    → (e : VerifierEntry) × (hash_get text_eq v'.file2verifier file ≡ some e)
      × (e.client_verifier ≡ some verifier)
unfolding make_verifier
make_verifier_stored env v v' file allow entry verifier h =
    elim (Result-cases
      ((stores_get env v.stores file).1 >>= λ store. env.build_verifier store allow)) [
        | inr (f, l) ↦ ground arith
        | inl (made, l) ↦
            let e : VerifierEntry = record entry { client_verifier = some made } in
            (e, ground (arith, hash_get-hash_set_same v.file2verifier file e), ground arith)
      ]

stored_found :
    (env : CertEnv) (v : Verifiers) (file : String) (allow : Bool) (entry : VerifierEntry)
    (verifier : ℕ)
    → hash_get text_eq v.file2verifier file ≡ some entry
    → entry.client_verifier ≡ some verifier
    → verifiers_get_internal env v file allow ≡ (v, ok verifier)
unfolding verifiers_get_internal verifiers_get_or_make_entry
stored_found env v file allow entry verifier h e = ground arith

-- This verifier is stored for the file.
pub Made : Verifiers → String → ℕ → Type 0
Made v file verifier =
    (e : VerifierEntry) × (hash_get text_eq v.file2verifier file ≡ some e)
    × (e.client_verifier ≡ some verifier)

pub verifiers_get_internal-Made :
    (env : CertEnv) (v v' : Verifiers) (file : String) (allow : Bool) (verifier : ℕ)
    → verifiers_get_internal env v file allow ≡ (v', ok verifier)
    → Made v' file verifier
unfolding verifiers_get_internal verifiers_get_or_make_entry Made
verifiers_get_internal-Made env v v' file allow verifier h =
    elim (Option-cases (hash_get text_eq v.file2verifier file)) [
      | inr (entry, g) ↦ elim (Option-cases entry.client_verifier) [
        | inr (w, k) ↦ (entry, ground arith, ground arith)
        | inl k ↦ make_verifier_stored env v v' file allow entry verifier (ground arith)
      ]
      | inl g ↦
          make_verifier_stored env
            (record v {
              file2verifier =
                  hash_set text_eq v.file2verifier file
                    (record { client_verifier = none; client_verifier_opt = none });
            })
            v' file allow (record { client_verifier = none; client_verifier_opt = none }) verifier
            (ground arith)
    ]

hash_get-hash_set_other {ℓ} :
    {V : Type ℓ} (m : List (String × V)) (k j : String) (v : V)
    → text_eq k j ≡ false
    → hash_get text_eq (hash_set text_eq m k v) j ≡ hash_get text_eq m j
hash_get-hash_set_other m k j v h =
    hash_get-hash_set text_eq text_eq_iff m k j v
    ∙ ap (λ (t : Bool). if t then some v else hash_get text_eq m j) h

-- A call for another file leaves the entry of this one.
make_verifier_other :
    (env : CertEnv) (v : Verifiers) (file other : String) (allow : Bool) (entry : VerifierEntry)
    → text_eq other file ≡ false
    → hash_get text_eq (make_verifier env v other allow entry).0.file2verifier file
      ≡ hash_get text_eq v.file2verifier file
unfolding make_verifier
make_verifier_other env v file other allow entry h =
    elim (Result-cases
      ((stores_get env v.stores other).1 >>= λ store. env.build_verifier store allow)) [
        | inr (f, l) ↦ rw (make_verifier, l) refl
        | inl (made, l) ↦
            rw (make_verifier, l)
              (hash_get-hash_set_other v.file2verifier other file
                (record entry { client_verifier = some made }) h)
      ]

verifiers_get_internal_other :
    (env : CertEnv) (v : Verifiers) (file other : String) (allow : Bool)
    → text_eq other file ≡ false
    → hash_get text_eq (verifiers_get_internal env v other allow).0.file2verifier file
      ≡ hash_get text_eq v.file2verifier file
unfolding verifiers_get_internal verifiers_get_or_make_entry
verifiers_get_internal_other env v file other allow h =
    let fresh : VerifierEntry = record { client_verifier = none; client_verifier_opt = none } in
    let table = λ (r : Verifiers × Result ℕ). hash_get text_eq r.0.file2verifier file in
    elim (Option-cases (hash_get text_eq v.file2verifier other)) [
      | inr (entry, g) ↦ elim (Option-cases entry.client_verifier) [
        | inr (w, k) ↦ ap table (stored_found env v other allow entry w g k)
        | inl k ↦
            let e : verifiers_get_internal env v other allow
                ≡ make_verifier env v other allow entry =
              ground arith in
            ap table e ∙ make_verifier_other env v file other allow entry h
      ]
      | inl g ↦
          let v1 = record v { file2verifier = hash_set text_eq v.file2verifier other fresh } in
          let e : verifiers_get_internal env v other allow
              ≡ make_verifier env v1 other allow fresh =
            ground arith in
          ap table e
          ∙ make_verifier_other env v1 file other allow fresh h
          ∙ hash_get-hash_set_other v.file2verifier other file fresh h
    ]

-- This verifier was built for the root store of the file.
pub BuiltFor : CertEnv → Verifiers → String → Bool → ℕ → Type 0
BuiltFor env v file allow verifier =
    (store : ℕ) × ((stores_get env v.stores file).1 ≡ ok store)
    × (env.build_verifier store allow ≡ ok verifier)

make_verifier-BuiltFor :
    (env : CertEnv) (v v' : Verifiers) (file : String) (allow : Bool) (entry : VerifierEntry)
    (verifier : ℕ)
    → make_verifier env v file allow entry ≡ (v', ok verifier)
    → BuiltFor env v file allow verifier
unfolding make_verifier BuiltFor
make_verifier-BuiltFor env v v' file allow entry verifier h =
    elim (Result-cases (stores_get env v.stores file).1) [
      | inr (f, l) ↦ ground arith
      | inl (store, l) ↦ elim (Result-cases (env.build_verifier store allow)) [
        | inr (f, k) ↦ ground arith
        | inl (made, k) ↦ (store, l, ground arith)
      ]
    ]

-- A verifier that is given was there before for the file, or was built for this call.
pub verifiers_get_internal_origin :
    (env : CertEnv) (v v' : Verifiers) (file : String) (allow : Bool) (verifier : ℕ)
    → verifiers_get_internal env v file allow ≡ (v', ok verifier)
    → Made v file verifier ⊎ BuiltFor env v file allow verifier
unfolding verifiers_get_internal verifiers_get_or_make_entry Made BuiltFor
verifiers_get_internal_origin env v v' file allow verifier h =
    elim (Option-cases (hash_get text_eq v.file2verifier file)) [
      | inr (entry, g) ↦ elim (Option-cases entry.client_verifier) [
        | inr (w, k) ↦ inl (entry, ground arith, ground arith)
        | inl k ↦ inr (make_verifier-BuiltFor env v v' file allow entry verifier (ground arith))
      ]
      | inl g ↦ inr (
          make_verifier-BuiltFor env
            (record v {
              file2verifier =
                  hash_set text_eq v.file2verifier file
                    (record { client_verifier = none; client_verifier_opt = none });
            })
            v' file allow (record { client_verifier = none; client_verifier_opt = none }) verifier
            (ground arith))
    ]

-- Calls for any files, one after the other.
unfoldable pub get_all : CertEnv → Verifiers → List (String × Bool) → Verifiers
get_all env v [] = v
get_all env v ((file, allow) ∷ calls) =
    get_all env (verifiers_get_internal env v file allow).0 calls

get_all-Made :
    (env : CertEnv) (v : Verifiers) (calls : List (String × Bool)) (file : String) (verifier : ℕ)
    → Made v file verifier
    → Made (get_all env v calls) file verifier
unfolding get_all Made
get_all-Made env v [] file verifier h = h
get_all-Made env v ((other, allow) ∷ calls) file verifier (e, found, made) =
    get_all-Made env (verifiers_get_internal env v other allow).0 calls file verifier
      (elim (Bool-cases (text_eq other file)) [
        | inl same ↦
            let k = stored_found env v file allow e verifier found made in
            let s : other ≡ file = (text_eq_iff other file).0 same in rw (s, k) (e, found, made)
        | inr differ ↦ (e, verifiers_get_internal_other env v file other allow differ ∙ found, made)
      ])

-- Once a verifier is made for a file, and whatever calls for any files come in between, a later call
-- for that file gives it, whether clients without certificate are allowed or not, and changes
-- nothing.
pub verifiers_get_internal_again :
    (env : CertEnv) (v v' : Verifiers) (file : String) (allow other : Bool)
    (calls : List (String × Bool)) (verifier : ℕ)
    → verifiers_get_internal env v file allow ≡ (v', ok verifier)
    → verifiers_get_internal env (get_all env v' calls) file other
      ≡ (get_all env v' calls, ok verifier)
unfolding Made
verifiers_get_internal_again env v v' file allow other calls verifier h =
    let (e, found, made) =
      get_all-Made env v' calls file verifier
        (verifiers_get_internal-Made env v v' file allow verifier h) in
    stored_found env (get_all env v' calls) file other e verifier found made
