-- ===== src/Cert.antt =====
-- src/tls_cert.c: PEM files, certified keys and their registry, root stores and the verifiers of
-- client certificates. The objects of rustls are numbers; what makes them comes with `CertEnv`, as
-- do APR's base64 and the path function of httpd.
pub mod Reuse
pub mod Pem
pub mod Cleanup
use mod_tls.Base.{
  ◌*◌, ℕ, zero, suc, ◌+◌, ◌/◌, Bool, true, false, Option, none, some, List, [], ◌∷◌, ◌++◌, String,
  codes, text_eq, ltb, take, drop, length, is_empty, if◌then◌else◌, enoent, enomem, Result, ok,
  fail, ◌>>=◌, ◌==◌,
}
use mod_tls.Hash.{hash_get, hash_set}
use mod_tls.Files.{FileSystem, file_load}
use mod_tls.Conf.{CertSpec}

pub record CertEnv : Type 0 where
  pub fs : FileSystem
  pub server_root_relative : String → Option String
  -- `rustls_certified_key_build`
  pub build_key : List ℕ → List ℕ → Result ℕ
  -- `rustls_root_cert_store_builder_add_pem` and `..._build`
  pub build_store : List ℕ → Result ℕ
  -- the builder of a client verifier, with or without unauthenticated clients
  pub build_verifier : ℕ → Bool → Result ℕ
  -- `apr_encode_base64`: what it writes, and the length that it computes without a destination
  pub base64 : List ℕ → List ℕ
  pub base64_len : ℕ → ℕ

pub record Pems : Type 0 where
  pub cert_pem : List ℕ
  pub pkey_pem : List ℕ

load_relative : CertEnv → ℕ → String → Result (List ℕ)
load_relative env max_len name = elim (env.server_root_relative name) [
  | none ↦ fail enoent
  | some fpath ↦ file_load env.fs fpath 0 max_len
]

-- `tls_cert_load_pem`; without a key file, both are the same data.
unfoldable pub load_pem : CertEnv → String → Option String → Result Pems
unfolding load_relative
load_pem env cert_file none = load_relative env (100 * 1024) cert_file >>= λ pem.
    ok (record { cert_pem = pem; pkey_pem = pem })
load_pem env cert_file (some pkey_file) = load_relative env (100 * 1024) cert_file >>= λ pem.
    load_relative env (100 * 1024) pkey_file >>= λ pkey.
    ok (record { cert_pem = pem; pkey_pem = pkey })

-- The PEM data of the certificate and the certified key.
unfoldable pub load_cert_key : CertEnv → CertSpec → Result (List ℕ × ℕ)
load_cert_key env spec = elim spec.cert_file [
  | some cert_file ↦ load_pem env cert_file spec.pkey_file >>= λ pems.
      env.build_key pems.cert_pem pems.pkey_pem >>= λ key. ok (pems.cert_pem, key)
  | none ↦ elim spec.cert_pem [
    | none ↦ fail enoent
    | some pem ↦
        let pkey = elim spec.pkey_pem as (λ x. List ℕ) [ none ↦ codes pem | some k ↦ codes k ] in
        env.build_key (codes pem) pkey >>= λ key. ok (codes pem, key)
  ]
]

pub record Entry : Type 0 where
  pub id : String
  pub cert_pem : List ℕ
  pub server : ℕ
  pub certified_key : ℕ

pub record Registry : Type 0 where
  pub id2entry : List (String × Entry)
  pub key2entry : List (ℕ × Entry)

abbrev pub cert_spec_to_id : CertSpec → Option String
cert_spec_to_id spec = elim spec.cert_file [ some f ↦ some f | none ↦ spec.cert_pem ]

unfoldable pub reg_make : Registry
reg_make = record { id2entry = []; key2entry = [] }

unfoldable pub reg_count : Registry → ℕ
reg_count reg = length reg.id2entry

-- A key that is not in the registry yet.
unfoldable pub reg_load : CertEnv → Registry → ℕ → CertSpec → String → Registry × Result ℕ
reg_load env reg s spec id = elim (load_cert_key env spec) [
  | fail e ↦ (reg, fail e)
  | ok (pem, key) ↦
      let entry : Entry = record { id = id; cert_pem = pem; server = s; certified_key = key } in
      (
        record {
          id2entry = hash_set text_eq reg.id2entry id entry;
          key2entry = hash_set ◌==◌ reg.key2entry key entry;
        },
        ok key,
      )
]

-- `none` is a failed `assert`.
unfoldable pub reg_get_certified_key :
    CertEnv → Registry → ℕ → CertSpec → Option (Registry × Result ℕ)
reg_get_certified_key env reg s spec = elim (cert_spec_to_id spec) [
  | none ↦ none
  | some id ↦ elim (hash_get text_eq reg.id2entry id) [
    | some entry ↦ some (reg, ok entry.certified_key)
    | none ↦ some (reg_load env reg s spec id)
  ]
]

unfoldable pub reg_get_id : Registry → ℕ → Option String
reg_get_id reg key = elim (hash_get ◌==◌ reg.key2entry key) [ none ↦ none | some e ↦ some e.id ]

-- `tls_cert_load_root_store`.
unfoldable pub load_root_store : CertEnv → String → Result ℕ
unfolding load_relative
load_root_store env store_file = load_relative env (1024 * 1024) store_file >>= env.build_store

unfoldable pub stores_get : CertEnv → List (String × ℕ) → String → List (String × ℕ) × Result ℕ
stores_get env stores file = elim (hash_get text_eq stores file) [
  | some store ↦ (stores, ok store)
  | none ↦ elim (load_root_store env file) [
    | fail e ↦ (stores, fail e)
    | ok store ↦ (hash_set text_eq stores file store, ok store)
  ]
]

pub record VerifierEntry : Type 0 where
  pub client_verifier : Option ℕ
  pub client_verifier_opt : Option ℕ

pub record Verifiers : Type 0 where
  pub stores : List (String × ℕ)
  pub file2verifier : List (String × VerifierEntry)

-- The entry, and the table in which it is then.
unfoldable pub verifiers_get_or_make_entry :
    List (String × VerifierEntry) → String → List (String × VerifierEntry) × VerifierEntry
verifiers_get_or_make_entry table file = elim (hash_get text_eq table file) [
  | some entry ↦ (table, entry)
  | none ↦
      let entry : VerifierEntry = record { client_verifier = none; client_verifier_opt = none } in
      (hash_set text_eq table file entry, entry)
]

unfoldable pub make_verifier :
    CertEnv → Verifiers → String → Bool → VerifierEntry → Verifiers × Result ℕ
make_verifier env v file allow_unauthenticated entry =
    let (stores, found) = stores_get env v.stores file in
    let v' = record v { stores = stores } in
    elim (found >>= λ store. env.build_verifier store allow_unauthenticated) [
      | fail e ↦ (v', fail e)
      | ok made ↦ (
        record v' {
          file2verifier =
              hash_set text_eq v.file2verifier file (record entry { client_verifier = some made });
        },
        ok made,
      )
    ]

unfoldable pub verifiers_get_internal : CertEnv → Verifiers → String → Bool → Verifiers × Result ℕ
verifiers_get_internal env v0 file allow_unauthenticated =
    let (table, entry) = verifiers_get_or_make_entry v0.file2verifier file in
    let v = record v0 { file2verifier = table } in
    elim entry.client_verifier [
      | some verifier ↦ (v, ok verifier)
      | none ↦ make_verifier env v file allow_unauthenticated entry
    ]

unfoldable pub verifiers_get : CertEnv → Verifiers → String → Verifiers × Result ℕ
verifiers_get env v file = verifiers_get_internal env v file false

unfoldable pub verifiers_get_optional : CertEnv → Verifiers → String → Verifiers × Result ℕ
verifiers_get_optional env v file = verifiers_get_internal env v file true

abbrev newline : List ℕ
newline = 10 ∷ []

-- The loop of `tls_der_to_pem`, on fuel.
unfoldable pub pem_lines : CertEnv → ℕ → List ℕ → List ℕ
pem_lines env zero der = []
pem_lines env (suc fuel) der =
    let rest = pem_lines env fuel (drop 48 der) in
    if is_empty der then [] else env.base64 (take 48 der) ++ newline ++ rest

abbrev pub text_line : Option String → List ℕ
text_line none = []
text_line (some text) = codes text ++ newline

abbrev pub text_len : Option String → ℕ
text_len none = 0
text_len (some text) = length (codes text)

abbrev int_max : ℕ
int_max = 2147483647

-- The size of the buffer, and the bytes written before the NUL.
unfoldable pub der_to_pem : CertEnv → List ℕ → Option String → Option String → Result (ℕ × List ℕ)
der_to_pem env der header footer =
    if ltb int_max (length der)
    then fail enomem
    else if ltb int_max (env.base64_len (length der))
    then fail enomem
    else ok (
      env.base64_len (length der)
          + length der / 48
          + 1
          + text_len header
          + 1
          + text_len footer
          + 1
          + 1,
      text_line header ++ pem_lines env (length der) der ++ text_line footer,
    )
