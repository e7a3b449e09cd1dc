-- ===== src/Proto.antt =====
-- src/tls_proto.c and src/tls_proto.h: the names and ids of TLS versions and ciphers.
-- A C string is a `String`; where the code looks at its bytes, `codes` gives them.
-- `apr_hash_set` and `apr_hash_get` work on an association list; `apr_strnatcasecmp`, the `%04x` of
-- `apr_psprintf` and `apr_strtoi64` are APR's, and come as the record `Apr`.
-- The cipher suites of rustls are values of a type `Suite`.
pub mod Table
pub mod Hex
pub mod Names
pub mod Lookup
use mod_tls.Base.{
  ℕ, codes, text_eq, ◌+◌, ◌-◌, ◌%◌, ◌≡◌, String, Bool, true, false, ◌&&◌, Option, none, some, List,
  [], ◌∷◌, ◌++◌, ◌==◌, ltb, leb, if◌then◌else◌, length, take, drop, is_empty, map, zero, suc, ℤ,
  pos, negsuc, to_uint16, get_or_else,
}
use mod_tls.Ciphers.{contains}
use mod_tls.Hash.{hash_get, hash_set}
use Table.{Cipher, known_ciphers}

abbrev pub bytes_eq : List ℕ → List ℕ → Bool
bytes_eq [] [] = true
bytes_eq [] (y ∷ ys) = false
bytes_eq (x ∷ xs) [] = false
bytes_eq (x ∷ xs) (y ∷ ys) = (x == y) && bytes_eq xs ys

-- What the code takes from APR's string functions.
pub record Apr : Type 0 where
  -- `!apr_strnatcasecmp(a, b)`
  pub natcase_eq : String → String → Bool
  -- `apr_psprintf(pool, "<prefix>%04x", id)`
  pub format_x4 : String → ℕ → String
  -- `apr_strtoi64(s, &end, 16)`: the value, and the bytes from `end` on
  pub strtoi64_hex : List ℕ → ℤ × List ℕ

abbrev pub tls_version_1_2 : ℕ
tls_version_1_2 = 0x0303

abbrev pub tls_version_1_3 : ℕ
tls_version_1_3 = 0x0304

-- `code && code <= APR_UINT16_MAX`
abbrev uint16_test : ℤ → Bool
uint16_test (pos zero) = false
uint16_test (pos (suc n)) = leb (suc n) 65535
uint16_test (negsuc n) = true

accept_code : ℤ × List ℕ → Option ℕ
accept_code (code, rest) = if is_empty rest && uint16_test code then some (to_uint16 code) else none

-- `none` is APR_ENOENT.
unfoldable pub get_uint16_from : Apr → String → String → Option ℕ
unfolding accept_code
get_uint16_from apr name prefix =
    let plen = length (codes prefix) in
    if (length (codes name) == plen + 4) && bytes_eq (take plen (codes name)) (codes prefix)
    then accept_code (apr.strtoi64_hex (drop plen (codes name)))
    else none

pub get_version_by_name : Apr → String → ℕ
get_version_by_name apr name =
    if apr.natcase_eq name "TLSv1.2"
    then tls_version_1_2
    else if apr.natcase_eq name "TLSv1.3"
    then tls_version_1_3
    else get_or_else (get_uint16_from apr name "TLSv0x") 0

pub get_version_name : Apr → ℕ → String
get_version_name apr id =
    if id == tls_version_1_2
    then "TLSv1.2"
    else if id == tls_version_1_3
    then "TLSv1.3"
    else apr.format_x4 "TLSv0x" id

unfoldable pub versions_from : List ℕ → ℕ → List ℕ
versions_from [] min_version = []
versions_from (version ∷ versions) min_version =
    if leb min_version version
    then version ∷ versions_from versions min_version
    else versions_from versions min_version

pub record ProtoConf (Suite : Type 0) : Type 0 where
  pub supported_versions : List ℕ
  pub known_ciphers_by_name : List (String × Cipher)
  pub known_ciphers_by_id : List (ℕ × Cipher)
  pub rustls_ciphers_by_id : List (ℕ × Suite)
  pub supported_cipher_ids : List ℕ

add_alias : List (String × Cipher) → Cipher → Option String → List (String × Cipher)
add_alias m cipher none = m
add_alias m cipher (some alias) = hash_set text_eq m alias cipher

-- The loop over KNOWN_CIPHERS, for each of the two tables.
register_by_name : List (String × Cipher) → List Cipher → List (String × Cipher)
unfolding add_alias
register_by_name m [] = m
register_by_name m (cipher ∷ cs) =
    register_by_name (add_alias (hash_set text_eq m cipher.name cipher) cipher cipher.alias) cs

register_by_id : List (ℕ × Cipher) → List Cipher → List (ℕ × Cipher)
register_by_id m [] = m
register_by_id m (cipher ∷ cs) = register_by_id (hash_set ◌==◌ m cipher.id cipher) cs

module _ {Suite : Type 0} where
  -- The loop over the suites of the rustls provider; `suite_id` is
  -- `rustls_supported_ciphersuite_get_suite`.
  register_suites : (Suite → ℕ) → List (ℕ × Suite) → List Suite → List (ℕ × Suite)
  register_suites suite_id m [] = m
  register_suites suite_id m (suite ∷ suites) =
      register_suites suite_id (hash_set ◌==◌ m (suite_id suite) suite) suites

  pub tls_proto_init : (Suite → ℕ) → List Suite → ProtoConf Suite
  tls_proto_init suite_id suites = record {
    supported_versions = tls_version_1_2 ∷ tls_version_1_3 ∷ [];
    known_ciphers_by_name = register_by_name [] known_ciphers;
    known_ciphers_by_id = register_by_id [] known_ciphers;
    rustls_ciphers_by_id = register_suites suite_id [] suites;
    supported_cipher_ids = map suite_id suites;
  }

  pub create_versions_plus : ProtoConf Suite → ℕ → List ℕ
  create_versions_plus conf min_version = versions_from conf.supported_versions min_version

  pub is_cipher_supported : ProtoConf Suite → ℕ → Bool
  is_cipher_supported conf cipher = contains conf.supported_cipher_ids cipher

  pub get_cipher_by_name : Apr → ProtoConf Suite → String → Option ℕ
  get_cipher_by_name apr conf name = elim (hash_get text_eq conf.known_ciphers_by_name name) [
    | some cipher ↦ some cipher.id
    | none ↦ get_uint16_from apr name "TLS_CIPHER_0x"
  ]

  pub get_cipher_name : Apr → ProtoConf Suite → ℕ → String
  get_cipher_name apr conf id = elim (hash_get ◌==◌ conf.known_ciphers_by_id id) [
    | some cipher ↦ cipher.name
    | none ↦ apr.format_x4 "TLS_CIPHER_0x" id
  ]

  pub get_cipher_names : Apr → ProtoConf Suite → List ℕ → List String
  get_cipher_names apr conf ciphers = map (get_cipher_name apr conf) ciphers

  pub get_rustls_suites : ProtoConf Suite → List ℕ → List Suite
  get_rustls_suites conf [] = []
  get_rustls_suites conf (id ∷ ids) = elim (hash_get ◌==◌ conf.rustls_ciphers_by_id id) [
    | some suite ↦ suite ∷ get_rustls_suites conf ids
    | none ↦ get_rustls_suites conf ids
  ]
