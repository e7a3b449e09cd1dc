-- ===== src/Examples/Tables.antt =====
-- Certificates and variables.
use mod_tls.Base.{
  zero, suc, ℕ, ◌≡◌, ◌≤◌, ◌+◌, ◌*◌, ◌/◌, refl, true, false, none, some, List, [], ◌∷◌, String,
  arith, text_eq, ok, length, all,
}
use mod_tls.Files.{file_load}
use mod_tls.Hash.{hash_get, hash_set}
use mod_tls.Conf.{on, DirConf, CertSpec, create_dir}
use mod_tls.Conn.{Conn}
use mod_tls.Cert.{
  pem_lines, Entry, load_pem, load_cert_key, make_verifier, stores_get, load_root_store,
  verifiers_get_or_make_entry, reg_load, verifiers_get_internal, Registry, reg_make,
  reg_get_certified_key, der_to_pem,
}
use mod_tls.Cert.Reuse.{get_all, verifiers_get_internal_again, reg_get_certified_key_again}
use mod_tls.Cert.Pem.{Base64Laws, der_to_pem_fits}
use mod_tls.Var.{Table, request_fixup}
use mod_tls.Var.Names.{std_env_vars, export_cert_vars}
use mod_tls.Var.Fixup.{absent_in, request_fixup_removes}
use mod_tls.Examples.Certs.{fill, cert_env, no_verifiers, one_verifier}
use mod_tls.Examples.Session.{var_env, lookups, handshaken}

-- The optional verifier is made first, and then given where the required one is asked for, though
-- there was a call for another file in between.
verifiers_get_internal_again_example :
    let v = get_all cert_env one_verifier (("b.pem", false) ∷ []) in
    verifiers_get_internal cert_env v "ca.pem" false ≡ (v, ok 63)
unfolding verifiers_get_internal verifiers_get_or_make_entry make_verifier stores_get
    load_root_store file_load hash_get hash_set text_eq
verifiers_get_internal_again_example =
    verifiers_get_internal_again cert_env no_verifiers one_verifier "ca.pem" true false
      (("b.pem", false) ∷ []) 63 refl

abbrev spec : String → CertSpec
spec key = record {
  cert_file = some "cert.pem";
  pkey_file = some key;
  cert_pem = none;
  pkey_pem = none;
}

abbrev one_key : Registry
one_key =
    let entry : Entry = record {
      id = "cert.pem";
      cert_pem = 1 ∷ 2 ∷ 3 ∷ [];
      server = 0;
      certified_key = 61;
    } in
    record { id2entry = ("cert.pem", entry) ∷ []; key2entry = (61, entry) ∷ [] }

reg_get_certified_key_again_example :
    reg_get_certified_key cert_env one_key 1 (spec "other.pem") ≡ some (one_key, ok 61)
unfolding reg_get_certified_key reg_load reg_make load_cert_key load_pem file_load hash_get hash_set
    text_eq
reg_get_certified_key_again_example =
    reg_get_certified_key_again cert_env reg_make one_key 0 1 61 (spec "key.pem") (spec "other.pem")
      refl refl

length-fill : (n : ℕ) → length (fill n) ≡ n
length-fill zero = refl
length-fill (suc n) = omega (arith, length-fill n)

base64_laws : Base64Laws cert_env
base64_laws = record {
  length-base64 = λ xs. length-fill (4 * ((length xs + 2) / 3));
  base64_len_le = λ n. omega arith;
}

abbrev small_pem : List ℕ
small_pem = 72 ∷ 68 ∷ 10 ∷ 65 ∷ 65 ∷ 65 ∷ 65 ∷ 10 ∷ []

der_to_pem_fits_example : length small_pem + 1 ≤ 11
unfolding der_to_pem pem_lines
der_to_pem_fits_example =
    der_to_pem_fits cert_env (1 ∷ 2 ∷ 3 ∷ []) (some "HD") none 11 small_pem base64_laws refl

abbrev std_dir : DirConf
std_dir = record create_dir { std_env_vars = on }

abbrev cert_dir : DirConf
cert_dir = record create_dir { export_cert_vars = on }

abbrev computed : Table
computed = ("HTTPS", "on") ∷ ("SSL_CLIENT_CERT", "pem") ∷ ("SSL_CLIENT_VERIFY", "SUCCESS") ∷ []

abbrev with_table : Conn
with_table = record handshaken { subprocess_env = some computed }

request_fixup_removes_example :
    let env' =
      (request_fixup var_env lookups
        (some with_table)
        with_table.server
        create_dir
        std_dir
        none
        []).1 in
    (all (absent_in var_env env') std_env_vars ≡ true)
    × (all (absent_in var_env env') export_cert_vars ≡ true)
unfolding create_dir
request_fixup_removes_example =
    request_fixup_removes var_env lookups with_table create_dir std_dir none [] computed refl refl
      refl refl refl
