-- ===== src/Examples/Certs.antt =====
-- A library of certificates, and tables of verifiers.
use mod_tls.Base.{ℕ, zero, suc, ◌+◌, ◌*◌, ◌/◌, List, [], ◌∷◌, length, none, some, ok, if◌then◌else◌}
use mod_tls.Cert.{CertEnv, Verifiers}
use mod_tls.Examples.Lists.{file_system}

abbrev pub fill : ℕ → List ℕ
fill zero = []
fill (suc n) = 65 ∷ fill n

abbrev pub base64 : List ℕ → List ℕ
base64 xs = fill (4 * ((length xs + 2) / 3))

abbrev pub cert_env : CertEnv
cert_env = record {
  fs = file_system;
  server_root_relative = λ p. some p;
  build_key = λ c k. ok 61;
  build_store = λ pem. ok 62;
  build_verifier = λ store allow. ok (if allow then 63 else 64);
  base64 = base64;
  base64_len = λ n. 4 * ((n + 2) / 3) + 1;
}

abbrev pub no_verifiers : Verifiers
no_verifiers = record { stores = []; file2verifier = [] }

abbrev pub one_verifier : Verifiers
one_verifier = record {
  stores = ("ca.pem", 62) ∷ [];
  file2verifier = ("ca.pem", record { client_verifier = some 63; client_verifier_opt = none }) ∷ [];
}
