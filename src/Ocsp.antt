-- ===== src/Ocsp.antt =====
-- OCSP responses for the keys of the server, src/tls_ocsp.c. What other modules of httpd know of a
-- certificate and what rustls makes of it is the record `OcspEnv`.
use mod_tls.Base.{
  ℕ, Option, none, some, List, [], ◌∷◌, String, is_empty, if◌then◌else◌, Status, success, failed,
  Result, ok, fail, enoent, ◌⊎◌, inl, inr,
}
use mod_tls.Cert.{Registry, Entry, reg_get_id}

pub record OcspEnv : Type 0 where
  -- `ap_ssl_ocsp_get_resp` for a server and the id of a certificate: its status, and the response
  -- that it gives to its callback, if it calls that
  pub get_resp : ℕ → String → Status × Option (List ℕ)
  -- `rustls_certified_key_clone_with_ocsp`: an error, or the new key
  pub clone_with_ocsp : ℕ → Option (List ℕ) → ℕ ⊎ ℕ

-- What `ap_ssl_ocsp_prime` is called with.
pub record Primed : Type 0 where
  pub server : ℕ
  pub cert_id : String
  pub cert_pem : List ℕ

abbrev prime_cert : Entry → Primed
prime_cert entry = record { server = entry.server; cert_id = entry.id; cert_pem = entry.cert_pem }

-- `tls_cert_reg_do` over the entries of the registry, which `prime_cert` never ends early.
abbrev prime_all : List (String × Entry) → List Primed
prime_all [] = []
prime_all ((id, entry) ∷ entries) = prime_cert entry ∷ prime_all entries

unfoldable pub prime_certs : Registry → List Primed × Status
prime_certs reg = (prime_all reg.id2entry, success)

-- `key_out` after the callback.
unfoldable pub ocsp_clone_key : OcspEnv → ℕ → List ℕ → Option ℕ
ocsp_clone_key env key_in der =
    elim (env.clone_with_ocsp key_in (if is_empty der then none else some der)) [
      | inl rr ↦ none
      | inr key ↦ some key
    ]

abbrev pub responded : OcspEnv → ℕ → Status × Option (List ℕ) → Result (Option ℕ)
responded env key (failed e, der) = fail e
responded env key (success, none) = ok none
responded env key (success, some der) = ok (ocsp_clone_key env key der)

-- With success, `*pkey_out`, which may be NULL.
unfoldable pub update_key : OcspEnv → Registry → ℕ → ℕ → Result (Option ℕ)
unfolding ocsp_clone_key
update_key env reg server key = elim (reg_get_id reg key) [
  | none ↦ fail enoent
  | some id ↦ responded env key (env.get_resp server id)
]
