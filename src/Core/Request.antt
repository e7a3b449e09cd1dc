-- ===== src/Core/Request.antt =====
-- Whether a request may use the connection on which it arrives.
use mod_tls.Base.{
  inl, inr, Option-cases, String, ℕ, Bool, true, false, not, ◌&&◌, Option, none, some, List, [],
  ◌∷◌, ◌==◌, ◌≡◌, refl, ltb, if◌then◌else◌, is_some, ℤ, pos, negsuc, is_positive,
}
use mod_tls.Ciphers.{contains}
use mod_tls.Conf.{ServerConf, ClientAuth}
use mod_tls.Conn.{Conn, is_enabled}

-- DECLINED, and the HTTP codes 503, 403 and 421.
pub data Decision : Type 0 where
  declined service_unavailable forbidden misdirected : Decision

-- The keys are compared as pointers.
unfoldable pub same_keys : List ℕ → List ℕ → Bool
same_keys [] [] = true
same_keys [] (ok ∷ oks) = false
same_keys (sk ∷ sks) [] = false
same_keys (sk ∷ sks) (ok ∷ oks) = (sk == ok) && same_keys sks oks

-- `id < min`, with `id` promoted from 16 bits.
abbrev pub below : ℕ → ℤ → Bool
below id (pos m) = ltb id m
below id (negsuc m) = false

-- The checks on two servers whose keys are loaded.
abbrev pub allows : ServerConf → Conn → List ℕ → List ℕ → Bool
allows oc cc sks oks =
    if not (same_keys sks oks)
    then false
    else if is_positive oc.tls_protocol_min && below cc.tls_protocol_id oc.tls_protocol_min
    then false
    else not (contains oc.tls_supp_ciphers cc.tls_cipher_id)

-- `none` is a NULL array of keys, which the code goes through.
abbrev pub compatible : ServerConf → ServerConf → Conn → Option Bool
compatible sc oc cc = elim sc.certified_keys [
  | none ↦ none
  | some sks ↦ elim oc.certified_keys [ none ↦ none | some oks ↦ some (allows oc cc sks oks) ]
]

-- `servers` is `tls_conf_server_get`; `other` is none for NULL.
unfoldable pub conn_compatible_for : (ℕ → Option ServerConf) → Conn → Option ℕ → Option Bool
conn_compatible_for servers cc none = some false
conn_compatible_for servers cc (some other) =
    if cc.server == other then some true else elim (servers other) [
      | none ↦ some false
      | some oc ↦ elim (servers cc.server) [ none ↦ some false | some sc ↦ compatible sc oc cc ]
    ]

abbrev decision : Option Bool → Option Decision
decision none = none
decision (some true) = some declined
decision (some false) = some misdirected

-- `conf` is the configuration of the main connection, `vhost_lookup_data` whether it has any; `none`
-- is a crash.
unfoldable pub request_check :
    (ℕ → Option ServerConf) → Option Conn → Bool → Option ℕ → Option Decision
request_check servers none vhost_lookup_data server = some declined
request_check servers (some cc) vhost_lookup_data server =
    if not (is_enabled cc)
    then some declined
    else if cc.service_unavailable
    then some service_unavailable
    else if not (is_some cc.sni_hostname) && vhost_lookup_data
    then some forbidden
    else decision (conn_compatible_for servers cc server)

-- The servers with other settings for client certificates.
abbrev pub asking :
    (ℕ → ClientAuth) → (ℕ → Option String) → (ℕ → Option ServerConf) → ℕ → Option ServerConf
asking auth ca servers s = elim (servers s) [
  | none ↦ none
  | some sc ↦ some (record sc { client_auth = auth s; client_ca = ca s })
]

conn_compatible_for-asking :
    (auth : ℕ → ClientAuth) (ca : ℕ → Option String) (servers : ℕ → Option ServerConf) (cc : Conn)
    (server : Option ℕ)
    → conn_compatible_for (asking auth ca servers) cc server ≡ conn_compatible_for servers cc server
unfolding conn_compatible_for
conn_compatible_for-asking auth ca servers cc none = refl
conn_compatible_for-asking auth ca servers cc (some other) = elim (Option-cases (servers other)) [
  | inl o ↦ rw o refl
  | inr (oc, o) ↦ elim (Option-cases (servers cc.server)) [
    | inl s ↦ rw (o, s) refl
    | inr (sc, s) ↦ rw (o, s) refl
  ]
]

-- The check of a request does not depend on what any server requires of its clients' certificates:
-- with other settings of client_auth and client_ca on all servers, the decision is the same.
pub request_check_client_auth :
    (auth : ℕ → ClientAuth) (ca : ℕ → Option String) (servers : ℕ → Option ServerConf)
    (conf : Option Conn) (vhosts : Bool) (server : Option ℕ)
    → request_check (asking auth ca servers) conf vhosts server
      ≡ request_check servers conf vhosts server
unfolding request_check
request_check_client_auth auth ca servers none vhosts server = refl
request_check_client_auth auth ca servers (some cc) vhosts server =
    rw (conn_compatible_for-asking auth ca servers cc server) refl
