-- ===== src/Core/Start.antt =====
-- What src/tls_core.c does when the server starts: the certificates, keys and ciphers of each server,
-- and the steps of `tls_core_init`. `Outgoing` is about the sessions to other servers.
pub mod Servers
pub mod Outgoing
pub mod Proxies
pub mod Sessions
use mod_tls.Base.{
  ℕ, zero, suc, ◌+◌, ◌==◌, Bool, true, false, not, ◌&&◌, ◌||◌, Option, none, some, is_some, List,
  [], ◌∷◌, ◌++◌, String, get_elem?, is_empty, if◌then◌else◌, Status, success, failed, Failure,
  einval, Result, ok, fail, length, ltb,
}
use mod_tls.Proto.{ProtoConf, get_rustls_suites}
use mod_tls.Ciphers.{calc_ciphers}
use mod_tls.Cert.{CertEnv, Registry, reg_get_certified_key}
use mod_tls.Conf.{
  ConfStatus, init, incoming_done, outgoing_done, done, CertSpec, ClientAuth, absent, ServerConf,
  server_apply_defaults, is_on,
}
use mod_tls.Conn.{Conn}

-- The files that other modules have for a server (`ap_ssl_add_cert_files`) and their fallback
-- (`ap_ssl_add_fallback_cert_files`): certificates and keys.
pub record CertSources : Type 0 where
  pub added : ℕ → List String × List String
  pub fallback : ℕ → List String × List String

-- The files from the index `i` on.
unfoldable pub add_file_specs : ℕ → List String → List String → List CertSpec
add_file_specs i [] keys = []
add_file_specs i (cert ∷ certs) keys =
    record { cert_file = some cert; pkey_file = get_elem? keys i; cert_pem = none; pkey_pem = none }
    ∷ add_file_specs (suc i) certs keys

unfoldable pub complete_cert_specs : CertSources → ServerConf → List CertSpec × ServerConf
complete_cert_specs sources sc =
    let (certs, keys) = sources.added sc.server in
    let specs = sc.cert_specs ++ add_file_specs 0 certs keys in
    let (more_certs, more_keys) = sources.fallback sc.server in
    let cert_adds = certs ++ more_certs in
    if not (is_empty specs) then (specs, sc) else if is_empty cert_adds then (specs, sc) else (
      specs ++ add_file_specs 0 cert_adds (keys ++ more_keys),
      record sc { service_unavailable = true },
    )

-- The keys of the specifications, until one fails; `none` is a failed `assert`.
unfoldable pub load_certified_keys :
    CertEnv → Registry → ℕ → List CertSpec → Option (Registry × (List ℕ × Status))
load_certified_keys env reg s [] = some (reg, ([], success))
load_certified_keys env reg s (spec ∷ specs) = elim (reg_get_certified_key env reg s spec) [
  | none ↦ none
  | some (reg', fail e) ↦ some (reg', ([], failed e))
  | some (reg', ok key) ↦ elim (load_certified_keys env reg' s specs) [
    | none ↦ none
    | some (reg2, (keys, rv)) ↦ some (reg2, (key ∷ keys, rv))
  ]
]

-- `get_server_ciphersuites`; the suites of rustls are numbers.
unfoldable pub get_server_ciphersuites : ProtoConf ℕ → ServerConf → Option (List ℕ)
get_server_ciphersuites proto sc =
    elim (calc_ciphers proto.supported_cipher_ids sc.tls_pref_ciphers sc.tls_supp_ciphers) [
      | none ↦ none
      | some ciphers ↦ some (get_rustls_suites proto ciphers)
    ]

abbrev pub is_absent : ClientAuth → Bool
is_absent absent = true
is_absent _ = false

-- The registry, the server's configuration and the status.
abbrev pub Setup : Type 0
Setup = Registry × (ServerConf × Status)

abbrev with_keys : ProtoConf ℕ → ServerConf → Option (Registry × (List ℕ × Status)) → Option Setup
with_keys proto sc none = none
with_keys proto sc (some (reg, (keys, failed e))) =
    some (reg, (record sc { certified_keys = some keys }, failed e))
with_keys proto sc (some (reg, (keys, success))) = some (
  reg,
  (
    record sc { certified_keys = some keys; ciphersuites = get_server_ciphersuites proto sc },
    success,
  ),
)

unfoldable pub server_conf_setup :
    CertEnv → CertSources → ProtoConf ℕ → Registry → ServerConf → Option Setup
server_conf_setup env sources proto reg sc =
    let (specs, sc') = complete_cert_specs sources sc in
    let rest = with_keys proto sc' (load_certified_keys env reg sc'.server specs) in
    if not (is_absent sc.client_auth) && not (is_some sc.client_ca)
    then some (reg, (sc, failed einval))
    else rest

-- The second loop of `init_incoming`: the configurations that it has been at, in order.
abbrev pub add_server :
    ServerConf
    → Option (Registry × (List ServerConf × Status))
    → Option (Registry × (List ServerConf × Status))
add_server sc none = none
add_server sc (some (reg, (scs, rv))) = some (reg, (sc ∷ scs, rv))

-- After a set-up: the configurations that are left are not looked at if it fails.
abbrev pub next_server :
    List ServerConf
    → Option Setup
    → (Registry → Option (Registry × (List ServerConf × Status)))
    → Option (Registry × (List ServerConf × Status))
next_server scs none rest = none
next_server scs (some (reg, (sc, failed e))) rest = some (reg, (sc ∷ scs, failed e))
next_server scs (some (reg, (sc, success))) rest = add_server sc (rest reg)

unfoldable pub setup_servers :
    CertEnv
    → CertSources
    → ProtoConf ℕ
    → Registry
    → List ServerConf
    → Option (Registry × (List ServerConf × Status))
setup_servers env sources proto reg [] = some (reg, ([], success))
setup_servers env sources proto reg (sc ∷ scs) =
    let sc0 = server_apply_defaults sc in
    let skipped = add_server sc0 (setup_servers env sources proto reg scs) in
    let set_up =
      next_server scs (server_conf_setup env sources proto reg sc0)
        (λ reg'. setup_servers env sources proto reg' scs) in
    if is_on sc0.enabled then set_up else skipped

-- What `tls_core_init` calls, on a state `W` that holds all else.
pub record Phases {ℓ} (W : Type ℓ) : Type ℓ where
  pub init_incoming : W → W × Status
  pub mod_proxy_post_config_done : W → Bool
  pub init_outgoing : W → W × Status
  pub prime_certs : W → W × Status
  -- `tls_cert_verifiers_clear` and `tls_cert_root_stores_clear`
  pub clear : W → W

abbrev pub is_init : ConfStatus → Bool
is_init init = true
is_init _ = false

abbrev pub is_incoming_done : ConfStatus → Bool
is_incoming_done incoming_done = true
is_incoming_done _ = false

abbrev pub is_outgoing_done : ConfStatus → Bool
is_outgoing_done outgoing_done = true
is_outgoing_done _ = false

module _ {ℓ} {W : Type ℓ} (phases : Phases W) where
  -- A phase, after which the status is `next`.
  abbrev reach : ConfStatus → ConfStatus → W × Status → (W × ConfStatus) × Status
  reach status next (w, success) = ((w, next), success)
  reach status next (w, failed e) = ((w, status), failed e)

  unfoldable pub incoming_phase : W × ConfStatus → (W × ConfStatus) × Status
  incoming_phase (w, status) =
      if is_init status
      then reach status incoming_done (phases.init_incoming w)
      else ((w, status), success)

  -- With `none` the function returns success at once.
  unfoldable pub outgoing_phase : W × ConfStatus → Option ((W × ConfStatus) × Status)
  outgoing_phase (w, status) =
      if is_incoming_done status
      then if phases.mod_proxy_post_config_done w
        then some (reach status outgoing_done (phases.init_outgoing w))
        else none
      else some ((w, status), success)

  abbrev primed : ConfStatus → W × Status → (W × ConfStatus) × Status
  primed status (w, success) = ((phases.clear w, done), success)
  primed status (w, failed e) = ((w, status), failed e)

  unfoldable pub last_phase : W × ConfStatus → (W × ConfStatus) × Status
  last_phase (w, status) =
      if is_outgoing_done status
      then primed status (phases.prime_certs w)
      else ((w, status), success)

  abbrev after_outgoing :
      W × ConfStatus → Option ((W × ConfStatus) × Status) → (W × ConfStatus) × Status
  after_outgoing s none = (s, success)
  after_outgoing s (some (s', failed e)) = (s', failed e)
  after_outgoing s (some (s', success)) = last_phase s'

  abbrev after_incoming : (W × ConfStatus) × Status → (W × ConfStatus) × Status
  after_incoming (s, failed e) = (s, failed e)
  after_incoming (s, success) = after_outgoing s (outgoing_phase s)

  unfoldable pub tls_core_init : W × ConfStatus → (W × ConfStatus) × Status
  tls_core_init s = after_incoming (incoming_phase s)
