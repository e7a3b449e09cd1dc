-- ===== src/Core/Start/Outgoing.antt =====
-- Sessions to other servers in src/tls_core.c: `proxy_conf_setup`, `get_proxy_ciphers`,
-- `init_outgoing_connection`, and `tls_core_conn_init` for both directions. The objects of rustls are
-- numbers. TLS_MACHINE_CERTS is on, as src/tls_conf.h has it.
use mod_tls.Base.{
  ◌++◌, ℕ, zero, suc, Bool, true, false, not, ◌&&◌, Option, none, some, is_some, List, [], ◌∷◌,
  String, is_empty, ltb, if◌then◌else◌, Status, success, failed, Failure, egeneral, enomem,
  enotimpl, ◌⊎◌, inl, inr, is_positive, to_uint16,
}
use mod_tls.Proto.{ProtoConf, get_rustls_suites, create_versions_plus}
use mod_tls.Ciphers.{calc_ciphers}
use mod_tls.Cert.{CertEnv, Registry}
use mod_tls.Core.Start.{load_certified_keys}
use mod_tls.Conf.{ProxyConf, TextPtr}
use mod_tls.Conn.{Conn, disabled, is_enabled}

unfoldable pub get_proxy_ciphers : ProtoConf ℕ → ProxyConf → Option (List ℕ)
get_proxy_ciphers proto pc =
    elim (calc_ciphers proto.supported_cipher_ids pc.proxy_pref_ciphers pc.proxy_supp_ciphers) [
      | none ↦ none
      | some ciphers ↦ some (get_rustls_suites proto ciphers)
    ]

abbrev with_keys :
    ProxyConf → Option (Registry × (List ℕ × Status)) → Option (Registry × (ProxyConf × Status))
with_keys pc none = none
with_keys pc (some (reg, (keys, rv))) =
    some (reg, (record pc { machine_certified_keys = pc.machine_certified_keys ++ keys }, rv))

-- What else it does is a warning, and the pointer to the global configuration. `none` is a failed
-- `assert`.
unfoldable pub proxy_conf_setup :
    CertEnv → ProtoConf ℕ → Registry → ProxyConf → Option (Registry × (ProxyConf × Status))
proxy_conf_setup env proto reg pc =
    if is_positive pc.proxy_protocol_min
      && is_empty (create_versions_plus proto (to_uint16 pc.proxy_protocol_min))
    then some (reg, (pc, failed enotimpl))
    else with_keys pc (load_certified_keys env reg pc.defined_in pc.machine_cert_specs)

-- What the builder of a client configuration was told.
pub record ClientBuilder : Type 0 where
  -- cipher suites and versions of its own provider
  pub custom : Option (List ℕ × List ℕ)
  pub server_verifier : Option ℕ
  pub certified_keys : List ℕ
  pub enable_sni : Bool
  pub alpn_protocols : List String

-- An error is one of rustls, or a status.
pub data Fault : Type 0 where
  rustls : ℕ → Fault
  status : Failure → Fault

pub record OutEnv : Type 0 where
  -- `rustls_crypto_provider_builder_...` and `rustls_client_config_builder_new_custom`: an error
  pub custom_provider : List ℕ → List ℕ → Option ℕ
  -- `rustls_client_config_builder_new` gives a builder
  pub has_builder : Bool
  -- `!strcasecmp(ca, "default")`
  pub is_default : String → Bool
  -- `tls_cert_root_stores_get`, and the verifier that rustls builds from the store
  pub root_store : String → Failure ⊎ ℕ
  pub build_verifier : ℕ → ℕ ⊎ ℕ
  pub set_certified_key : List ℕ → Option ℕ
  -- `apr_strtok` with ", ": each token with `last - p - (*last? 1 : 0)`
  pub tokens : String → List (String × ℕ)
  pub set_alpn_protocols : List String → Option ℕ
  -- `rustls_client_config_builder_build` and `rustls_client_connection_new`
  pub build_config : ClientBuilder → ℕ ⊎ ℕ
  pub client_connection : ℕ → String → ℕ ⊎ ℕ
  -- `rustls_server_connection_new` with the configuration for client hellos
  pub server_connection : ℕ ⊎ ℕ
  pub rustls_error : ℕ → Failure

abbrev and_next {ℓ κ} : {A : Type ℓ} {B : Type κ} → Fault ⊎ A → (A → Fault ⊎ B) → Fault ⊎ B
and_next (inl fault) next = inl fault
and_next (inr a) next = next a

abbrev of_rustls {ℓ} : {A : Type ℓ} → ℕ ⊎ A → Fault ⊎ A
of_rustls (inl rr) = inl (rustls rr)
of_rustls (inr a) = inr a

abbrev of_status {ℓ} : {A : Type ℓ} → Failure ⊎ A → Fault ⊎ A
of_status (inl e) = inl (status e)
of_status (inr a) = inr a

abbrev plain_builder : Option (List ℕ × List ℕ) → ClientBuilder
plain_builder custom = record {
  custom = custom;
  server_verifier = none;
  certified_keys = [];
  enable_sni = false;
  alpn_protocols = [];
}

-- Its own provider needs cipher suites and a minimum version; `nelts >= 0` always holds.
unfoldable pub new_builder : OutEnv → Option (List ℕ) → Option (List ℕ) → Fault ⊎ ClientBuilder
new_builder env (some (suite ∷ suites)) (some versions) =
    elim (env.custom_provider (suite ∷ suites) versions) [
      | some rr ↦ inl (rustls rr)
      | none ↦ inr (plain_builder (some (suite ∷ suites, versions)))
    ]
new_builder env _ _ = if env.has_builder then inr (plain_builder none) else inl (status enomem)

unfoldable pub set_verifier : OutEnv → Option TextPtr → ClientBuilder → Fault ⊎ ClientBuilder
set_verifier env none builder = inr builder
set_verifier env (some ca) builder =
    let with_ca = and_next (of_status (env.root_store ca.text)) (λ store.
      and_next (of_rustls (env.build_verifier store))
        (λ verifier. inr (record builder { server_verifier = some verifier }))) in
    if env.is_default ca.text then inr builder else with_ca

unfoldable pub set_keys : OutEnv → List ℕ → ClientBuilder → Fault ⊎ ClientBuilder
set_keys env [] builder = inr builder
set_keys env (key ∷ keys) builder = elim (env.set_certified_key (key ∷ keys)) [
  | some rr ↦ inl (rustls rr)
  | none ↦ inr (record builder { certified_keys = key ∷ keys })
]

-- The protocols of the note, unless one is too long.
unfoldable pub proposed : List (String × ℕ) → Fault ⊎ List String
proposed [] = inr []
proposed ((p, len) ∷ tokens) =
    let rest = and_next (proposed tokens) (λ ps. inr (p ∷ ps)) in
    if ltb 255 len then inl (status egeneral) else rest

abbrev set_proposed : OutEnv → ClientBuilder → List String → Fault ⊎ ClientBuilder
set_proposed env builder [] = inr builder
set_proposed env builder (p ∷ ps) = elim (env.set_alpn_protocols (p ∷ ps)) [
  | some rr ↦ inl (rustls rr)
  | none ↦ inr (record builder { alpn_protocols = p ∷ ps })
]

unfoldable pub set_alpn : OutEnv → Option String → ClientBuilder → Fault ⊎ ClientBuilder
set_alpn env none builder = inr builder
set_alpn env (some note) builder = and_next (proposed (env.tokens note)) (set_proposed env builder)

abbrev versions_of : ProtoConf ℕ → ProxyConf → Option (List ℕ)
versions_of proto pc =
    if is_positive pc.proxy_protocol_min
    then some (create_versions_plus proto (to_uint16 pc.proxy_protocol_min))
    else none

-- The host name of the note, or one that stands for none.
abbrev name_of : Option String → String
name_of none = "unknown.proxy.local"
name_of (some hostname) = hostname

unfoldable pub client_builder :
    OutEnv → ProtoConf ℕ → ProxyConf → Option String → Option String → Fault ⊎ ClientBuilder
client_builder env proto pc hostname alpn_note =
    and_next (new_builder env (get_proxy_ciphers proto pc) (versions_of proto pc)) λ b0.
      and_next (set_verifier env pc.proxy_ca b0) λ b1.
        and_next (set_keys env pc.machine_certified_keys b1)
          λ b2. set_alpn env alpn_note (record b2 { enable_sni = is_some hostname })

-- The connection, if it is aborted, and the status.
abbrev pub Begun : Type 0
Begun = Conn × (Bool × Status)

abbrev connected : OutEnv → Bool → Conn → ℕ ⊎ ℕ → Begun
connected env aborted cc (inl rr) =
    (record cc { state = disabled }, (true, failed (env.rustls_error rr)))
connected env aborted cc (inr connection) =
    (record cc { rustls_connection = some connection }, (aborted, success))

abbrev configured : OutEnv → Bool → Conn → String → ℕ ⊎ ℕ → Begun
configured env aborted cc name (inl rr) =
    (record cc { state = disabled }, (true, failed (env.rustls_error rr)))
configured env aborted cc name (inr config) =
    connected env aborted (record cc { rustls_client_config = some config })
      (env.client_connection config name)

-- From a complete builder on; only an error of rustls disables and aborts the connection.
unfoldable pub finish_outgoing :
    OutEnv → Bool → Conn → Option String → Fault ⊎ ClientBuilder → Begun
finish_outgoing env aborted cc hostname (inl (rustls rr)) =
    (record cc { state = disabled }, (true, failed (env.rustls_error rr)))
finish_outgoing env aborted cc hostname (inl (status e)) = (cc, (aborted, failed e))
finish_outgoing env aborted cc hostname (inr builder) =
    configured env aborted cc (name_of hostname) (env.build_config builder)

-- With the proxy configuration of the connection and its two notes.
unfoldable pub init_outgoing_connection :
    OutEnv → ProtoConf ℕ → ProxyConf → Option String → Option String → Bool → Conn → Begun
init_outgoing_connection env proto pc hostname alpn_note aborted cc =
    finish_outgoing env aborted cc hostname (client_builder env proto pc hostname alpn_note)

pub data Ended : Type 0 where
  returned : Begun → Ended
  hangs : Ended

-- From the label `cleanup` of `tls_core_conn_init` on, where an error of rustls leads back to it.
unfoldable pub conn_init_cleanup : ℕ → OutEnv → Option ℕ → Begun → Ended
conn_init_cleanup zero env rr begun = hangs
conn_init_cleanup (suc n) env none begun = returned begun
conn_init_cleanup (suc n) env (some rr) (cc, (aborted, rv)) =
    conn_init_cleanup n env (some rr)
      (record cc { state = disabled }, (true, failed (env.rustls_error rr)))

abbrev incoming : ℕ → OutEnv → Bool → Conn → Bool → ℕ ⊎ ℕ → Ended
incoming fuel env unavailable cc aborted (inl rr) =
    conn_init_cleanup fuel env (some rr) (cc, (aborted, success))
incoming fuel env unavailable cc aborted (inr connection) = conn_init_cleanup fuel env none (
  record cc { rustls_connection = some connection; service_unavailable = unavailable },
  (aborted, success),
)

-- `unavailable` is the flag of the base server, and `outgoing` is `init_outgoing_connection`.
unfoldable pub conn_init : ℕ → OutEnv → Bool → (Bool → Conn → Begun) → Bool → Conn → Ended
conn_init fuel env unavailable outgoing aborted cc =
    if is_enabled cc && not (is_some cc.rustls_connection)
    then if cc.outgoing
      then conn_init_cleanup fuel env none (outgoing aborted cc)
      else incoming fuel env unavailable cc aborted env.server_connection
    else conn_init_cleanup fuel env none (cc, (aborted, success))
