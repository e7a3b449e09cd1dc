-- ===== src/Conn.antt =====
-- The connection configuration of src/tls_core.h and the operations of src/tls_core.c that decide
-- whether a connection is handled: `cc_get_or_make`, `tls_core_conn_disable`, `tls_core_conn_bind`,
-- `tls_core_pre_conn_init`, `tls_core_setup_outgoing`, `tls_conn_check_ssl`, `tls_core_conn_free`.
-- The configuration of a `conn_rec` is `none` until it is made.
pub mod Lifecycle
use mod_tls.Base.{
  ℕ, Bool, true, false, not, ◌&&◌, Option, none, some, List, [], ◌∷◌, ◌++◌, String, leb,
  if◌then◌else◌, get_or_else, is_some,
}
use mod_tls.Conf.{Flag, is_on, ClientAuth, DirConf, ServerConf}

pub data ConnState : Type 0 where
  init disabled client_hello handshake traffic notified done : ConnState

-- The value of the enum.
abbrev pub rank : ConnState → ℕ
rank init = 0
rank disabled = 1
rank client_hello = 2
rank handshake = 3
rank traffic = 4
rank notified = 5
rank done = 6

pub record Conn : Type 0 where
  pub server : ℕ
  pub dc : Option DirConf
  pub state : ConnState
  pub outgoing : Bool
  pub service_unavailable : Bool
  pub client_auth : ClientAuth
  pub client_hello_seen : Bool
  pub rustls_connection : Option ℕ
  pub rustls_server_config : Option ℕ
  pub rustls_client_config : Option ℕ
  pub local_keys : Option (List ℕ)
  pub key : Option ℕ
  pub key_cloned : Bool
  pub peer_certs : Option (List ℕ)
  pub sni_hostname : Option String
  pub alpn : Option (List String)
  pub application_protocol : Option String
  pub session_id_cache_hit : Bool
  pub tls_protocol_id : ℕ
  pub tls_protocol_name : Option String
  pub tls_cipher_id : ℕ
  pub tls_cipher_name : Option String
  pub user_name : Option String
  pub subprocess_env : Option (List (String × String))
  pub last_error : Option ℕ

-- conn_rec, with the configuration of this module.
pub record ConnRec : Type 0 where
  pub base_server : ℕ
  pub is_outgoing : Bool
  pub aborted : Bool
  pub conf : Option Conn

abbrev is_init : ConnState → Bool
is_init init = true
is_init _ = false

abbrev is_disabled : ConnState → Bool
is_disabled disabled = true
is_disabled _ = false

-- TLS_CONN_ST_IS_ENABLED, which also takes NULL.
abbrev pub is_enabled : Conn → Bool
is_enabled cc = leb (rank client_hello) (rank cc.state)

abbrev pub conf_enabled : Option Conn → Bool
conf_enabled none = false
conf_enabled (some cc) = is_enabled cc

-- A zeroed configuration.
unfoldable pub fresh : ℕ → Conn
fresh base_server = record {
  server = base_server;
  dc = none;
  state = init;
  outgoing = false;
  service_unavailable = false;
  client_auth = ClientAuth.unset;
  client_hello_seen = false;
  rustls_connection = none;
  rustls_server_config = none;
  rustls_client_config = none;
  local_keys = none;
  key = none;
  key_cloned = false;
  peer_certs = none;
  sni_hostname = none;
  alpn = none;
  application_protocol = none;
  session_id_cache_hit = false;
  tls_protocol_id = 0;
  tls_protocol_name = none;
  tls_cipher_id = 0;
  tls_cipher_name = none;
  user_name = none;
  subprocess_env = none;
  last_error = none;
}

abbrev pub get_or_make : ConnRec → Conn
get_or_make c = get_or_else c.conf (fresh c.base_server)

unfoldable pub conn_disable : ConnRec → ConnRec
conn_disable c =
    let cc = get_or_make c in
    record c { conf = some (if is_init cc.state then record cc { state = disabled } else cc) }

-- `dir_conf` is the module's part of it.
unfoldable pub conn_bind : ConnRec → Option DirConf → ConnRec
conn_bind c dir_conf = record c { conf = some (record (get_or_make c) { dc = dir_conf }) }

-- `true` is OK and `false` is DECLINED.
unfoldable pub pre_conn_init : (ℕ → ServerConf) → ConnRec → ConnRec × Bool
pre_conn_init servers c =
    let cc = get_or_make c in
    let sc = servers c.base_server in
    let enabled = not c.is_outgoing && is_on sc.enabled in
    let cc' =
      if is_init cc.state
      then record cc {
        state = if enabled then client_hello else disabled;
        client_auth = sc.client_auth;
      }
      else cc in
    (record c { conf = some cc' }, is_enabled cc')

-- `lookup_defaults` is the directory configuration of the base server.
unfoldable pub setup_outgoing : DirConf → ConnRec → ConnRec × Bool
setup_outgoing lookup_defaults c =
    let cc = get_or_make c in
    if not c.is_outgoing
    then (c, false)
    else if is_disabled cc.state
    then (record c { conf = some cc }, false)
    else if is_enabled cc
    then (record c { conf = some cc }, true)
    else (let dc = get_or_else cc.dc lookup_defaults in
        if is_on dc.proxy_enabled
        then (
          record c {
            conf = some (record cc { outgoing = true; dc = some dc; state = client_hello });
          },
          true,
        )
        else (
          record c { conf = some (record cc { outgoing = true; dc = some dc; state = disabled }) },
          false,
        ))

-- For the main connection of `c`.
unfoldable pub check_ssl : Option Conn → Bool
check_ssl cc = conf_enabled cc

-- What `tls_core_conn_free` hands to the free functions of rustls, and what it leaves.
pub record Freed : Type 0 where
  pub connections : List ℕ
  pub server_configs : List ℕ
  pub client_configs : List ℕ
  pub keys : List ℕ

abbrev to_list : Option ℕ → List ℕ
to_list none = []
to_list (some x) = x ∷ []

unfoldable pub conn_free : Conn → Conn × Freed
conn_free cc = (
  record cc {
    rustls_connection = none;
    rustls_server_config = none;
    rustls_client_config = none;
    key = if cc.key_cloned then none else cc.key;
    local_keys = if is_some cc.local_keys then some [] else none;
  },
  record {
    connections = to_list cc.rustls_connection;
    server_configs = to_list cc.rustls_server_config;
    client_configs = to_list cc.rustls_client_config;
    keys = (if cc.key_cloned then to_list cc.key else []) ++ get_or_else cc.local_keys [];
  },
)
