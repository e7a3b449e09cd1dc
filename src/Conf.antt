-- ===== src/Conf.antt =====
-- src/tls_conf.h and the creation, merging and completion of configurations in src/tls_conf.c.
-- A `server_rec` and the singleton `tls_conf_global_t` are named by numbers, as are the objects of
-- rustls, of the cache provider and of the mutex: a number stands for a pointer. NULL is `none`.
-- The directives are in `Conf.Commands`.
pub mod Commands
pub mod Merge
use mod_tls.Base.{
  ℕ, suc, Bool, true, false, Option, none, some, List, [], ◌∷◌, ◌++◌, String, if◌then◌else◌, ◌==◌,
  is_empty, or_else, length, ℤ, pos, negsuc, zero, ◌&&◌, not, is_some,
}

pub data Flag : Type 0 where
  unset off on : Flag

-- `absent` is TLS_CLIENT_AUTH_NONE.
pub data ClientAuth : Type 0 where
  unset absent required optional : ClientAuth

pub data ConfStatus : Type 0 where
  init incoming_done outgoing_done done : ConfStatus

-- tls_cert_spec_t of src/tls_cert.h.
pub record CertSpec : Type 0 where
  pub cert_file : Option String
  pub pkey_file : Option String
  pub cert_pem : Option String
  pub pkey_pem : Option String

-- A `const char *` that the code compares as a pointer.
pub record TextPtr : Type 0 where
  pub address : ℕ
  pub text : String

-- server_addr_rec: port and the bytes of the IP address.
pub record ServerAddr : Type 0 where
  pub host_port : ℕ
  pub ipaddr : List ℕ

pub record ProxyConf : Type 0 where
  pub defined_in : ℕ
  pub proxy_ca : Option TextPtr
  pub proxy_protocol_min : ℤ
  pub proxy_pref_ciphers : List ℕ
  pub proxy_supp_ciphers : List ℕ
  pub machine_cert_specs : List CertSpec
  pub machine_certified_keys : List ℕ

pub record GlobalConf : Type 0 where
  pub ap_server : ℕ
  pub status : ConfStatus
  pub mod_proxy_post_config_done : Bool
  pub tls_addresses : List ServerAddr
  pub proxy_configs : List ProxyConf
  pub supported_cipher_ids : List ℕ
  pub supported_versions : List ℕ
  pub session_cache_spec : String
  pub session_cache_provider : Option ℕ
  pub session_cache : Option ℕ
  pub session_cache_mutex : Option ℕ
  pub rustls_hello_config : Option ℕ

pub record ServerConf : Type 0 where
  pub server : ℕ
  pub global : Option ℕ
  pub enabled : Flag
  pub cert_specs : List CertSpec
  pub tls_protocol_min : ℤ
  pub tls_pref_ciphers : List ℕ
  pub tls_supp_ciphers : List ℕ
  pub ciphersuites : Option (List ℕ)
  pub honor_client_order : Flag
  pub strict_sni : Flag
  pub client_ca : Option String
  pub client_auth : ClientAuth
  pub var_user_name : Option String
  -- NULL until `server_conf_setup`
  pub certified_keys : Option (List ℕ)
  pub base_server : Bool
  pub service_unavailable : Bool

-- `proxy_config` is the place of the configuration in the global array `proxy_configs`, to which
-- each one is added where it is made.
pub record DirConf : Type 0 where
  pub std_env_vars : Flag
  pub export_cert_vars : Flag
  pub proxy_enabled : Flag
  pub proxy_ca : Option TextPtr
  pub proxy_protocol_min : ℤ
  pub proxy_pref_ciphers : List ℕ
  pub proxy_supp_ciphers : List ℕ
  pub proxy_machine_cert_specs : List CertSpec
  pub proxy_config : Option ℕ

-- TLS_FLAG_UNSET as an `int`.
abbrev pub int_unset : ℤ
int_unset = negsuc 0

abbrev pub is_on : Flag → Bool
is_on on = true
is_on _ = false

abbrev pub is_off : Flag → Bool
is_off off = true
is_off _ = false

-- MERGE_INT for the flags and for the protocol versions.
abbrev pub merge_flag : Flag → Flag → Flag
merge_flag base Flag.unset = base
merge_flag base add = add

abbrev pub merge_int : ℤ → ℤ → ℤ
merge_int base (negsuc zero) = base
merge_int base (negsuc (suc n)) = negsuc (suc n)
merge_int base (pos n) = pos n

abbrev pub merge_auth : ClientAuth → ClientAuth → ClientAuth
merge_auth base ClientAuth.unset = base
merge_auth base add = add

abbrev pub merge_ids : List ℕ → List ℕ → List ℕ
merge_ids base add = if is_empty add then base else add

unfoldable pub create_svr : ℕ → ℕ → ServerConf
create_svr global s = record {
  server = s;
  global = some global;
  enabled = Flag.unset;
  cert_specs = [];
  tls_protocol_min = int_unset;
  tls_pref_ciphers = [];
  tls_supp_ciphers = [];
  ciphersuites = none;
  honor_client_order = Flag.unset;
  strict_sni = Flag.unset;
  client_ca = none;
  client_auth = ClientAuth.unset;
  var_user_name = none;
  certified_keys = none;
  base_server = false;
  service_unavailable = false;
}

-- What `apr_pcalloc` leaves at 0 is `off`, `none`, [] and `false`.
unfoldable pub merge_svr : ServerConf → ServerConf → ServerConf
merge_svr base add = record {
  server = add.server;
  global = or_else add.global base.global;
  enabled = merge_flag base.enabled add.enabled;
  cert_specs = base.cert_specs ++ add.cert_specs;
  tls_protocol_min = merge_int base.tls_protocol_min add.tls_protocol_min;
  tls_pref_ciphers = merge_ids base.tls_pref_ciphers add.tls_pref_ciphers;
  tls_supp_ciphers = merge_ids base.tls_supp_ciphers add.tls_supp_ciphers;
  ciphersuites = none;
  honor_client_order = merge_flag base.honor_client_order add.honor_client_order;
  strict_sni = off;
  client_ca = or_else add.client_ca base.client_ca;
  client_auth = merge_auth base.client_auth add.client_auth;
  var_user_name = or_else add.var_user_name base.var_user_name;
  certified_keys = none;
  base_server = false;
  service_unavailable = false;
}

unfoldable pub create_dir : DirConf
create_dir = record {
  std_env_vars = Flag.unset;
  export_cert_vars = off;
  proxy_enabled = Flag.unset;
  proxy_ca = none;
  proxy_protocol_min = int_unset;
  proxy_pref_ciphers = [];
  proxy_supp_ciphers = [];
  proxy_machine_cert_specs = [];
  proxy_config = none;
}

abbrev same_pointer : Option TextPtr → Option TextPtr → Bool
same_pointer none none = true
same_pointer none (some b) = false
same_pointer (some a) none = false
same_pointer (some a) (some b) = a.address == b.address

same_proxy_settings : DirConf → DirConf → Bool
same_proxy_settings a b = same_pointer a.proxy_ca b.proxy_ca

-- `local.proxy_config`: of the two configurations that the branches test, and the one that each of
-- them takes.
merged_proxy_config : DirConf → DirConf → DirConf → Option ℕ
unfolding same_proxy_settings
merged_proxy_config local base add =
    if not (is_on local.proxy_enabled)
    then none
    else if is_some add.proxy_config
    then (if same_proxy_settings local add then add.proxy_config else none)
    else if is_some base.proxy_config
    then (if same_proxy_settings local base then add.proxy_config else none)
    else none

unfoldable pub dir_assign_merge : DirConf → DirConf → DirConf
unfolding merged_proxy_config
dir_assign_merge base add =
    let local : DirConf = record {
      std_env_vars = merge_flag base.std_env_vars add.std_env_vars;
      export_cert_vars = merge_flag base.export_cert_vars add.export_cert_vars;
      proxy_enabled = merge_flag base.proxy_enabled add.proxy_enabled;
      proxy_ca = or_else add.proxy_ca base.proxy_ca;
      proxy_protocol_min = merge_int base.proxy_protocol_min add.proxy_protocol_min;
      proxy_pref_ciphers = merge_ids base.proxy_pref_ciphers add.proxy_pref_ciphers;
      proxy_supp_ciphers = merge_ids base.proxy_supp_ciphers add.proxy_supp_ciphers;
      proxy_machine_cert_specs = base.proxy_machine_cert_specs ++ add.proxy_machine_cert_specs;
      proxy_config = none;
    } in
    record local { proxy_config = merged_proxy_config local base add }

unfoldable pub merge_dir : DirConf → DirConf → DirConf
merge_dir base add = dir_assign_merge base add

abbrev pub default_flag : Flag → Flag → Flag
default_flag d Flag.unset = d
default_flag d off = off
default_flag d on = on

unfoldable pub server_apply_defaults : ServerConf → ServerConf
server_apply_defaults sc = record sc {
  enabled = default_flag off sc.enabled;
  tls_protocol_min = merge_int (pos 0) sc.tls_protocol_min;
  honor_client_order = default_flag on sc.honor_client_order;
  strict_sni = default_flag on sc.strict_sni;
  client_auth = merge_auth absent sc.client_auth;
}

unfoldable pub dir_apply_defaults : DirConf → DirConf
dir_apply_defaults dc = record dc {
  std_env_vars = default_flag off dc.std_env_vars;
  export_cert_vars = default_flag off dc.export_cert_vars;
  proxy_enabled = default_flag off dc.proxy_enabled;
}

unfoldable pub proxy_make : DirConf → ℕ → ProxyConf
proxy_make dc s = record {
  defined_in = s;
  proxy_ca = dc.proxy_ca;
  proxy_protocol_min = dc.proxy_protocol_min;
  proxy_pref_ciphers = dc.proxy_pref_ciphers;
  proxy_supp_ciphers = dc.proxy_supp_ciphers;
  machine_cert_specs = dc.proxy_machine_cert_specs;
  machine_certified_keys = [];
}

-- Makes a configuration, adds it to the global array and stores the pointer in `dc`.
unfoldable pub add_proxy_config : GlobalConf → DirConf → ℕ → DirConf × GlobalConf
add_proxy_config gc dc s = (
  record dc { proxy_config = some (length gc.proxy_configs) },
  record gc { proxy_configs = gc.proxy_configs ++ proxy_make dc s ∷ [] },
)

-- `proxy_dc` is the section's own configuration, `none` if no directive of the module was used.
unfoldable pub proxy_section_post_config :
    GlobalConf → ℕ → DirConf → Option DirConf → Option DirConf × GlobalConf
unfolding add_proxy_config
proxy_section_post_config gc s server_dc none = (none, gc)
proxy_section_post_config gc s server_dc (some proxy_dc) =
    let dc = dir_apply_defaults (dir_assign_merge server_dc proxy_dc) in
    if is_on dc.proxy_enabled && not (is_some dc.proxy_config)
    then (let (dc', gc') = add_proxy_config gc dc s in (some dc', gc'))
    else (some dc, gc)
