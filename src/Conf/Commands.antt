-- ===== src/Conf/Commands.antt =====
-- The directives of src/tls_conf.c. A directive returns the changed configuration and its error
-- message; a message is a value that carries the argument which it is about, and NULL is `none`.
-- `CmdEnv` holds what the directives take from httpd and APR.
pub mod Options
pub mod CipherLists
use Prim.Native.Char.{code}
use mod_tls.Base.{
  ℕ, Bool, true, false, not, ◌&&◌, ◌||◌, Option, none, some, List, [], ◌∷◌, ◌++◌, String, ◌==◌, leb,
  if◌then◌else◌, length, ℤ, pos, is_some, map, any,
}
use mod_tls.Files.{FileSystem, is_file}
use mod_tls.Proto.{Apr, ProtoConf, get_cipher_by_name, get_version_by_name}
use mod_tls.Conf.{
  Flag, off, on, ClientAuth, absent, required, optional, CertSpec, TextPtr, ServerAddr, GlobalConf,
  ServerConf, DirConf,
}

pub record CmdEnv : Type 0 where
  pub apr : Apr
  pub fs : FileSystem
  -- the run mode is AP_SQ_RM_CONFIG_DUMP
  pub config_dump : Bool
  -- `ap_server_root_relative`
  pub server_root_relative : String → Option String
  -- `!strcasecmp(a, b)`
  pub case_eq : String → String → Bool
  -- all tokens that `apr_strtok` gives with the separator ":"
  pub tokens : String → List String
  -- `apr_parse_addr_port`: host, scope id and port
  pub parse_addr_port : String → Option (Option String × Option String × ℕ)
  -- `apr_sockaddr_info_get`
  pub sockaddr_info_get : Option String → ℕ → Option ServerAddr
  -- `apr_sockaddr_zone_set` succeeds
  pub zone_set : ServerAddr → String → Bool

pub data CmdError : Type 0 where
  invalid_path no_such_file no_certificate no_key : String → CmdError
  invalid_address no_sockaddr invalid_scope : String → CmdError
  not_a_flag unknown_cipher unknown_option unknown_mode : String → CmdError
  unknown_protocol not_a_protocol : String → CmdError
  ciphers_missing : CmdError

unfoldable pub cmd_check_file : CmdEnv → String → Option CmdError
cmd_check_file env fpath = if env.config_dump then none else elim (env.server_root_relative fpath) [
  | none ↦ some (invalid_path fpath)
  | some real_path ↦ if is_file env.fs (some real_path) then none else some (no_such_file real_path)
]

-- On success the new address stands first.
pub add_engine : CmdEnv → GlobalConf → String → GlobalConf × Option CmdError
add_engine env gc v = elim (env.parse_addr_port v) [
  | none ↦ (gc, some (invalid_address v))
  | some (host, scope_id, port) ↦ elim (env.sockaddr_info_get host port) [
    | none ↦ (gc, some (no_sockaddr v))
    | some sa ↦
        if elim scope_id [ none ↦ true | some id ↦ env.zone_set sa id ]
        then (record gc { tls_addresses = record sa { host_port = port } ∷ gc.tls_addresses }, none)
        else (gc, some (invalid_scope v))
  ]
]

unfoldable pub flag_value : CmdEnv → String → Flag
flag_value env arg =
    if env.case_eq arg "On" then on else if env.case_eq arg "Off" then off else Flag.unset

-- The second check of a file, that `cmd_check_file` has passed.
abbrev relative_is_file : CmdEnv → String → Bool
relative_is_file env f = is_file env.fs (env.server_root_relative f)

abbrev first_error : Option CmdError → Option CmdError → Option CmdError
first_error none e = e
first_error (some x) e = some x

abbrev optional_file : (String → Option CmdError) → Option String → Option CmdError
optional_file f none = none
optional_file f (some x) = f x

-- The errors of TLSCertificate and TLSProxyMachineCertificate, in the order of the tests.
unfoldable pub certificate_error : CmdEnv → String → Option String → Option CmdError
certificate_error env cert_file pkey_file = first_error (cmd_check_file env cert_file) (
    first_error (optional_file (cmd_check_file env) pkey_file) (
      first_error (if relative_is_file env cert_file then none else some (no_certificate cert_file))
        (optional_file (λ f. if relative_is_file env f then none else some (no_key f)) pkey_file)))

abbrev file_spec : String → Option String → CertSpec
file_spec cert_file pkey_file = record {
  cert_file = some cert_file;
  pkey_file = pkey_file;
  cert_pem = none;
  pkey_pem = none;
}

unfoldable pub add_certificate :
    CmdEnv → ServerConf → String → Option String → ServerConf × Option CmdError
unfolding certificate_error
add_certificate env sc cert_file pkey_file =
    let err = certificate_error env cert_file pkey_file in
    if is_some err
    then (sc, err)
    else (record sc { cert_specs = sc.cert_specs ++ file_spec cert_file pkey_file ∷ [] }, none)

pub add_proxy_machine_certificate :
    CmdEnv → DirConf → String → Option String → DirConf × Option CmdError
unfolding certificate_error
add_proxy_machine_certificate env dc cert_file pkey_file =
    let err = certificate_error env cert_file pkey_file in
    if is_some err then (dc, err) else (
      record dc {
        proxy_machine_cert_specs =
            dc.proxy_machine_cert_specs ++ file_spec cert_file pkey_file ∷ [];
      },
      none,
    )

module _ (env : CmdEnv) (proto : ProtoConf ℕ) where
  -- The `while (name)` loop. On an unknown name the ids so far stay in the array.
  parse_tokens : List ℕ → List String → List ℕ × Option CmdError
  parse_tokens ciphers [] = (ciphers, none)
  parse_tokens ciphers (name ∷ names) = elim (get_cipher_by_name env.apr proto name) [
    | none ↦ (ciphers, some (unknown_cipher name))
    | some cipher ↦ parse_tokens (ciphers ++ cipher ∷ []) names
  ]

  abbrev and_then :
      List ℕ × Option CmdError → (List ℕ → List ℕ × Option CmdError) → List ℕ × Option CmdError
  and_then (ciphers, none) k = k ciphers
  and_then (ciphers, some err) k = (ciphers, some err)

  parse_args : List ℕ → List String → List ℕ × Option CmdError
  parse_args ciphers [] = (ciphers, none)
  parse_args ciphers (value ∷ argv) =
      and_then (parse_tokens ciphers (env.tokens value)) (λ cs. parse_args cs argv)

  abbrev pub is_nop : String → List String → Bool
  is_nop nop_name [] = false
  is_nop nop_name (v ∷ []) = env.apr.natcase_eq nop_name v
  is_nop nop_name (v ∷ w ∷ argv) = false

  -- The array that the directive fills, and the error. The array is cleared first.
  pub parse_ciphers : String → List String → List ℕ × Option CmdError
  unfolding parse_args
  parse_ciphers nop_name argv = if is_nop nop_name argv then ([], none) else parse_args [] argv

  pub set_preferred_ciphers : ServerConf → List String → ServerConf × Option CmdError
  set_preferred_ciphers sc [] = (sc, some ciphers_missing)
  set_preferred_ciphers sc (v ∷ argv) =
      let (ciphers, err) = parse_ciphers "default" (v ∷ argv) in
      (record sc { tls_pref_ciphers = ciphers }, err)

  pub set_suppressed_ciphers : ServerConf → List String → ServerConf × Option CmdError
  set_suppressed_ciphers sc [] = (sc, some ciphers_missing)
  set_suppressed_ciphers sc (v ∷ argv) =
      let (ciphers, err) = parse_ciphers "none" (v ∷ argv) in
      (record sc { tls_supp_ciphers = ciphers }, err)

  pub set_proxy_preferred_ciphers : DirConf → List String → DirConf × Option CmdError
  set_proxy_preferred_ciphers dc [] = (dc, some ciphers_missing)
  set_proxy_preferred_ciphers dc (v ∷ argv) =
      let (ciphers, err) = parse_ciphers "default" (v ∷ argv) in
      (record dc { proxy_pref_ciphers = ciphers }, err)

  pub set_proxy_suppressed_ciphers : DirConf → List String → DirConf × Option CmdError
  set_proxy_suppressed_ciphers dc [] = (dc, some ciphers_missing)
  set_proxy_suppressed_ciphers dc (v ∷ argv) =
      let (ciphers, err) = parse_ciphers "none" (v ∷ argv) in
      (record dc { proxy_supp_ciphers = ciphers }, err)

-- An error leaves the flag as it was.
abbrev set_flag {ℓ} : {A : Type ℓ} → CmdEnv → String → A → (Flag → A) → A × Option CmdError
set_flag env v old set =
    let flag = flag_value env v in
    elim flag [
      | Flag.unset ↦ (old, some (not_a_flag v))
      | off ↦ (set off, none)
      | on ↦ (set on, none)
    ]

pub set_honor_client_order : CmdEnv → ServerConf → String → ServerConf × Option CmdError
set_honor_client_order env sc v = set_flag env v sc (λ f. record sc { honor_client_order = f })

pub set_strict_sni : CmdEnv → ServerConf → String → ServerConf × Option CmdError
set_strict_sni env sc v = set_flag env v sc (λ f. record sc { strict_sni = f })

-- The text before a `+` at the end, if one stands there.
unfoldable pub strip_plus : String → Option String
strip_plus String.[] = none
strip_plus (String.◌∷◌ c String.[]) = if code c == b'+' then some String.[] else none
strip_plus (String.◌∷◌ c (String.◌∷◌ d s)) = elim (strip_plus (String.◌∷◌ d s)) [
  | none ↦ none
  | some t ↦ some (String.◌∷◌ c t)
]

-- `*pmin` and the error; an unknown version stores 0.
unfoldable pub get_min_protocol : CmdEnv → String → ℤ → ℤ × Option CmdError
get_min_protocol env v old =
    if env.apr.natcase_eq "default" v then (pos 0, none) else elim (strip_plus v) [
      | none ↦ (old, some (not_a_protocol v))
      | some name ↦
          let version = get_version_by_name env.apr name in
          (pos version, if version == 0 then some (unknown_protocol v) else none)
    ]

pub set_protocol : CmdEnv → ServerConf → String → ServerConf × Option CmdError
set_protocol env sc v =
    let (min, err) = get_min_protocol env v sc.tls_protocol_min in
    (record sc { tls_protocol_min = min }, err)

pub set_proxy_protocol : CmdEnv → DirConf → String → DirConf × Option CmdError
set_proxy_protocol env dc v =
    let (min, err) = get_min_protocol env v dc.proxy_protocol_min in
    (record dc { proxy_protocol_min = min }, err)

pub set_proxy_engine : DirConf → Bool → DirConf × Option CmdError
set_proxy_engine dc flag = (record dc { proxy_enabled = if flag then on else off }, none)

pub set_proxy_ca : CmdEnv → DirConf → TextPtr → DirConf × Option CmdError
set_proxy_ca env dc proxy_ca =
    let err =
      if env.case_eq proxy_ca.text "default" then none else cmd_check_file env proxy_ca.text in
    if is_some err then (dc, err) else (record dc { proxy_ca = some proxy_ca }, none)

-- The next three are compiled with TLS_CLIENT_CERTS only.
pub set_client_ca : CmdEnv → ServerConf → String → ServerConf × Option CmdError
set_client_ca env sc client_ca =
    let err = cmd_check_file env client_ca in
    if is_some err then (sc, err) else (record sc { client_ca = some client_ca }, none)

pub set_client_auth : CmdEnv → ServerConf → String → ServerConf × Option CmdError
set_client_auth env sc mode =
    if env.case_eq mode "required"
    then (record sc { client_auth = required }, none)
    else if env.case_eq mode "optional"
    then (record sc { client_auth = optional }, none)
    else if env.case_eq mode "none"
    then (record sc { client_auth = absent }, none)
    else (sc, some (unknown_mode mode))

pub set_user_name : ServerConf → String → ServerConf × Option CmdError
set_user_name sc var_user_name = (record sc { var_user_name = some var_user_name }, none)
