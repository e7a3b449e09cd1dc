-- ===== src/Var.antt =====
-- src/tls_var.c: the SSL_* variables of connections and requests. A table of APR is an association
-- list whose keys are compared by `VarEnv.key_eq`; it may be the one of the connection itself,
-- which the lookups read. `module_version`, `crustls_version`, the PEM text of a certificate and
-- the first certificate of a key come with `VarEnv`.
pub mod Names
pub mod Fixup
use mod_tls.Base.{
  ℕ, Bool, true, false, not, ◌&&◌, ◌+◌, ◌==◌, Option, none, some, List, [], ◌∷◌, String, text_eq,
  is_empty, get_elem?, if◌then◌else◌, is_some, get_or_else, codes, Status, success,
}
use mod_tls.Hash.{hash_get, hash_set, hash_unset}
use mod_tls.Conf.{Flag, is_on, ServerConf, DirConf}
use mod_tls.Conn.{Conn, is_enabled}
use Names.{
  Getter, ssl_protocol, ssl_cipher, sni_hostname, version_interface, version_library, false_text,
  null_text, client_s_dn_cn, client_verify, session_resumed, client_cert, server_cert, VarDef,
  var_defs, always_vars, std_env_vars, export_cert_vars,
}

abbrev pub Table : Type 0
Table = List (String × String)

pub record VarEnv : Type 0 where
  pub module_version : String
  pub crustls_version : String
  -- `tls_cert_to_pem`, `none` if it fails
  pub cert_to_pem : ℕ → Option String
  -- `rustls_certified_key_get_certificate(key, 0)`
  pub key_certificate : ℕ → Option ℕ
  -- `!strcasecmp(a, b)`, on the keys of a table
  pub key_eq : String → String → Bool

-- `apr_table_setn`: the first entry of this key gets the value, later ones go.
unfoldable pub table_set : (String → String → Bool) → Table → String → String → Table
table_set eq [] k v = (k, v) ∷ []
table_set eq ((j, w) ∷ table) k v =
    if eq j k then (j, v) ∷ hash_unset eq table k else (j, w) ∷ table_set eq table k v

abbrev value : Option String → Option String
value none = none
value (some v) = if is_empty (codes v) then none else some v

-- Where a client certificate stands in the list of peers.
abbrev cert_index : Option String → ℕ → Option ℕ
cert_index none arg_i = some 0
cert_index (some arg) arg_i = if text_eq arg "chain" then some (arg_i + 1) else none

abbrev and_then : Option ℕ → (ℕ → Option String) → Option String
and_then none f = none
and_then (some x) f = f x

abbrev then_elem : Option ℕ → List ℕ → Option ℕ
then_elem none xs = none
then_elem (some i) xs = get_elem? xs i

unfoldable pub get : VarEnv → Conn → VarDef → Option String
get env cc def = elim def.fn [
  | ssl_protocol ↦ cc.tls_protocol_name
  | ssl_cipher ↦ cc.tls_cipher_name
  | sni_hostname ↦ cc.sni_hostname
  | version_interface ↦ some env.module_version
  | version_library ↦ some env.crustls_version
  | false_text ↦ some "false"
  | null_text ↦ some "NULL"
  | client_s_dn_cn ↦
      if is_empty (get_or_else cc.peer_certs []) then none else some "Not Implemented"
  | client_verify ↦ some (if is_some cc.peer_certs then "SUCCESS" else "NONE")
  | session_resumed ↦ some (if cc.session_id_cache_hit then "Resumed" else "Initial")
  | client_cert ↦
      and_then (then_elem (cert_index def.arg_s def.arg_i) (get_or_else cc.peer_certs []))
        env.cert_to_pem
  | server_cert ↦ elim cc.key [
    | none ↦ none
    | some key ↦ and_then (env.key_certificate key) env.cert_to_pem
  ]
]

-- The hash that `tls_var_init_lookup_hash` fills.
unfoldable pub init_lookup_hash : List VarDef → List (String × VarDef) → List (String × VarDef)
init_lookup_hash [] lookups = lookups
init_lookup_hash (def ∷ defs) lookups =
    init_lookup_hash defs (hash_set text_eq lookups def.name def)

unfoldable pub invoke : VarEnv → VarDef → Option Conn → Option String
invoke env def none = none
invoke env def (some cc) =
    if is_enabled cc
    then elim (value (hash_get env.key_eq (get_or_else cc.subprocess_env []) def.name)) [
      | some v ↦ some v
      | none ↦ get env cc def
    ]
    else none

unfoldable pub set_var : VarEnv → List (String × VarDef) → (Table → Conn) → Table → String → Table
set_var env lookups cc_of table name = elim (hash_get text_eq lookups name) [
  | none ↦ table
  | some def ↦ elim (value (invoke env def (some (cc_of table)))) [
    | none ↦ table
    | some v ↦ table_set env.key_eq table name v
  ]
]

unfoldable pub set_vars :
    VarEnv → List (String × VarDef) → (Table → Conn) → Table → List String → Table
set_vars env lookups cc_of table [] = table
set_vars env lookups cc_of table (name ∷ names) =
    set_vars env lookups cc_of (set_var env lookups cc_of table name) names

unfoldable pub unset_vars : VarEnv → Table → List String → Table
unset_vars env table [] = table
unset_vars env table (name ∷ names) = unset_vars env (hash_unset env.key_eq table name) names

-- `apr_table_overlap` with APR_OVERLAP_TABLES_SET.
unfoldable pub overlap_set : VarEnv → Table → Table → Table
overlap_set env table [] = table
overlap_set env table ((k, v) ∷ others) = overlap_set env (table_set env.key_eq table k v) others

-- `tls_var_lookup`; `cc` is the configuration of the main connection.
unfoldable pub var_lookup : VarEnv → List (String × VarDef) → Option Conn → String → Option String
var_lookup env lookups cc name = elim (hash_get text_eq lookups name) [
  | none ↦ none
  | some def ↦ invoke env def cc
]

-- One of the three groups: set where the flag is on, removed where the connection had set it.
unfoldable pub add_group :
    VarEnv → List (String × VarDef) → (Table → Conn) → Bool → Bool → List String → Table → Table
add_group env lookups cc_of wanted removed names table =
    if wanted
    then set_vars env lookups cc_of table names
    else if removed
    then unset_vars env table names
    else table

-- The values of the connection, or the variables that are always set.
unfoldable pub base_vars :
    VarEnv → List (String × VarDef) → (Table → Conn) → Option Table → Table → Table
base_vars env lookups cc_of (some t) table = overlap_set env table t
base_vars env lookups cc_of none table =
    set_vars env lookups cc_of (table_set env.key_eq table "HTTPS" "on") always_vars

-- `add_vars`; `dc` and `sdc` are the configurations of the request's directory and of its server,
-- and `computed` is the table of the connection if its values can be used again.
unfoldable pub add_vars :
    VarEnv
    → List (String × VarDef)
    → (Table → Conn)
    → Option Table
    → DirConf
    → DirConf
    → Table
    → Table
add_vars env lookups cc_of computed dc sdc table =
    let base = base_vars env lookups cc_of computed table in
    let removed = is_some computed && is_on sdc.std_env_vars in
    let std = add_group env lookups cc_of (is_on dc.std_env_vars) removed std_env_vars base in
    add_group env lookups cc_of (is_on dc.export_cert_vars) removed export_cert_vars std

-- While the connection's table is filled, the lookups read that same table.
unfoldable pub handshake_done :
    VarEnv → List (String × VarDef) → ServerConf → DirConf → Conn → Conn × Status
handshake_done env lookups sc dc cc =
    if not (is_enabled cc)
    then (cc, success)
    else (let user =
          if is_some cc.peer_certs
          then elim sc.var_user_name [
            | none ↦ cc.user_name
            | some name ↦ var_lookup env lookups (some cc) name
          ]
          else cc.user_name in
        let named = record cc { user_name = user } in
        let cc_of = λ (t : Table). record named { subprocess_env = some t } in
        (cc_of (add_vars env lookups cc_of none dc dc []), success))

-- `r->user` and `r->subprocess_env` after `tls_var_request_fixup`; `server` is the request's.
unfoldable pub request_fixup :
    VarEnv
    → List (String × VarDef)
    → Option Conn
    → ℕ
    → DirConf
    → DirConf
    → Option String
    → Table
    → Option String × Table
request_fixup env lookups none server dc sdc user table = (user, table)
request_fixup env lookups (some cc) server dc sdc user table =
    if not (is_enabled cc) then (user, table) else (
      if is_some cc.user_name then cc.user_name else user,
      add_vars env lookups (λ t. cc) (if server == cc.server then cc.subprocess_env else none) dc
          sdc table,
    )
