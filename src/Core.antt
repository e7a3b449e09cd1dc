-- ===== src/Core.antt =====
-- src/tls_core.c: what the module decides about servers, connections and requests, in the children
-- named below, and the server records of httpd that the decisions read.
--   Listen: `we_listen_on` and the loop of `init_incoming` that enables servers
--   Hello: `tls_core_conn_seen_client_hello` up to the choice of the server
--   Request: `tls_core_request_check`
--   Build: the choices of `build_server_connection` and `init_outgoing_connection`
--   Handshake: `tls_core_conn_post_handshake`
pub mod Listen
pub mod Hello
pub mod Request
pub mod Build
pub mod Handshake
pub mod Callbacks
pub mod Start
use mod_tls.Base.{Bool, false, ◌||◌, Option, none, some, List, [], ◌∷◌, String, any}
use mod_tls.Conf.{ServerAddr}

-- The fields of `server_rec` that the module reads.
pub record ServerRec : Type 0 where
  pub hostname : Option String
  pub names : Option (List (Option String))
  pub wild_names : Option (List (Option String))
  pub addrs : List ServerAddr

-- `!strcasecmp(a, b)` and `!ap_strcasecmp_match(a, pattern)`.
pub record NameTests : Type 0 where
  pub case_eq : String → String → Bool
  pub wild_match : String → String → Bool

-- `alias[i] && test(name, alias[i])` for some alias of the array, which may be NULL.
abbrev pub alias_passes : (String → String → Bool) → String → Option String → Bool
alias_passes test name none = false
alias_passes test name (some a) = test name a

unfoldable pub name_matches_server : NameTests → String → Option ServerRec → Bool
name_matches_server tests name none = false
name_matches_server tests name (some s) = elim s.hostname [
  | none ↦ false
  | some host ↦ tests.case_eq name host || elim s.names [
    | none ↦ false
    | some names ↦ any (alias_passes tests.case_eq name) names || elim s.wild_names [
      | none ↦ false
      | some wild ↦ any (alias_passes tests.wild_match name) wild
    ]
  ]
]
