-- ===== src/Examples/Session.antt =====
-- Sessions: how they are built, and what follows the handshake.
use mod_tls.Base.{
  ℕ, ◌≡◌, refl, true, false, none, some, List, [], ◌∷◌, String, arith, if◌then◌else◌, text_eq,
  Status, success, failed, egeneral, pos, ok, is_empty, get_elem?, all, leb,
}
use mod_tls.Proto.{tls_proto_init, versions_from}
use mod_tls.Conf.{ServerConf, create_svr, create_dir, ClientAuth}
use mod_tls.Conn.{Conn, fresh, traffic}
use mod_tls.Core.Build.{
  announce, answer, cleanup, after_select, assemble, connect, conclude, choose_verifier, BuildEnv,
  default_provider, choose_provider, with_suites, select_application_protocol,
  build_server_connection, Builder,
}
use mod_tls.Core.Build.Loop.{select_application_protocol_hangs}
use mod_tls.Core.Build.Choices.{choose_provider_custom, floor, build_server_connection_no_verifier}
use mod_tls.Core.Handshake.{Session, PostEnv, post_handshake, post_handshake_success}
use mod_tls.Var.{VarEnv, init_lookup_hash}
use mod_tls.Var.Names.{VarDef, var_defs}
use mod_tls.Examples.Apr.{apr}
use mod_tls.Examples.Certs.{cert_env, no_verifiers}

abbrev required_conf : ServerConf
required_conf = record (create_svr 0 0) {
  client_auth = ClientAuth.required;
  client_ca = some "ca.pem";
}

-- A server that speaks http/1.1 and a session library that answers `set_alpn` to every protocol.
abbrev pub build_env : Status → BuildEnv
build_env set_alpn = record {
  server_conf = λ s. required_conf;
  supported_versions = 0x0303 ∷ 0x0304 ∷ [];
  new_builder = λ p. ok tt;
  get_protocol = "http/1.1";
  select_protocol = λ s protocols. some "http/1.1";
  switch_protocol = λ s p. success;
  set_alpn = λ p. set_alpn;
  answer_challenge = λ sni. none;
  certs = cert_env;
  verifiers = no_verifiers;
  set_ignore_client_order = λ b. ok tt;
  init_cache = λ s. ok tt;
  build = λ b. ok (some 21);
  connection_new = λ c. ok 31;
}

abbrev pub proposing : Conn
proposing = record (fresh 0) { alpn = some ("http/1.1" ∷ []); client_auth = ClientAuth.absent }

select_application_protocol_hangs_example :
    select_application_protocol (build_env (failed egeneral)) 1000 proposing ≡ none
select_application_protocol_hangs_example =
    select_application_protocol_hangs (build_env (failed egeneral)) 1000 proposing egeneral refl
      refl refl

abbrev ciphers_conf : ServerConf
ciphers_conf = record (create_svr 0 0) {
  tls_protocol_min = pos 0x0304;
  ciphersuites = some (1 ∷ []);
}

choose_provider_custom_example :
    (ciphers_conf.ciphersuites ≡ some (1 ∷ []))
    × (all (leb (floor ciphers_conf)) (0x0304 ∷ []) ≡ true)
unfolding choose_provider with_suites versions_from
choose_provider_custom_example =
    choose_provider_custom (0x0303 ∷ 0x0304 ∷ []) ciphers_conf (1 ∷ []) (0x0304 ∷ []) refl

abbrev minimum_conf : ServerConf
minimum_conf = record (create_svr 0 0) { tls_protocol_min = pos 0x0304 }

abbrev used_builder : Builder
used_builder = record {
  provider = default_provider;
  alpn = some "http/1.1";
  verifier = none;
  ignore_client_order = false;
}

abbrev pub connected : Conn
connected = record proposing {
  application_protocol = some "http/1.1";
  rustls_connection = some 31;
  rustls_server_config = some 21;
}

build_server_connection_no_verifier_example : used_builder.verifier ≡ none
unfolding build_server_connection choose_provider with_suites versions_from create_svr fresh
    select_application_protocol announce answer cleanup after_select assemble connect conclude
    choose_verifier text_eq
build_server_connection_no_verifier_example =
    build_server_connection_no_verifier (build_env success) 1 proposing connected no_verifiers false
      success used_builder refl refl

abbrev chain : List ℕ
chain = 41 ∷ 42 ∷ []

abbrev pub var_env : VarEnv
var_env = record {
  module_version = "mod_tls";
  crustls_version = "rustls";
  cert_to_pem = λ c. some "pem";
  key_certificate = λ k. none;
  key_eq = text_eq;
}

abbrev pub lookups : List (String × VarDef)
lookups = init_lookup_hash var_defs []

abbrev no_certs : List ℕ
no_certs = []

abbrev suite_id : ℕ → ℕ
suite_id n = n

abbrev post_env : PostEnv
post_env = record {
  apr = apr;
  proto = tls_proto_init suite_id [];
  vars = var_env;
  lookups = lookups;
  server_conf = λ s. required_conf;
  server_dir = λ s. create_dir;
}

abbrev session : Session
session = record {
  is_handshaking = false;
  protocol_version = 0x0304;
  negotiated_ciphersuite = 0x1301;
  peer_certificate = get_elem? no_certs;
}

abbrev pub handshaken : Conn
handshaken = record (fresh 0) { state = traffic }

post_handshake_success_example :
    (done : Conn) × (post_handshake post_env 0 session handshaken ≡ some (done, success))
    × (done.state ≡ handshaken.state)
    × (done.peer_certs ≡ (if is_empty no_certs then handshaken.peer_certs else some no_certs))
    × (done.tls_protocol_id ≡ session.protocol_version)
post_handshake_success_example =
    post_handshake_success post_env 0 session no_certs handshaken refl refl (omega arith)
