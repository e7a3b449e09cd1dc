-- ===== src/Examples/Auth.antt =====
-- A session for a connection that requires client certificates.
use mod_tls.Base.{none, [], ◌∷◌, some, String, ◌≡◌, refl, success, false, text_eq}
use mod_tls.Proto.{versions_from}
use mod_tls.Cert.{
  Verifiers, verifiers_get, verifiers_get_internal, verifiers_get_or_make_entry, make_verifier,
  stores_get, load_root_store,
}
use mod_tls.Files.{file_load}
use mod_tls.Hash.{hash_get, hash_set}
use mod_tls.Conf.{ClientAuth, create_svr}
use mod_tls.Conn.{Conn, fresh}
use mod_tls.Core.Build.{
  Builder, default_provider, build_server_connection, choose_provider, with_suites,
  select_application_protocol, announce, answer, cleanup, after_select, assemble, connect, conclude,
  choose_verifier,
}
use mod_tls.Core.Build.Required.{Verified, build_server_connection_required}
use mod_tls.Examples.Session.{build_env, proposing, connected}

abbrev requiring : Conn
requiring = record proposing { client_auth = ClientAuth.required }

abbrev finished : Conn
finished = record connected { client_auth = ClientAuth.required }

abbrev requiring_builder : Builder
requiring_builder = record {
  provider = default_provider;
  alpn = some "http/1.1";
  verifier = some 64;
  ignore_client_order = false;
}

abbrev with_verifier : Verifiers
with_verifier = record {
  stores = ("ca.pem", 62) ∷ [];
  file2verifier = ("ca.pem", record { client_verifier = some 64; client_verifier_opt = none }) ∷ [];
}

build_server_connection_required_example :
    (ca : String) × (((build_env success).server_conf finished.server).client_ca ≡ some ca)
    × Verified (build_env success) ca with_verifier requiring_builder
unfolding build_server_connection choose_provider with_suites versions_from create_svr fresh
    select_application_protocol announce answer cleanup after_select assemble connect conclude
    choose_verifier verifiers_get verifiers_get_internal verifiers_get_or_make_entry make_verifier
    stores_get load_root_store file_load hash_get hash_set text_eq
build_server_connection_required_example =
    build_server_connection_required (build_env success) 1 requiring finished with_verifier false
      success requiring_builder (λ sni. refl) refl refl
