-- ===== src/Examples/Start.antt =====
-- The start of the module, outgoing sessions, and the hooks.
use mod_tls.Base.{
  inl, ◌⊎◌, ℕ, Bool, true, false, not, ◌&&◌, ◌||◌, ◌≡◌, ◌≤◌, refl, none, some, [], ◌∷◌, inr, pos,
  success, einval, is_empty, all, is_success,
}
use mod_tls.Proto.{ProtoConf}
use mod_tls.Cert.{reg_make}
use mod_tls.Conf.{
  on, required, init, incoming_done, done, ServerConf, create_svr, ProxyConf, server_apply_defaults,
}
use mod_tls.Conn.{Conn, ConnRec, fresh, client_hello}
use mod_tls.Core.Start.{
  CertSources, Phases, tls_core_init, setup_servers, complete_cert_specs, server_conf_setup,
  load_certified_keys, get_server_ciphersuites, add_file_specs,
}
use mod_tls.Core.Start.Servers.{
  has_ca, setup_servers_client_ca, complete_cert_specs_unavailable, tls_core_init_status,
  status_rank,
}
use mod_tls.Core.Start.Outgoing.{OutEnv, conn_init, hangs, client_builder}
use mod_tls.Core.Start.Sessions.{conn_init_hangs, client_builder_ciphers}
use mod_tls.Core.Callbacks.{FreesOwn, select_certified_key, select_certified_key_frees}
use mod_tls.Ocsp.{OcspEnv}
use mod_tls.Hooks.{post_config, post_proxy_config, hooks_complete}
use mod_tls.Examples.Certs.{cert_env}

abbrev proto : ProtoConf ℕ
proto = record {
  supported_versions = 771 ∷ 772 ∷ [];
  known_ciphers_by_name = [];
  known_ciphers_by_id = [];
  rustls_ciphers_by_id = (4865, 1) ∷ [];
  supported_cipher_ids = 4865 ∷ [];
}

abbrev sources : CertSources
sources = record { added = λ s. ([], []); fallback = λ s. ("fallback.pem" ∷ [], []) }

-- A server that needs a fallback and is enabled.
abbrev enabled : ServerConf
enabled = record (create_svr 0 3) { enabled = on }

complete_cert_specs_unavailable_example :
    let (specs, sc') = complete_cert_specs sources enabled in
    let own = is_empty enabled.cert_specs && is_empty (sources.added enabled.server).0 in
    let fallback = is_empty (sources.fallback enabled.server).0 in
    (sc'.service_unavailable ≡ enabled.service_unavailable || (own && not fallback))
    × (is_empty specs ≡ own && fallback)
complete_cert_specs_unavailable_example = complete_cert_specs_unavailable sources enabled

-- The phases note how often they ran.
abbrev phases : Phases (ℕ × Bool)
phases = record {
  init_incoming = λ w. (w, success);
  mod_proxy_post_config_done = λ w. w.1;
  init_outgoing = λ w. (w, success);
  prime_certs = λ w. (w, success);
  clear = λ w. w;
}

tls_core_init_status_example :
    let r = tls_core_init phases ((0, false), init) in
    (0 ≤ status_rank r.0.1)
    × ((is_success r.1 ≡ false) ⊎ ((r.0.1 ≡ done) ⊎ ((r.0.1 ≡ incoming_done) × (r.0.0.1 ≡ false))))
tls_core_init_status_example = tls_core_init_status phases (0, false) init

hooks_complete_example :
    let first = post_config phases (false, ((0, false), init)) in
    let second = post_proxy_config phases (λ w. (w.0, true)) first.0.1 in
    (second.0.1 ≡ done) × (first.1 ≡ success) × (second.1 ≡ success)
hooks_complete_example =
    hooks_complete phases (λ w. (w.0, true)) false (0, false) (λ v. refl) (λ v. refl) (λ v. refl)
      (λ v. refl)

abbrev out_env : OutEnv
out_env = record {
  custom_provider = λ suites versions. none;
  has_builder = true;
  is_default = λ ca. false;
  root_store = λ ca. inr 7;
  build_verifier = λ store. inr 8;
  set_certified_key = λ keys. none;
  tokens = λ note. (note, 2) ∷ [];
  set_alpn_protocols = λ ps. none;
  build_config = λ b. inr 9;
  client_connection = λ config name. inr 10;
  server_connection = inr 11;
  rustls_error = λ rr. einval;
}

abbrev incoming : Conn
incoming = record (fresh 0) { state = client_hello }

-- A library that makes no session for servers.
abbrev failing_env : OutEnv
failing_env = record out_env { server_connection = inl 7 }

conn_init_hangs_example :
    conn_init 100 failing_env false (λ aborted cc. (cc, (aborted, success))) false incoming ≡ hangs
unfolding fresh
conn_init_hangs_example =
    conn_init_hangs failing_env false false (λ aborted cc. (cc, (aborted, success))) incoming 7 100
      refl refl refl refl

-- No minimum version, and a cipher suppressed.
abbrev proxy : ProxyConf
proxy = record {
  defined_in = 0;
  proxy_ca = none;
  proxy_protocol_min = pos 0;
  proxy_pref_ciphers = [];
  proxy_supp_ciphers = 4865 ∷ [];
  machine_cert_specs = [];
  machine_certified_keys = [];
}

client_builder_ciphers_example :
    client_builder out_env proto proxy (some "a.org") (some "h2")
    ≡ client_builder out_env proto
        (record proxy { proxy_pref_ciphers = []; proxy_supp_ciphers = [] })
        (some "a.org")
        (some "h2")
client_builder_ciphers_example =
    client_builder_ciphers out_env proto proxy (some "a.org") (some "h2") [] [] refl

abbrev ocsp : OcspEnv
ocsp = record { get_resp = λ s id. (success, some (1 ∷ [])); clone_with_ocsp = λ key der. inr 99 }

select_certified_key_frees_example :
    FreesOwn ocsp [] (select_certified_key ocsp reg_make (λ ks. inr 61) (61 ∷ []) incoming)
unfolding fresh
select_certified_key_frees_example =
    select_certified_key_frees ocsp reg_make (λ ks. inr 61) (61 ∷ []) incoming

abbrev outgoing : ConnRec
outgoing = record { base_server = 0; is_outgoing = true; aborted = false; conf = none }

-- An enabled server that requires client certificates.
abbrev demanding : ServerConf
demanding = record (create_svr 0 3) {
  enabled = on;
  client_ca = some "ca.pem";
  client_auth = required;
}

abbrev no_sources : CertSources
no_sources = record { added = λ s. ([], []); fallback = λ s. ([], []) }

abbrev demanding_set_up : ServerConf
demanding_set_up = record (server_apply_defaults demanding) {
  certified_keys = some [];
  ciphersuites = get_server_ciphersuites proto (server_apply_defaults demanding);
}

setup_servers_client_ca_example : all has_ca (demanding_set_up ∷ []) ≡ true
unfolding setup_servers server_conf_setup complete_cert_specs add_file_specs load_certified_keys
    server_apply_defaults create_svr
setup_servers_client_ca_example =
    setup_servers_client_ca cert_env no_sources proto reg_make reg_make (demanding ∷ [])
      (demanding_set_up ∷ []) refl
