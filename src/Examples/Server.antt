-- ===== src/Examples/Server.antt =====
-- Directives, servers and requests.
use mod_tls.Base.{
  ap, sym, ◌∙◌, subst, inl, inr, Bool-cases, subst, inl, Bool-cases, ℕ, ◌≡◌, refl, Bool, true,
  false, Option, none, some, List, [], ◌∷◌, String, arith, if◌then◌else◌, text_eq, success,
}
use mod_tls.Proto.{tls_proto_init}
use mod_tls.Conf.{
  ClientAuth, ServerConf, ServerAddr, create_svr, create_dir, merge_svr, server_apply_defaults,
}
use mod_tls.Conf.Commands.{CmdEnv, parse_ciphers, is_nop}
use mod_tls.Conf.Commands.CipherLists.{parse_ciphers_lem, known_ids, first_unknown, all_tokens}
use mod_tls.Conn.{Conn, ConnRec, fresh, traffic}
use mod_tls.Conn.Lifecycle.{calls, state_of, Call, disable, bind, pre_conn, setup, calls_decided}
use mod_tls.Core.{name_matches_server, ServerRec}
use mod_tls.Core.Listen.{we_listen_on, we_listen_on-shape}
use mod_tls.Core.Request.{request_check, request_check_client_auth, asking}
use mod_tls.Core.Hello.{
  HelloEnv, select_vhost, find_vhost, select_vhost_strict, select_vhost_merged,
}
use mod_tls.Examples.Apr.{apr}
use mod_tls.Examples.Lists.{file_system}

abbrev cmd_env : CmdEnv
cmd_env = record {
  apr = apr;
  fs = file_system;
  config_dump = false;
  server_root_relative = λ p. some p;
  case_eq = text_eq;
  tokens = λ v. v ∷ [];
  parse_addr_port = λ v. none;
  sockaddr_info_get = λ host port. none;
  zone_set = λ sa id. true;
}

abbrev no_suites : List ℕ
no_suites = []

abbrev same_id : ℕ → ℕ
same_id n = n

abbrev cipher_names : List String
cipher_names = "TLS13_AES_128_GCM_SHA256" ∷ "unheard_of" ∷ []

parse_ciphers_lem_example :
    parse_ciphers cmd_env (tls_proto_init same_id no_suites) "default" cipher_names ≡ (
      if is_nop cmd_env (tls_proto_init same_id no_suites) "default" cipher_names
      then ([], none)
      else (
        known_ids cmd_env (tls_proto_init same_id no_suites) (all_tokens cmd_env cipher_names),
        first_unknown cmd_env (tls_proto_init same_id no_suites) (all_tokens cmd_env cipher_names),
      ))
parse_ciphers_lem_example =
    parse_ciphers_lem cmd_env (tls_proto_init same_id no_suites) "default" cipher_names

abbrev decided : ConnRec
decided = record {
  base_server = 0;
  is_outgoing = false;
  aborted = false;
  conf = some (record (fresh 0) { state = traffic });
}

abbrev some_calls : List Call
some_calls = pre_conn ∷ disable ∷ bind none ∷ setup ∷ []

abbrev blank_servers : ℕ → ServerConf
blank_servers s = create_svr 0 s

calls_decided_example :
    state_of (calls blank_servers create_dir decided some_calls) ≡ state_of decided
calls_decided_example =
    calls_decided blank_servers create_dir decided some_calls (λ e. ground arith)

abbrev used : Conn
used = record (fresh 0) {
  state = traffic;
  rustls_connection = some 5;
  local_keys = some (7 ∷ []);
  key = some 8;
  key_cloned = true;
}

abbrev address : ℕ → ServerAddr
address n = record { host_port = 443; ipaddr = 10 ∷ 0 ∷ 0 ∷ n ∷ [] }

we_listen_on-shape_example :
    we_listen_on (address 1 ∷ []) (address 1 ∷ []) (create_svr 0 1)
    ≡ we_listen_on (address 1 ∷ []) (address 2 ∷ []) (create_svr 0 1)
we_listen_on-shape_example =
    we_listen_on-shape (address 1 ∷ []) (address 1 ∷ []) (address 2 ∷ []) (create_svr 0 1) refl

abbrev seven : ℕ → Option ServerConf
seven s = some (record (create_svr 0 s) { certified_keys = some (7 ∷ []) })

abbrev named : Conn
named = record (fresh 0) {
  state = traffic;
  sni_hostname = some "a.example";
  tls_protocol_id = 0x0304;
  tls_cipher_id = 0x1301;
}

-- All servers require client certificates, or none asks for them.
request_check_client_auth_example :
    request_check (asking (λ s. ClientAuth.required) (λ s. none) seven) (some named) true (some 1)
    ≡ request_check seven (some named) true (some 1)
request_check_client_auth_example =
    request_check_client_auth (λ s. ClientAuth.required) (λ s. none) seven (some named) true
      (some 1)

abbrev site : ServerRec
site = record { hostname = some "a.example"; names = none; wild_names = none; addrs = [] }

abbrev hello_env : ServerConf → HelloEnv
hello_env sc = record {
  tests = record { case_eq = text_eq; wild_match = text_eq };
  server_rec = λ s. some site;
  server_conf = λ s. sc;
  first_vhost = λ p. if p 3 then some 3 else none;
  ap_server_conf = 0;
  ap_server = 0;
}

abbrev strict_conf : ServerConf
strict_conf = server_apply_defaults (create_svr 0 0)

some-eq-some : {a b : ℕ} → some a ≡ some b → a ≡ b
some-eq-some e = cc

first_vhost_accepted :
    (p : ℕ → Bool) (s : ℕ) → (hello_env strict_conf).first_vhost p ≡ some s → p s ≡ true
first_vhost_accepted p s e = elim (Bool-cases (p 3)) [
  | inl k ↦
      subst (λ x. p x ≡ true)
        (some-eq-some (ap (λ (t : Bool). if t then some 3 else none) (sym k) ∙ e)) k
  | inr k ↦ ground arith
]

select_vhost_strict_example :
    find_vhost
      (hello_env strict_conf)
      "a.example"
      (select_vhost (hello_env strict_conf) named).0.server
    ≡ true
unfolding select_vhost server_apply_defaults create_svr fresh name_matches_server text_eq
select_vhost_strict_example =
    select_vhost_strict (hello_env strict_conf) named "a.example" first_vhost_accepted refl refl
      refl

abbrev merged_conf : ServerConf
merged_conf = server_apply_defaults (merge_svr (create_svr 0 0) (create_svr 0 1))

select_vhost_merged_example : (select_vhost (hello_env merged_conf) named).1 ≡ success
select_vhost_merged_example =
    select_vhost_merged (hello_env merged_conf) named (create_svr 0 0) (create_svr 0 1) refl
