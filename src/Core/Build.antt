-- ===== src/Core/Build.antt =====
-- `build_server_connection` and `select_application_protocol`: the session that rustls gets for the
-- server that was chosen. The calls of rustls and of httpd come as the record `BuildEnv`; an error
-- of rustls is the status that `tls_util_rustls_error` makes of it.
-- The loop at the end of `select_application_protocol` runs on fuel.
pub mod Auth
pub mod Choices
pub mod Required
pub mod Loop
use mod_tls.Base.{
  ℕ, zero, suc, Bool, true, false, not, ◌&&◌, Option, none, some, List, [], ◌∷◌, String, text_eq,
  is_empty, get_or_else, if◌then◌else◌, ℤ, pos, negsuc, is_positive, to_uint16, Failure, enotimpl,
  enomem, Status, success, failed, Result, ok, fail, ◌>>=◌, ◌>>◌,
}
use mod_tls.Proto.{versions_from}
use mod_tls.Cert.{CertEnv, Verifiers, verifiers_get, verifiers_get_optional, load_cert_key}
use mod_tls.Conf.{CertSpec, ClientAuth, ServerConf, is_off}
use mod_tls.Conn.{Conn}

-- The default crypto provider, or one with these suites and versions.
pub data Provider : Type 0 where
  default_provider : Provider
  custom_provider : (suites versions : List ℕ) → Provider

-- What the configuration builder was told.
pub record Builder : Type 0 where
  pub provider : Provider
  pub alpn : Option String
  pub verifier : Option ℕ
  pub ignore_client_order : Bool

pub record BuildEnv : Type 0 where
  pub server_conf : ℕ → ServerConf
  pub supported_versions : List ℕ
  -- the calls that make a builder for this provider
  pub new_builder : Provider → Result (Unit {0})
  pub get_protocol : String
  pub select_protocol : ℕ → List String → Option String
  pub switch_protocol : ℕ → String → Status
  pub set_alpn : String → Status
  -- `ap_ssl_answer_challenge`: a certificate and its key
  pub answer_challenge : Option String → Option (String × String)
  -- for the functions of Cert, and the verifiers that there are before
  pub certs : CertEnv
  pub verifiers : Verifiers
  pub set_ignore_client_order : Bool → Result (Unit {0})
  pub init_cache : ℕ → Result (Unit {0})
  pub build : Builder → Result (Option ℕ)
  pub connection_new : ℕ → Result ℕ

unfoldable pub with_suites : ServerConf → List ℕ → Provider
with_suites sc versions =
    let suites = get_or_else sc.ciphersuites [] in
    if is_empty suites then default_provider else custom_provider suites versions

unfoldable pub choose_provider : List ℕ → ServerConf → Result Provider
choose_provider supported sc =
    if is_positive sc.tls_protocol_min
    then (let versions = versions_from supported (to_uint16 sc.tls_protocol_min) in
        if is_empty versions then fail enotimpl else ok (with_suites sc versions))
    else ok (with_suites sc (versions_from supported 0))

-- What `select_application_protocol` leaves: the connection, the protocol in the builder, `rv`.
pub record Selected : Type 0 where
  pub cc : Conn
  pub alpn : Option String
  pub rv : Status

-- From the label `cleanup` on: with an error of rustls, the code jumps there again.
unfoldable pub cleanup : ℕ → Status → Selected → Option Selected
cleanup zero rr sel = none
cleanup (suc n) success sel = some sel
cleanup (suc n) (failed e) sel = cleanup n (failed e) (record sel { rv = failed e })

abbrev local_spec : String → String → CertSpec
local_spec cert_pem key_pem = record {
  cert_file = none;
  pkey_file = none;
  cert_pem = some cert_pem;
  pkey_pem = some key_pem;
}

use_local_key : BuildEnv → Conn → String → String → Conn × Status
use_local_key env cc cert_pem key_pem =
    elim (load_cert_key env.certs (local_spec cert_pem key_pem)) [
      | fail e ↦ (cc, failed e)
      | ok loaded ↦ (record cc { local_keys = some (loaded.1 ∷ []) }, success)
    ]

-- The part for challenge protocols.
unfoldable pub answer : BuildEnv → Conn → String → Conn × Status
unfolding use_local_key
answer env cc proposed =
    if not (text_eq "h2" proposed) && not (text_eq "http/1.1" proposed)
    then elim (env.answer_challenge cc.sni_hostname) [
      | none ↦ (cc, success)
      | some (cert_pem, key_pem) ↦
          (let (local, rv) = use_local_key env cc cert_pem key_pem in
            elim rv [
              | failed e ↦ (local, failed e)
              | success ↦ (
                record local { service_unavailable = true; client_auth = ClientAuth.absent },
                success,
              )
            ])
    ]
    else (cc, success)

unfoldable pub announce : BuildEnv → ℕ → Conn → String → Option Selected
announce env fuel cc proposed = elim (env.set_alpn proposed) [
  | failed e ↦ cleanup fuel (failed e) (record { cc = cc; alpn = none; rv = success })
  | success ↦
      (let (answered, rv) =
          answer env (record cc { application_protocol = some proposed }) proposed in
        cleanup fuel success (record { cc = answered; alpn = some proposed; rv = rv }))
]

unfoldable pub select_application_protocol : BuildEnv → ℕ → Conn → Option Selected
select_application_protocol env fuel cc0 =
    let cc = record cc0 { application_protocol = some env.get_protocol } in
    let leave = λ (rv : Status). cleanup fuel success (record { cc = cc; alpn = none; rv = rv }) in
    if is_empty (get_or_else cc.alpn [])
    then leave success
    else elim (env.select_protocol cc.server (get_or_else cc.alpn [])) [
      | none ↦ leave success
      | some proposed ↦
          if text_eq proposed env.get_protocol
          then announce env fuel cc proposed
          else elim (env.switch_protocol cc.server proposed) [
            | failed e ↦ leave (failed e)
            | success ↦ announce env fuel cc proposed
          ]
    ]

-- With the verifiers that there are then; `assertion` is a failed `ap_assert`, which ends the process.
pub data Built : Type 0 where
  returned :
      (cc : Conn) (verifiers : Verifiers) (aborted : Bool) (rv : Status) (used : Option Builder)
      → Built
  assertion hangs : Built

abbrev pub given : Verifiers × Result ℕ → Verifiers × Result (Option ℕ)
given (verifiers, r) = (verifiers, r >>= λ v. ok (some v))

-- `client_ca` is checked by the assertion.
unfoldable pub choose_verifier : BuildEnv → ClientAuth → String → Verifiers × Result (Option ℕ)
choose_verifier env ClientAuth.absent ca = (env.verifiers, ok none)
choose_verifier env ClientAuth.required ca = given (verifiers_get env.certs env.verifiers ca)
choose_verifier env ClientAuth.optional ca =
    given (verifiers_get_optional env.certs env.verifiers ca)
choose_verifier env ClientAuth.unset ca = given (verifiers_get_optional env.certs env.verifiers ca)

abbrev is_absent : ClientAuth → Bool
is_absent ClientAuth.absent = true
is_absent _ = false

-- The new connection, if there is a configuration.
unfoldable pub connect : BuildEnv → Builder → Option ℕ → Result (ℕ × ℕ × Builder)
connect env builder none = fail enomem
connect env builder (some config) =
    env.connection_new config >>= λ connection. ok (config, connection, builder)

-- The configuration, the connection and what the builder was told, with the verifier chosen.
unfoldable pub assemble :
    BuildEnv
    → ServerConf
    → ℕ
    → Result (Option ℕ)
    → Provider
    → Option String
    → Result (ℕ × ℕ × Builder)
assemble env sc server chosen provider alpn = chosen >>= λ verifier.
    let order = is_off sc.honor_client_order in
    let builder : Builder = record {
      provider = provider;
      alpn = alpn;
      verifier = verifier;
      ignore_client_order = order;
    } in
    env.set_ignore_client_order order
    >> env.init_cache server
    >> (env.build builder >>= λ config. elim config [
      | none ↦ fail enomem
      | some built ↦ env.connection_new built >>= λ connection. ok (built, connection, builder)
    ])

-- The end of `build_server_connection`; the caller's fields take the results.
unfoldable pub conclude : Conn → Verifiers → Result (ℕ × ℕ × Builder) → Built
conclude cc verifiers (fail e) = returned cc verifiers true (failed e) none
conclude cc verifiers (ok (config, connection, builder)) =
    returned (record cc { rustls_connection = some connection; rustls_server_config = some config })
      verifiers false success (some builder)

abbrev pub finish : BuildEnv → Provider → Selected → Verifiers × Result (Option ℕ) → Built
finish env provider sel (verifiers, chosen) =
    conclude sel.cc verifiers
      (assemble env (env.server_conf sel.cc.server) sel.cc.server chosen provider sel.alpn)

unfoldable pub after_select : BuildEnv → Provider → Selected → Built
after_select env provider sel =
    let cc = sel.cc in
    let sc = env.server_conf cc.server in
    if is_absent cc.client_auth
    then finish env provider sel (choose_verifier env cc.client_auth "")
    else elim sc.client_ca [
      | none ↦ assertion
      | some ca ↦ finish env provider sel (choose_verifier env cc.client_auth ca)
    ]

unfoldable pub build_server_connection : BuildEnv → ℕ → Conn → Built
build_server_connection env fuel cc =
    elim (choose_provider env.supported_versions (env.server_conf cc.server)) [
      | fail e ↦ returned cc env.verifiers true (failed e) none
      | ok provider ↦ elim (env.new_builder provider) [
        | fail e ↦ returned cc env.verifiers true (failed e) none
        | ok _ ↦ elim (select_application_protocol env fuel cc) [
          | none ↦ hangs
          | some sel ↦ after_select env provider sel
        ]
      ]
    ]
