-- ===== src/Core/Build/Choices.antt =====
-- The versions, the suites and the verifier that the session of a server gets.
use mod_tls.Base.{
  String, ℕ, ap, Result-cases, ◌>>◌, Bool, true, Option, none, some, List, [], ◌∷◌, is_empty,
  get_or_else, all, leb, ◌≡◌, refl, sym, inl, inr, ok, fail, Result, Status, arith, Option-cases,
  if◌then◌else◌, is_positive, to_uint16, >>=-eq-ok,
}
use mod_tls.Proto.{versions_from}
use mod_tls.Conf.{is_off, ClientAuth, ServerConf}
use mod_tls.Cert.{Verifiers}
use mod_tls.Conn.{Conn}
use mod_tls.Core.Build.Auth.{answer_keeps, select_keeps}
use mod_tls.Core.Build.{
  Provider, default_provider, custom_provider, Builder, BuildEnv, with_suites, choose_provider,
  returned, build_server_connection, assemble, conclude, after_select, choose_verifier, Selected,
  connect, select_application_protocol,
}

-- Without cipher suites in the configuration, the default provider is used: the configured minimum
-- version has no effect on the session, unless no version is high enough.
pub choose_provider_default :
    (supported : List ℕ) (sc : ServerConf) (p : Provider)
    → is_empty (get_or_else sc.ciphersuites []) ≡ true
    → choose_provider supported sc ≡ ok p
    → p ≡ default_provider
unfolding choose_provider with_suites
choose_provider_default supported sc p e h = ground arith

all-versions_from : (versions : List ℕ) (m : ℕ) → all (leb m) (versions_from versions m) ≡ true
unfolding versions_from
all-versions_from [] m = refl
all-versions_from (v ∷ versions) m = ground (arith, all-versions_from versions m)

-- The minimum version, 0 if there is none.
pub floor : ServerConf → ℕ
floor sc = if is_positive sc.tls_protocol_min then to_uint16 sc.tls_protocol_min else 0

-- A custom provider has the cipher suites of the configuration, and versions not below the minimum.
pub choose_provider_custom :
    (supported : List ℕ) (sc : ServerConf) (suites versions : List ℕ)
    → choose_provider supported sc ≡ ok (custom_provider suites versions)
    → (sc.ciphersuites ≡ some suites) × (all (leb (floor sc)) versions ≡ true)
unfolding choose_provider with_suites floor
choose_provider_custom supported sc suites versions h = elim (Option-cases sc.ciphersuites) [
  | inl k ↦ ground arith
  | inr (ids, k) ↦ ground (arith, all-versions_from supported (floor sc))
]

pub connect_used :
    (env : BuildEnv) (b used : Builder) (built : Option ℕ) (config connection : ℕ)
    → connect env b built ≡ ok (config, connection, used)
    → b ≡ used
unfolding connect
connect_used env b used none config connection e = ground arith
connect_used env b used (some n) config connection e =
    let (k, _, e1) = >>=-eq-ok (env.connection_new n) _ e in ground arith

assemble_no_verifier :
    (env : BuildEnv) (sc : ServerConf) (server config connection : ℕ) (ca : String) (p : Provider)
    (alpn : Option String) (used : Builder)
    → assemble env sc server (choose_verifier env ClientAuth.absent ca).1 p alpn
      ≡ ok (config, connection, used)
    → used.verifier ≡ none
unfolding assemble choose_verifier connect
assemble_no_verifier env sc server config connection ca p alpn used e =
    let order = is_off sc.honor_client_order in
    let (_, _, e1) = >>=-eq-ok (env.set_ignore_client_order order >> env.init_cache server) _ e in
    let (built, _, e2) = >>=-eq-ok (env.build _) _ e1 in
    sym (ap (λ (b : Builder). b.verifier) (connect_used env _ used built config connection e2))

conclude_no_verifier :
    (cc done : Conn) (before after : Verifiers) (m : Result (ℕ × ℕ × Builder)) (aborted : Bool)
    (rv : Status) (used : Builder)
    → ((config connection : ℕ) (b : Builder) → m ≡ ok (config, connection, b) → b.verifier ≡ none)
    → conclude cc before m ≡ returned done after aborted rv (some used)
    → used.verifier ≡ none
unfolding conclude
conclude_no_verifier cc done before after (fail e) aborted rv used f h = ground arith
conclude_no_verifier cc done before after (ok (config, connection, b)) aborted rv used f h =
    ground (arith, f config connection b refl)

after_select_no_verifier :
    (env : BuildEnv) (provider : Provider) (sel : Selected) (done : Conn) (after : Verifiers)
    (aborted : Bool) (rv : Status) (used : Builder)
    → sel.cc.client_auth ≡ ClientAuth.absent
    → after_select env provider sel ≡ returned done after aborted rv (some used)
    → used.verifier ≡ none
unfolding after_select choose_verifier
after_select_no_verifier env provider sel done after aborted rv used h e =
    let sc = env.server_conf sel.cc.server in
    conclude_no_verifier sel.cc done env.verifiers after
      (assemble env sc sel.cc.server (choose_verifier env ClientAuth.absent "").1 provider sel.alpn)
      aborted rv used
      (λ config connection b.
        assemble_no_verifier env sc sel.cc.server config connection "" provider sel.alpn b)
      (ground arith)

-- A connection without client authentication, as its base server had it, gets no verifier for
-- client certificates, whatever the server requires that is chosen for it.
pub build_server_connection_no_verifier :
    (env : BuildEnv) (fuel : ℕ) (cc done : Conn) (after : Verifiers) (aborted : Bool) (rv : Status)
    (used : Builder)
    → cc.client_auth ≡ ClientAuth.absent
    → build_server_connection env fuel cc ≡ returned done after aborted rv (some used)
    → used.verifier ≡ none
unfolding build_server_connection
build_server_connection_no_verifier env fuel cc done after aborted rv used h e =
    elim (Result-cases (choose_provider env.supported_versions (env.server_conf cc.server))) [
      | inr (f, p) ↦ ground arith
      | inl (provider, p) ↦ elim (Result-cases (env.new_builder provider)) [
        | inr (f, b) ↦ ground arith
        | inl (_, b) ↦ elim (Option-cases (select_application_protocol env fuel cc)) [
          | inl s ↦ ground arith
          | inr (sel, s) ↦
              after_select_no_verifier env provider sel done after aborted rv used
                (select_keeps env ClientAuth.absent (answer_keeps env) fuel cc sel h s)
                (ground arith)
        ]
      ]
    ]
