-- ===== src/Core/Build/Required.antt =====
-- The verifier of client certificates where they are required.
use mod_tls.Base.{
  ◌⊎◌, false, Result, subst, subst, ℕ, ap, sym, ◌∙◌, Bool, Option, none, some, String, ◌≡◌, inl,
  inr, ok, ◌>>◌, >>=-eq-ok, Result-cases, Option-cases, Status, arith,
}
use mod_tls.Conf.{ClientAuth, ServerConf, is_off}
use mod_tls.Cert.{Verifiers, verifiers_get, verifiers_get_internal}
use mod_tls.Cert.Reuse.{Made, BuiltFor, verifiers_get_internal_origin, verifiers_get_internal-Made}
use mod_tls.Conn.{Conn}
use mod_tls.Core.Build.Auth.{answer_unasked, select_keeps}
use mod_tls.Core.Build.Choices.{connect_used}
use mod_tls.Core.Build.{
  Builder, BuildEnv, choose_provider, Provider, returned, build_server_connection, assemble,
  connect, conclude, after_select, choose_verifier, Selected, select_application_protocol,
}

-- The verifier of this session is one that was there for the file, or one that rustls built for the
-- root store of the file and that wants a certificate of every client; it is stored in `after`.
pub record Verified (env : BuildEnv) (ca : String) (after : Verifiers) (used : Builder)
    : Type 0 where
  pub verifier : ℕ
  pub origin : Made env.verifiers ca verifier ⊎ BuiltFor env.certs env.verifiers ca false verifier
  pub stored : Made after ca verifier
  pub given : used.verifier ≡ some verifier

ok-eq-ok : {a b : Option ℕ} → ok a ≡ ok b → a ≡ b
ok-eq-ok e = cc

-- What was chosen is what the builder was told.
assemble_verifier :
    (env : BuildEnv) (sc : ServerConf) (server config connection : ℕ) (chosen : Result (Option ℕ))
    (p : Provider) (alpn : Option String) (used : Builder)
    → assemble env sc server chosen p alpn ≡ ok (config, connection, used)
    → chosen ≡ ok used.verifier
unfolding assemble connect
assemble_verifier env sc server config connection chosen p alpn used e =
    let order = is_off sc.honor_client_order in
    let (verifier, made, e0) = >>=-eq-ok chosen _ e in
    let (_, _, e1) = >>=-eq-ok (env.set_ignore_client_order order >> env.init_cache server) _ e0 in
    let (built, _, e2) = >>=-eq-ok (env.build _) _ e1 in
    made ∙ ap (λ (b : Builder). ok b.verifier) (connect_used env _ used built config connection e2)

-- If the required verifier was chosen for this file.
chosen-Verified :
    (env : BuildEnv) (ca : String) (used : Builder)
    → (choose_verifier env ClientAuth.required ca).1 ≡ ok used.verifier
    → Verified env ca (choose_verifier env ClientAuth.required ca).0 used
unfolding choose_verifier verifiers_get
chosen-Verified env ca used e =
    let call = verifiers_get_internal env.certs env.verifiers ca false in
    let (v, found, same) = >>=-eq-ok call.1 (λ v. ok (some v)) e in
    let whole : call ≡ (call.0, ok v) = ap (λ (r : Result ℕ). (call.0, r)) found in
    record {
      verifier = v;
      origin = verifiers_get_internal_origin env.certs env.verifiers call.0 ca false v whole;
      stored = verifiers_get_internal-Made env.certs env.verifiers call.0 ca false v whole;
      given = sym (ok-eq-ok same);
    }

after_select-Verified :
    (env : BuildEnv) (provider : Provider) (sel : Selected) (done : Conn) (after : Verifiers)
    (aborted : Bool) (rv : Status) (used : Builder)
    → sel.cc.client_auth ≡ ClientAuth.required
    → after_select env provider sel ≡ returned done after aborted rv (some used)
    → (ca : String) × ((env.server_conf done.server).client_ca ≡ some ca)
      × Verified env ca after used
unfolding after_select conclude
after_select-Verified env provider sel done after aborted rv used h e =
    let sc = env.server_conf sel.cc.server in
    elim (Option-cases sc.client_ca) [
      | inl k ↦ ground arith
      | inr (ca, k) ↦
          let chosen = choose_verifier env ClientAuth.required ca in
          elim (Result-cases (assemble env sc sel.cc.server chosen.1 provider sel.alpn)) [
            | inr (f, m) ↦ ground arith
            | inl ((config, connection, b), m) ↦
                let same : b ≡ used = ground arith in
                let there : sel.cc.server ≡ done.server = ground arith in
                let left : chosen.0 ≡ after = ground arith in
                (
                  ca,
                  ap (λ s. (env.server_conf s).client_ca) (sym there) ∙ k,
                  subst (λ v. Verified env ca v used) left
                      (subst (Verified env ca chosen.0) same (
                        chosen-Verified env ca b (
                          assemble_verifier env sc sel.cc.server config connection chosen.1 provider
                            sel.alpn b m))),
                )
          ]
    ]

-- Where httpd answers no challenge: a session that is built for a connection that requires client
-- certificates has a verifier for the CA file of the server that was chosen. It is the one that was
-- stored for that file before, or one that rustls built for the root store of that file and that
-- does not allow clients without a certificate; and it is stored for the file afterwards.
pub build_server_connection_required :
    (env : BuildEnv) (fuel : ℕ) (cc done : Conn) (after : Verifiers) (aborted : Bool) (rv : Status)
    (used : Builder)
    → ((sni : Option String) → env.answer_challenge sni ≡ none)
    → cc.client_auth ≡ ClientAuth.required
    → build_server_connection env fuel cc ≡ returned done after aborted rv (some used)
    → (ca : String) × ((env.server_conf done.server).client_ca ≡ some ca)
      × Verified env ca after used
unfolding build_server_connection
build_server_connection_required env fuel cc done after aborted rv used unasked h e =
    elim (Result-cases (choose_provider env.supported_versions (env.server_conf cc.server))) [
      | inr (f, p) ↦ ground arith
      | inl (provider, p) ↦ elim (Result-cases (env.new_builder provider)) [
        | inr (f, b) ↦ ground arith
        | inl (_, b) ↦ elim (Option-cases (select_application_protocol env fuel cc)) [
          | inl s ↦ ground arith
          | inr (sel, s) ↦
              after_select-Verified env provider sel done after aborted rv used
                (select_keeps env ClientAuth.required
                  (answer_unasked env ClientAuth.required unasked) fuel cc sel h s)
                (ground arith)
        ]
      ]
    ]
