-- ===== src/Core/Build/Auth.antt =====
-- What `select_application_protocol` does to the client authentication of a connection.
use mod_tls.Base.{
  String, failed, ℕ, zero, suc, Status-cases, failed, Option, none, some, [], get_or_else, ◌≡◌, inl,
  inr, Status, success, arith, Option-cases,
}
use mod_tls.Conf.{ClientAuth}
use mod_tls.Conn.{Conn}
use mod_tls.Core.Build.{
  BuildEnv, Selected, cleanup, answer, use_local_key, announce, select_application_protocol,
}

-- What is true of the connection when the function leaves was true before.
cleanup-eq-some :
    (auth : ClientAuth) (fuel : ℕ) (rr : Status) (sel out : Selected)
    → cleanup fuel rr sel ≡ some out
    → sel.cc.client_auth ≡ auth
    → out.cc.client_auth ≡ auth
unfolding cleanup
cleanup-eq-some auth zero rr sel out e h = ground arith
cleanup-eq-some auth (suc n) success sel out e h = ground arith
cleanup-eq-some auth (suc n) (failed f) sel out e h =
    cleanup-eq-some auth n (failed f) (record sel { rv = failed f }) out e h

pub answer_keeps :
    (env : BuildEnv) (cc : Conn) (proposed : String)
    → cc.client_auth ≡ ClientAuth.absent
    → (answer env cc proposed).0.client_auth ≡ ClientAuth.absent
unfolding answer use_local_key
answer_keeps env cc proposed h = elim (Option-cases (env.answer_challenge cc.sni_hostname)) [
  | inl k ↦ ground arith
  | inr (pems, k) ↦ ground arith
]

-- A call that answers no challenge leaves it as it was.
pub answer_unasked :
    (env : BuildEnv) (auth : ClientAuth)
    → ((sni : Option String) → env.answer_challenge sni ≡ none)
    → (cc : Conn) (proposed : String) → cc.client_auth ≡ auth
    → (answer env cc proposed).0.client_auth ≡ auth
unfolding answer
answer_unasked env auth unasked cc proposed h = ground (arith, unasked cc.sni_hostname)

-- A value of `client_auth` that the answer to a challenge leaves alone, or sets itself.
abbrev pub Stays : BuildEnv → ClientAuth → Type 0
Stays env auth =
    (cc : Conn) (proposed : String)
    → cc.client_auth ≡ auth
    → (answer env cc proposed).0.client_auth ≡ auth

announce_keeps :
    (env : BuildEnv) (auth : ClientAuth)
    → Stays env auth
    → (fuel : ℕ) (cc : Conn) (proposed : String) (sel : Selected) → cc.client_auth ≡ auth
    → announce env fuel cc proposed ≡ some sel
    → sel.cc.client_auth ≡ auth
unfolding announce
announce_keeps env auth stays fuel cc proposed sel h e =
    elim (Status-cases (env.set_alpn proposed)) [
      | inl k ↦ ground (
        arith,
        stays (record cc { application_protocol = some proposed }) proposed h,
        cleanup-eq-some auth fuel success
            (let r = answer env (record cc { application_protocol = some proposed }) proposed in
              record { cc = r.0; alpn = some proposed; rv = r.1 })
            sel,
      )
      | inr (f, k) ↦ ground (
        arith,
        cleanup-eq-some auth fuel (failed f) (record { cc = cc; alpn = none; rv = success }) sel,
      )
    ]

pub select_keeps :
    (env : BuildEnv) (auth : ClientAuth)
    → Stays env auth
    → (fuel : ℕ) (cc : Conn) (sel : Selected) → cc.client_auth ≡ auth
    → select_application_protocol env fuel cc ≡ some sel
    → sel.cc.client_auth ≡ auth
unfolding select_application_protocol
select_keeps env auth stays fuel cc0 sel h e =
    let cc = record cc0 { application_protocol = some env.get_protocol } in
    let left = λ (rv : Status).
      cleanup-eq-some auth fuel success (record { cc = cc; alpn = none; rv = rv }) sel in
    elim (Option-cases (env.select_protocol cc0.server (get_or_else cc0.alpn []))) [
      | inl k ↦ ground (arith, left success)
      | inr (p, k) ↦ elim (Status-cases (env.switch_protocol cc0.server p)) [
        | inl s ↦ ground (arith, left success, announce_keeps env auth stays fuel cc p sel)
        | inr (f, s) ↦
            ground
              (arith, left success, left (failed f), announce_keeps env auth stays fuel cc p sel)
      ]
    ]
