-- ===== src/Core/Build/Loop.antt =====
-- When `select_application_protocol` returns.
use mod_tls.Base.{
  [], ℕ, zero, suc, true, false, none, some, String, text_eq_iff, is_empty, is_some, get_or_else,
  ◌≡◌, refl, inl, inr, Failure, success, failed, arith, Option-cases,
}
use mod_tls.Conn.{Conn}
use mod_tls.Core.Build.{BuildEnv, Selected, cleanup, announce, select_application_protocol}

cleanup_failed : (fuel : ℕ) (e : Failure) (sel : Selected) → cleanup fuel (failed e) sel ≡ none
unfolding cleanup
cleanup_failed zero e sel = refl
cleanup_failed (suc n) e sel = cleanup_failed n e (record sel { rv = failed e })

announce_returns :
    (env : BuildEnv) (fuel : ℕ) (cc : Conn) (proposed : String)
    → env.set_alpn proposed ≡ success
    → is_some (announce env (suc fuel) cc proposed) ≡ true
unfolding announce cleanup
announce_returns env fuel cc proposed h = ground arith

-- If rustls takes the protocol that is announced, the function returns, with the loop's test made
-- once.
pub select_application_protocol_returns :
    (env : BuildEnv) (fuel : ℕ) (cc : Conn)
    → ((p : String) → env.set_alpn p ≡ success)
    → is_some (select_application_protocol env (suc fuel) cc) ≡ true
unfolding select_application_protocol cleanup
select_application_protocol_returns env fuel cc h =
    elim (Option-cases (env.select_protocol cc.server (get_or_else cc.alpn []))) [
      | inl k ↦ ground arith
      | inr (p, k) ↦ ground (
        arith,
        announce_returns env fuel (record cc { application_protocol = some env.get_protocol }) p
            (h p),
      )
    ]

announce_hangs :
    (env : BuildEnv) (fuel : ℕ) (cc : Conn) (proposed : String) (e : Failure)
    → env.set_alpn proposed ≡ failed e
    → announce env fuel cc proposed ≡ none
unfolding announce
announce_hangs env fuel cc proposed e h =
    rw (h, announce) (cleanup_failed fuel e (record { cc = cc; alpn = none; rv = success }))

-- If the client proposes protocols, httpd selects the one it uses already, and rustls refuses to
-- announce it, the function never returns: no number of rounds of its loop is enough.
pub select_application_protocol_hangs :
    (env : BuildEnv) (fuel : ℕ) (cc : Conn) (e : Failure)
    → is_empty (get_or_else cc.alpn []) ≡ false
    → env.select_protocol cc.server (get_or_else cc.alpn []) ≡ some env.get_protocol
    → env.set_alpn env.get_protocol ≡ failed e
    → select_application_protocol env fuel cc ≡ none
unfolding select_application_protocol
select_application_protocol_hangs env fuel cc e p s h = rw p (
    rw s (
      rw ((text_eq_iff env.get_protocol env.get_protocol).1 refl) (
        announce_hangs env fuel (record cc { application_protocol = some env.get_protocol })
          env.get_protocol e h)))
