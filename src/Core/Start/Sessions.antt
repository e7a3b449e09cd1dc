-- ===== src/Core/Start/Sessions.antt =====
-- When `tls_core_conn_init` returns, and which settings of a proxy configuration matter.
use mod_tls.Base.{
  ℕ, zero, suc, Bool, true, false, ◌≡◌, refl, Option, none, some, List, [], ◌∷◌, String, success,
  failed, inl, inr, is_positive, arith,
}
use mod_tls.Proto.{ProtoConf}
use mod_tls.Conf.{ProxyConf}
use mod_tls.Conn.{Conn, disabled, is_enabled}
use mod_tls.Core.Start.Outgoing.{
  OutEnv, Begun, returned, hangs, conn_init, conn_init_cleanup, client_builder, new_builder,
  get_proxy_ciphers,
}

conn_init_cleanup_hangs :
    (n : ℕ) (env : OutEnv) (rr : ℕ) (begun : Begun)
    → conn_init_cleanup n env (some rr) begun ≡ hangs
unfolding conn_init_cleanup
conn_init_cleanup_hangs zero env rr begun = refl
conn_init_cleanup_hangs (suc n) env rr (cc, (aborted, rv)) =
    conn_init_cleanup_hangs n env rr
      (record cc { state = disabled }, (true, failed (env.rustls_error rr)))

-- `tls_core_conn_init` on an enabled incoming connection without a session, for which rustls makes
-- one, returns with success in one round of the loop at its end; the connection has the session and
-- the 503 flag of the base server.
pub conn_init_returns :
    (env : OutEnv) (unavailable aborted : Bool) (outgoing : Bool → Conn → Begun) (cc : Conn)
    (connection : ℕ)
    → is_enabled cc ≡ true
    → cc.rustls_connection ≡ none
    → cc.outgoing ≡ false
    → env.server_connection ≡ inr connection
    → conn_init 1 env unavailable outgoing aborted cc
      ≡ returned (
        record cc { rustls_connection = some connection; service_unavailable = unavailable },
        (aborted, success),
      )
unfolding conn_init conn_init_cleanup
conn_init_returns env unavailable aborted outgoing cc connection on new direction made =
    ground arith

-- `tls_core_conn_init` on an enabled incoming connection without a session, for which rustls fails to
-- make one, does not return: no number of rounds is enough for the loop at its end.
pub conn_init_hangs :
    (env : OutEnv) (unavailable aborted : Bool) (outgoing : Bool → Conn → Begun) (cc : Conn)
    (rr fuel : ℕ)
    → is_enabled cc ≡ true
    → cc.rustls_connection ≡ none
    → cc.outgoing ≡ false
    → env.server_connection ≡ inl rr
    → conn_init fuel env unavailable outgoing aborted cc ≡ hangs
unfolding conn_init
conn_init_hangs env unavailable aborted outgoing cc rr fuel on new direction fails =
    let e = conn_init_cleanup_hangs fuel env rr (cc, (aborted, success)) in ground arith

new_builder_none :
    (env : OutEnv) (suites : Option (List ℕ))
    → new_builder env suites none ≡ new_builder env none none
unfolding new_builder
new_builder_none env none = refl
new_builder_none env (some []) = refl
new_builder_none env (some (suite ∷ suites)) = refl

-- Where a proxy configuration sets no minimum version, the ciphers that it prefers or suppresses do
-- not matter: the builder of the client's configuration is the one for any other lists.
pub client_builder_ciphers :
    (env : OutEnv) (proto : ProtoConf ℕ) (pc : ProxyConf) (hostname alpn_note : Option String)
    (pref supp : List ℕ)
    → is_positive pc.proxy_protocol_min ≡ false
    → client_builder env proto pc hostname alpn_note
      ≡ client_builder env proto
          (record pc { proxy_pref_ciphers = pref; proxy_supp_ciphers = supp })
          hostname
          alpn_note
unfolding client_builder
client_builder_ciphers env proto pc hostname alpn_note pref supp h =
    rw (h, new_builder_none env (get_proxy_ciphers proto pc))
      (rw
        (new_builder_none env (
          get_proxy_ciphers proto
            (record pc { proxy_pref_ciphers = pref; proxy_supp_ciphers = supp })))
        refl)
