-- ===== src/Conn/Lifecycle.antt =====
-- Who decides about a connection, and that the decision stands.
use mod_tls.Base.{
  Option-cases, Bool-cases, ◌∙◌, sym, ◌∷◌, ℕ, ◌≡◌, ◌≢◌, refl, Option, arith, List, [],
}
use mod_tls.Conf.{DirConf, ServerConf}
use mod_tls.Conn.{
  ConnState, init, Conn, ConnRec, get_or_make, conn_disable, conn_bind, pre_conn_init,
  setup_outgoing, conn_free,
}

-- The calls that other parts of the server make while a connection is set up.
pub data Call : Type 0 where
  disable : Call
  bind : Option DirConf → Call
  pre_conn : Call
  setup : Call

pub call : (ℕ → ServerConf) → DirConf → ConnRec → Call → ConnRec
call servers defaults c disable = conn_disable c
call servers defaults c (bind dir_conf) = conn_bind c dir_conf
call servers defaults c pre_conn = (pre_conn_init servers c).0
call servers defaults c setup = (setup_outgoing defaults c).0

pub calls : (ℕ → ServerConf) → DirConf → ConnRec → List Call → ConnRec
calls servers defaults c [] = c
calls servers defaults c (x ∷ xs) = calls servers defaults (call servers defaults c x) xs

-- The state of the connection, `init` if there is no configuration yet.
abbrev pub state_of : ConnRec → ConnState
state_of c = (get_or_make c).state

call_decided :
    (servers : ℕ → ServerConf) (defaults : DirConf) (c : ConnRec) (x : Call)
    → state_of c ≢ init
    → state_of (call servers defaults c x) ≡ state_of c
unfolding call conn_disable conn_bind pre_conn_init setup_outgoing
call_decided servers defaults c disable h = ground arith
call_decided servers defaults c (bind dir_conf) h = ground arith
call_decided servers defaults c pre_conn h = ground arith
call_decided servers defaults c setup h = ground arith

-- Once a connection is decided about, no sequence of these calls changes its state.
pub calls_decided :
    (servers : ℕ → ServerConf) (defaults : DirConf) (c : ConnRec) (xs : List Call)
    → state_of c ≢ init
    → state_of (calls servers defaults c xs) ≡ state_of c
unfolding calls
calls_decided servers defaults c [] h = refl
calls_decided servers defaults c (x ∷ xs) h =
    let e = call_decided servers defaults c x h in
    calls_decided servers defaults (call servers defaults c x) xs (λ k. h (sym e ∙ k)) ∙ e

-- Of a connection that is freed twice, the second call hands nothing to the free functions of
-- rustls, and finds the state as it was before the first.
pub conn_free_twice :
    (cc : Conn)
    → let freed = (conn_free cc).0 in
      ((conn_free freed).1
        ≡ record { connections = []; server_configs = []; client_configs = []; keys = [] })
      × ((conn_free freed).0 ≡ freed)
      × (freed.state ≡ cc.state)
unfolding conn_free
conn_free_twice cc = ground (arith, Bool-cases cc.key_cloned, Option-cases cc.local_keys)
