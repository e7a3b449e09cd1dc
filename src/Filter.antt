-- ===== src/Filter.antt =====
-- The states of a connection in the filters of src/tls_filter.c: `progress_tls_atleast_to` and
-- `filter_abort`. What they call comes as the record `Steps`; `W` is all that these calls may
-- change besides the connection, such as the bucket brigades and the session of rustls.
pub mod Progress
pub mod Output
pub mod Input
pub mod Setup
use mod_tls.Base.{
  Bool, true, false, ◌&&◌, ltb, if◌then◌else◌, Status, success, failed, econnaborted,
}
use mod_tls.Conn.{ConnState, client_hello, handshake, traffic, done, rank, Conn}

-- tls_filter_ctx_t, with `aborted` of its connection.
pub record Ctx {ℓ} (W : Type ℓ) : Type ℓ where
  pub cc : Conn
  pub aborted : Bool
  pub world : W

pub record Steps {ℓ} (W : Type ℓ) : Type ℓ where
  pub conn_init : Ctx W → Ctx W × Status
  pub send_client_hello : Ctx W → Ctx W × Status
  pub recv_client_hello : Ctx W → Ctx W × Status
  pub do_handshake : Ctx W → Ctx W × Status
  pub post_handshake : Ctx W → Ctx W × Status
  -- `rustls_connection_send_close_notify` and `fout_pass_all_to_net`
  pub close_and_flush : Ctx W → Ctx W × Status

abbrev pub is_done : ConnState → Bool
is_done done = true
is_done _ = false

abbrev pub at_client_hello : ConnState → Bool
at_client_hello client_hello = true
at_client_hello _ = false

abbrev pub at_handshake : ConnState → Bool
at_handshake handshake = true
at_handshake _ = false

module _ {ℓ} {W : Type ℓ} where
  abbrev pub set_state : ConnState → Ctx W → Ctx W
  set_state state fctx = record fctx { cc = record fctx.cc { state = state } }

  -- The next call, unless the one before went to `cleanup`.
  unfoldable pub and_then : Ctx W × Status → (Ctx W → Ctx W × Status) → Ctx W × Status
  and_then (fctx, success) next = next fctx
  and_then (fctx, failed e) next = (fctx, failed e)

  unfoldable pub filter_abort : Steps W → Ctx W → Ctx W × Status
  filter_abort steps fctx =
      if is_done fctx.cc.state
      then (fctx, failed econnaborted)
      else (let flushed =
            if ltb (rank client_hello) (rank fctx.cc.state)
            then (steps.close_and_flush fctx).0
            else fctx in
          (set_state done (record flushed { aborted = true }), failed econnaborted))

  unfoldable pub hello_phase : Steps W → ConnState → Ctx W → Ctx W × Status
  hello_phase steps state fctx =
      if ltb (rank client_hello) (rank state) && at_client_hello fctx.cc.state
      then and_then
          (and_then (steps.conn_init fctx)
            (λ c. if c.cc.outgoing then steps.send_client_hello c else steps.recv_client_hello c))
          (λ c. (set_state handshake c, success))
      else (fctx, success)

  unfoldable pub handshake_phase : Steps W → ConnState → Ctx W → Ctx W × Status
  handshake_phase steps state fctx =
      if ltb (rank handshake) (rank state) && at_handshake fctx.cc.state
      then and_then (and_then (steps.do_handshake fctx) steps.post_handshake)
          (λ c. (set_state traffic c, success))
      else (fctx, success)

  unfoldable pub check_level : ConnState → Ctx W → Ctx W × Status
  check_level state fctx =
      if ltb (rank state) (rank fctx.cc.state) then (fctx, failed econnaborted) else (fctx, success)

  -- From the label `cleanup` on.
  unfoldable pub leave : Steps W → Ctx W × Status → Ctx W × Status
  leave steps (fctx, success) = (fctx, success)
  leave steps (fctx, failed e) = ((filter_abort steps fctx).0, failed e)

  -- All before that label.
  unfoldable pub attempt : Steps W → ConnState → Ctx W → Ctx W × Status
  attempt steps state fctx =
      if is_done state
      then (fctx, failed econnaborted)
      else and_then (and_then (hello_phase steps state fctx) (handshake_phase steps state))
          (check_level state)

  unfoldable pub progress_tls_atleast_to : Steps W → ConnState → Ctx W → Ctx W × Status
  progress_tls_atleast_to steps state fctx = leave steps (attempt steps state fctx)
