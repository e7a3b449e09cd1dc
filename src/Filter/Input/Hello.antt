-- ===== src/Filter/Input/Hello.antt =====
-- The client hello and the handshake of src/tls_filter.c, on top of `read_tls_to_rustls`. `write_out`
-- is `fout_pass_all_to_net` with a flush, and `seen` is `tls_core_conn_seen_client_hello`.
use mod_tls.Base.{
  [], is_empty, zero, suc, ℕ, true, false, none, some, ◌∷◌, if◌then◌else◌, Status, success, failed,
}
use mod_tls.Brigade.{bytes}
use mod_tls.Filter.{Ctx}
use mod_tls.Filter.Output.{Outcome, returned, assertion, hangs, then_do, result}
use mod_tls.Filter.Input.{In, InIo, max_in_rustls, read_tls_to_rustls}

module _ {ℓ} {S N X : Type ℓ} (io : InIo S N) where
  -- After the read in the loop: with the hello, a failure of the read does not matter.
  unfoldable pub after_read :
      (Ctx (In S N X) → Outcome (In S N X)) → Outcome (In S N X) → Outcome (In S N X)
  after_read next (returned c success) =
      let again = next c in if c.cc.client_hello_seen then returned c success else again
  after_read next (returned c (failed e)) =
      if c.cc.client_hello_seen then returned c success else returned c (failed e)
  after_read next assertion = assertion
  after_read next hangs = hangs

  unfoldable pub hello_loop : ℕ → Ctx (In S N X) → Outcome (In S N X)
  hello_loop zero c = hangs
  hello_loop (suc n) c =
      let reads = after_read (hello_loop n) (read_tls_to_rustls io max_in_rustls false true c) in
      let again = hello_loop n c in
      if io.wants_read c.world.session
      then reads
      else if c.cc.client_hello_seen
      then returned c success
      else again

  -- What was fed to the first session comes before what is unread. Without the buffer the code
  -- would go through a NULL.
  unfoldable pub replay : Ctx (In S N X) → Outcome (In S N X)
  replay c = elim c.world.tls_buffer_bb [
    | none ↦ assertion
    | some buffer ↦
        returned
          (record c {
            world = record c.world {
              tls_bb = if is_empty buffer then c.world.tls_bb else bytes buffer ∷ c.world.tls_bb;
              tls_buffer_bb = none;
            };
          })
          success
  ]

  unfoldable pub recv_client_hello :
      (Ctx (In S N X) → Ctx (In S N X) × Status) → ℕ → Ctx (In S N X) → Outcome (In S N X)
  recv_client_hello seen fuel c =
      if c.cc.outgoing
      then assertion
      else if io.is_handshaking c.world.session
      then then_do
          (hello_loop fuel (record c { world = record c.world { tls_buffer_bb = some [] } }))
          (λ c1. then_do (result (seen c1)) replay)
      else returned c success

  unfoldable pub send_loop :
      (Ctx (In S N X) → Outcome (In S N X)) → ℕ → Ctx (In S N X) → Outcome (In S N X)
  send_loop write_out zero c = hangs
  send_loop write_out (suc n) c =
      let next = then_do (write_out c) (send_loop write_out n) in
      if io.wants_write c.world.session then next else returned c success

  unfoldable pub send_client_hello :
      (Ctx (In S N X) → Outcome (In S N X)) → ℕ → Ctx (In S N X) → Outcome (In S N X)
  send_client_hello write_out fuel c =
      if c.cc.outgoing
      then if io.is_handshaking c.world.session
        then send_loop write_out fuel c
        else returned c success
      else assertion

  -- The body of the loop of `filter_do_handshake`.
  unfoldable pub handshake_round :
      (Ctx (In S N X) → Outcome (In S N X)) → Ctx (In S N X) → Outcome (In S N X)
  handshake_round write_out c =
      if io.wants_write c.world.session
      then write_out c
      else if io.wants_read c.world.session
      then read_tls_to_rustls io max_in_rustls false false c
      else returned c success

  abbrev last_write : (Ctx (In S N X) → Outcome (In S N X)) → Ctx (In S N X) → Outcome (In S N X)
  last_write write_out c =
      if io.wants_write c.world.session then write_out c else returned c success

  unfoldable pub handshake_loop :
      (Ctx (In S N X) → Outcome (In S N X)) → ℕ → Ctx (In S N X) → Outcome (In S N X)
  handshake_loop write_out zero c = hangs
  handshake_loop write_out (suc n) c = then_do (handshake_round write_out c) λ c1.
      let again = handshake_loop write_out n c1 in
      if io.is_handshaking c1.world.session then again else last_write write_out c1

  unfoldable pub do_handshake :
      (Ctx (In S N X) → Outcome (In S N X)) → ℕ → Ctx (In S N X) → Outcome (In S N X)
  do_handshake write_out fuel c =
      if io.is_handshaking c.world.session
      then handshake_loop write_out fuel c
      else returned c success
