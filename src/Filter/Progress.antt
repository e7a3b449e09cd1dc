-- ===== src/Filter/Progress.antt =====
-- In which state a connection is after `progress_tls_atleast_to`.
use mod_tls.Base.{
  ap, sym, ◌∙◌, leb, subst, true, false, ◌&&◌, ◌||◌, ltb, leb, if◌then◌else◌, Status, success,
  failed, ◌≡◌, ◌⊎◌, refl, arith, inl, inr, Bool-cases, is_success,
}
use mod_tls.Conn.{ConnState, client_hello, handshake, traffic, done, rank, is_enabled}
use mod_tls.Filter.{
  Ctx, Steps, filter_abort, and_then, hello_phase, handshake_phase, check_level, leave, attempt,
  progress_tls_atleast_to, is_done, set_state, at_client_hello, at_handshake,
}

-- The states after the two phases, and the test of the level.
levels :
    (state s s1 s2 : ConnState)
    → (state ≡ handshake) ⊎ (state ≡ traffic)
    → leb (rank client_hello) (rank s) ≡ true
    → s1 ≡ (if ltb (rank client_hello) (rank state) && at_client_hello s then handshake else s)
    → s2 ≡ (if ltb (rank handshake) (rank state) && at_handshake s1 then traffic else s1)
    → ltb (rank state) (rank s2) ≡ false
    → s2 ≡ state
levels state s s1 s2 target enabled e1 e2 low = ground arith

not_done : (state : ConnState) → (state ≡ handshake) ⊎ (state ≡ traffic) → is_done state ≡ false
not_done state target = ground arith

module _ {ℓ} {W : Type ℓ} where
  filter_abort_done :
      (steps : Steps W) (fctx : Ctx W)
      → ((filter_abort steps fctx).0.cc.state ≡ done)
        × ((is_done fctx.cc.state || (filter_abort steps fctx).0.aborted) ≡ true)
  unfolding filter_abort
  filter_abort_done steps fctx = ground arith

  leave_failed :
      (steps : Steps W) (r : Ctx W × Status)
      → is_success (leave steps r).1 ≡ false
      → (leave steps r).0.cc.state ≡ done
  unfolding leave
  leave_failed steps (fctx, success) h = ground arith
  leave_failed steps (fctx, failed e) h = (filter_abort_done steps fctx).0

  -- Whatever the calls do: if the progress fails, the connection is done.
  pub progress_failed :
      (steps : Steps W) (state : ConnState) (fctx : Ctx W)
      → is_success (progress_tls_atleast_to steps state fctx).1 ≡ false
      → (progress_tls_atleast_to steps state fctx).0.cc.state ≡ done
  unfolding progress_tls_atleast_to
  progress_failed steps state fctx h = leave_failed steps (attempt steps state fctx) h

  and_then_sets :
      (state : ConnState) (r : Ctx W × Status)
      → (and_then r (λ c. (set_state state c, success))).1 ≡ success
      → (and_then r (λ c. (set_state state c, success))).0.cc.state ≡ state
  unfolding and_then
  and_then_sets state (c, success) h = refl
  and_then_sets state (c, failed e) h = ground arith

  and_then_success :
      (r : Ctx W × Status) (next : Ctx W → Ctx W × Status)
      → (and_then r next).1 ≡ success
      → (r.1 ≡ success) × (and_then r next ≡ next r.0)
  unfolding and_then
  and_then_success (c, success) next h = (refl, refl)
  and_then_success (c, failed e) next h = ground arith

  leave_success :
      (steps : Steps W) (r : Ctx W × Status)
      → (leave steps r).1 ≡ success
      → (r.1 ≡ success) × (leave steps r ≡ r)
  unfolding leave
  leave_success steps (c, success) h = (refl, refl)
  leave_success steps (c, failed e) h = ground arith

  hello_state :
      (steps : Steps W) (state : ConnState) (fctx : Ctx W)
      → (hello_phase steps state fctx).1 ≡ success
      → (hello_phase steps state fctx).0.cc.state ≡ (
          if ltb (rank client_hello) (rank state) && at_client_hello fctx.cc.state
          then handshake
          else fctx.cc.state)
  unfolding hello_phase
  hello_state steps state fctx h =
      elim (Bool-cases (ltb (rank client_hello) (rank state) && at_client_hello fctx.cc.state)) [
        | inl e ↦ rw e (
            and_then_sets handshake
              (and_then (steps.conn_init fctx) (λ c.
                if c.cc.outgoing then steps.send_client_hello c else steps.recv_client_hello c))
              (subst
                (λ t.
                  (if t
                    then and_then
                        (and_then (steps.conn_init fctx) (λ c.
                          if c.cc.outgoing
                          then steps.send_client_hello c
                          else steps.recv_client_hello c))
                        (λ c. (set_state handshake c, success))
                    else (fctx, success)).1
                  ≡ success)
                e h))
        | inr e ↦ rw e refl
      ]

  handshake_state :
      (steps : Steps W) (state : ConnState) (fctx : Ctx W)
      → (handshake_phase steps state fctx).1 ≡ success
      → (handshake_phase steps state fctx).0.cc.state ≡ (
          if ltb (rank handshake) (rank state) && at_handshake fctx.cc.state
          then traffic
          else fctx.cc.state)
  unfolding handshake_phase
  handshake_state steps state fctx h =
      elim (Bool-cases (ltb (rank handshake) (rank state) && at_handshake fctx.cc.state)) [
        | inl e ↦
            ground (
              arith,
              and_then_sets traffic (and_then (steps.do_handshake fctx) steps.post_handshake),
            )
        | inr e ↦ rw e refl
      ]

  check_success :
      (state : ConnState) (c : Ctx W)
      → (check_level state c).1 ≡ success
      → ((check_level state c).0 ≡ c) × (ltb (rank state) (rank c.cc.state) ≡ false)
  unfolding check_level
  check_success state c h = elim (Bool-cases (ltb (rank state) (rank c.cc.state))) [
    | inl e ↦ ground arith
    | inr e ↦ rw e (refl, refl)
  ]

  chain_reaches :
      (steps : Steps W) (state : ConnState) (fctx : Ctx W)
      → (state ≡ handshake) ⊎ (state ≡ traffic)
      → is_enabled fctx.cc ≡ true
      → let both = and_then (hello_phase steps state fctx) (handshake_phase steps state) in
        (and_then both (check_level state)).1 ≡ success
        → (and_then both (check_level state)).0.cc.state ≡ state
  chain_reaches steps state fctx target enabled h =
      let hello = hello_phase steps state fctx in
      let both = and_then hello (handshake_phase steps state) in
      let (both_ok, last) = and_then_success both (check_level state) h in
      let (hello_ok, second) = and_then_success hello (handshake_phase steps state) both_ok in
      let (kept, low) =
        check_success state both.0 (ap (λ (r : Ctx W × Status). r.1) (sym last) ∙ h) in
      let s2 =
        ap (λ (r : Ctx W × Status). r.0.cc.state) second
        ∙ handshake_state steps state hello.0
            (ap (λ (r : Ctx W × Status). r.1) (sym second) ∙ both_ok) in
      ap (λ (r : Ctx W × Status). r.0.cc.state) last
      ∙ ap (λ (c : Ctx W). c.cc.state) kept
      ∙ levels state fctx.cc.state hello.0.cc.state both.0.cc.state target enabled
          (hello_state steps state fctx hello_ok) s2 low

  -- A connection that is enabled and that progresses to the handshake or to traffic with success is
  -- in that very state, whatever the calls do.
  pub progress_reaches :
      (steps : Steps W) (state : ConnState) (fctx : Ctx W)
      → (state ≡ handshake) ⊎ (state ≡ traffic)
      → is_enabled fctx.cc ≡ true
      → (progress_tls_atleast_to steps state fctx).1 ≡ success
      → (progress_tls_atleast_to steps state fctx).0.cc.state ≡ state
  unfolding progress_tls_atleast_to attempt
  progress_reaches steps state fctx target enabled h =
      let (tried, same) = leave_success steps (attempt steps state fctx) h in
      let chain =
        and_then (and_then (hello_phase steps state fctx) (handshake_phase steps state))
          (check_level state) in
      let opened : attempt steps state fctx ≡ chain = rw (not_done state target) refl in
      ap (λ (r : Ctx W × Status). r.0.cc.state) (same ∙ opened)
      ∙ chain_reaches steps state fctx target enabled
          (ap (λ (r : Ctx W × Status). r.1) (sym opened) ∙ tried)
