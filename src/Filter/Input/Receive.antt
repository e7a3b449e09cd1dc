-- ===== src/Filter/Input/Receive.antt =====
-- The client hello: no TLS data of the client is lost between the session that inspects it and the
-- session that the connection gets after it.
use mod_tls.Base.{
  is_empty, List, ◌∷◌, inl, inr, ℕ, zero, suc, ◌≡◌, refl, ap, sym, ◌∙◌, Bool, true, false, none,
  some, [], ◌++◌, if◌then◌else◌, Status, success, failed, arith, subst,
}
use mod_tls.Brigade.{Bucket, bytes}
use mod_tls.Filter.{Ctx}
use mod_tls.Filter.Output.{Outcome, returned, assertion, hangs, then_do, result}
use mod_tls.Filter.Input.{In, InIo, max_in_rustls, read_tls_to_rustls}
use mod_tls.Filter.Input.Hello.{after_read, hello_loop, replay, recv_client_hello}
use mod_tls.Filter.Input.Reads.{bytes_of, NoEos}
use mod_tls.Filter.Input.Replay.{Network, Complete, Read, read_tls_to_rustls-Read}

front_bytes :
    (b : List ℕ) (bb : List Bucket)
    → bytes_of (if is_empty b then bb else bytes b ∷ bb) ≡ b ++ bytes_of bb
unfolding bytes_of
front_bytes [] bb = refl
front_bytes (x ∷ b) bb = refl

module _ {ℓ} {S N X : Type ℓ} {io : InIo S N} (network : Network io) where
  -- All data is there, and none of it is EOS.
  abbrev Quiet : Ctx (In S N X) → Type ℓ
  Quiet c = Complete network c × NoEos c.world.tls_bb

  Quiet-Read :
      (o : Outcome (In S N X))
      → Read network (Unit {0}) o
      → (c : Ctx (In S N X)) × (rv : Status) × (o ≡ returned c rv) × Quiet c
  unfolding NoEos
  Quiet-Read o (c, rv, e, inl h, q) = (c, rv, e, (h, q tt))
  Quiet-Read o (c, rv, e, inr h, q) = absurd (subst NoEos h.front.1 (q tt))

  -- If the outcome is a successful return, `P` holds of its state.
  abbrev IfDone : (Ctx (In S N X) → Type ℓ) → Outcome (In S N X) → Type ℓ
  IfDone P (returned c success) = P c
  IfDone P (returned c (failed e)) = Unit {ℓ}
  IfDone P assertion = Unit {ℓ}
  IfDone P hangs = Unit {ℓ}

  then_do-IfDone :
      (P Q : Ctx (In S N X) → Type ℓ) (o : Outcome (In S N X))
      (next : Ctx (In S N X) → Outcome (In S N X))
      → IfDone P o
      → ((c : Ctx (In S N X)) → P c → IfDone Q (next c))
      → IfDone Q (then_do o next)
  then_do-IfDone P Q (returned c success) next h f = f c h
  then_do-IfDone P Q (returned c (failed e)) next h f = tt
  then_do-IfDone P Q assertion next h f = tt
  then_do-IfDone P Q hangs next h f = tt

  if-IfDone :
      (P : Ctx (In S N X) → Type ℓ) (b : Bool) (x y : Outcome (In S N X))
      → IfDone P x
      → IfDone P y
      → IfDone P (if b then x else y)
  if-IfDone P true x y h k = h
  if-IfDone P false x y h k = k

  after_read_lem :
      (next : Ctx (In S N X) → Outcome (In S N X)) (o : Outcome (In S N X))
      → (c : Ctx (In S N X)) × (rv : Status) × (o ≡ returned c rv) × Quiet c
      → ((c : Ctx (In S N X)) → Quiet c → IfDone Quiet (next c))
      → IfDone Quiet (after_read io next o)
  unfolding after_read
  after_read_lem next o (c1, success, e, h1) go =
      rw e (if-IfDone Quiet c1.cc.client_hello_seen _ _ h1 (go c1 h1))
  after_read_lem next o (c1, failed err, e, h1) go =
      rw e (if-IfDone Quiet c1.cc.client_hello_seen _ _ h1 tt)

  hello_loop_lem :
      (n : ℕ) (c : Ctx (In S N X))
      → ((n : N) (nonblock : Bool) (len : ℕ) → NoEos (io.get_brigade n nonblock len).1.1)
      → Quiet c
      → IfDone Quiet (hello_loop io n c)
  unfolding hello_loop
  hello_loop_lem zero c quiet h = tt
  hello_loop_lem (suc n) c quiet h =
      if-IfDone Quiet (io.wants_read c.world.session) _ _
        (after_read_lem (hello_loop io n) (read_tls_to_rustls io max_in_rustls false true c)
          (Quiet-Read _ (
            read_tls_to_rustls-Read network Unit max_in_rustls false true c h.0 (λ x. h.1)
              (λ x. quiet c.world.net false max_in_rustls)))
          (λ c1 h1. hello_loop_lem n c1 quiet h1))
        (if-IfDone Quiet c.cc.client_hello_seen _ _ h (hello_loop_lem n c quiet h))

  -- All that was received is unread again, and nothing is buffered.
  pub record Replayed (c : Ctx (In S N X)) : Type ℓ where
    pub all : bytes_of c.world.tls_bb ≡ network.received c.world.net
    pub tls_buffer_bb : c.world.tls_buffer_bb ≡ none

  replay-Replayed : (c : Ctx (In S N X)) → Quiet c → IfDone Replayed (replay io c)
  unfolding replay
  replay-Replayed c h =
      let (b, e, s) = h.0.all in
      rw (replay, e) (record { all = front_bytes b c.world.tls_bb ∙ s; tls_buffer_bb = refl })

  -- What `tls_core_conn_seen_client_hello` leaves alone.
  pub record Leaves (seen : Ctx (In S N X) → Ctx (In S N X) × Status) : Type ℓ where
    pub tls_bb : (c : Ctx (In S N X)) → (seen c).0.world.tls_bb ≡ c.world.tls_bb
    pub tls_buffer_bb :
        (c : Ctx (In S N X)) → (seen c).0.world.tls_buffer_bb ≡ c.world.tls_buffer_bb
    pub net : (c : Ctx (In S N X)) → (seen c).0.world.net ≡ c.world.net

  result-IfDone :
      (P : Ctx (In S N X) → Type ℓ) (r : Ctx (In S N X) × Status) → P r.0 → IfDone P (result r)
  result-IfDone P (c, success) h = h
  result-IfDone P (c, failed e) h = tt

  seen-Quiet :
      (seen : Ctx (In S N X) → Ctx (In S N X) × Status)
      → Leaves seen
      → (c : Ctx (In S N X)) → Quiet c
      → Quiet (seen c).0
  seen-Quiet seen leaves c h =
      let (b, e, s) = h.0.all in
      (
        record {
          all = (
            b,
            leaves.tls_buffer_bb c ∙ e,
            ap (λ l. b ++ bytes_of l) (leaves.tls_bb c)
                ∙ s
                ∙ sym (ap network.received (leaves.net c)),
          );
        },
        rw (leaves.tls_bb c) h.1,
      )

  of_return :
      (P : Ctx (In S N X) → Type ℓ) (o : Outcome (In S N X)) (c : Ctx (In S N X))
      → IfDone P o
      → o ≡ returned c success
      → P c
  of_return P o c h e = subst (λ o. IfDone P o) e h

  entered :
      (seen : Ctx (In S N X) → Ctx (In S N X) × Status) (fuel : ℕ) (c : Ctx (In S N X))
      → c.cc.outgoing ≡ false
      → io.is_handshaking c.world.session ≡ true
      → recv_client_hello io seen fuel c
        ≡ then_do
            (hello_loop io fuel (record c { world = record c.world { tls_buffer_bb = some [] } }))
            (λ c1. then_do (result (seen c1)) (replay io))
  unfolding recv_client_hello
  entered seen fuel c incoming handshaking = ground arith

  -- With rustls and the filters below as `Network` says, a choice of the server (`seen`) that leaves
  -- the data alone, all data that was received unread at first, and no EOS in it or from the filters
  -- below: if the client hello is received
  -- with success on a session that is handshaking, all data that was received, from the first byte
  -- on and in its order, is unread again for the new session, and no buffer is left.
  pub recv_client_hello_replays :
      (seen : Ctx (In S N X) → Ctx (In S N X) × Status) (fuel : ℕ) (c c' : Ctx (In S N X))
      → Leaves seen
      → c.cc.outgoing ≡ false
      → io.is_handshaking c.world.session ≡ true
      → bytes_of c.world.tls_bb ≡ network.received c.world.net
      → NoEos c.world.tls_bb
      → ((n : N) (nonblock : Bool) (len : ℕ) → NoEos (io.get_brigade n nonblock len).1.1)
      → recv_client_hello io seen fuel c ≡ returned c' success
      → Replayed c'
  unfolding recv_client_hello
  recv_client_hello_replays seen fuel c c' leaves incoming handshaking all no_eos quiet e =
      let c0 = record c { world = record c.world { tls_buffer_bb = some [] } } in
      of_return Replayed (recv_client_hello io seen fuel c) c'
        (subst (λ o. IfDone Replayed o) (sym (entered seen fuel c incoming handshaking))
          (then_do-IfDone Quiet Replayed (hello_loop io fuel c0) _
            (hello_loop_lem fuel c0 quiet (record { all = ([], refl, all) }, no_eos))
            (λ c1 h1.
              then_do-IfDone Quiet Replayed (result (seen c1)) (replay io)
                (result-IfDone Quiet (seen c1) (seen-Quiet seen leaves c1 h1)) replay-Replayed)))
        e
