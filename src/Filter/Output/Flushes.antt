-- ===== src/Filter/Output/Flushes.antt =====
-- The functions that empty the buffer.
use mod_tls.Base.{
  ◌-◌, if◌then◌else◌, ◌++◌, ◌<◌, is_empty, if◌then◌else◌, ◌==◌, ◌∷◌, length, Bool, Bool-cases, inl,
  inr, true, ℕ, ◌≡◌, refl, ap, sym, ◌∙◌, List, [], ◌++◌, append-nil, success, false, arith,
}
use mod_tls.Brigade
use mod_tls.Brigade.{flush}
use mod_tls.Filter.{Ctx}
use mod_tls.Filter.Output.{
  result, buf_plain_size, then_do, make_room, pass_all_to_net, pass_buf_to_rustls, pass_all_to_tls,
  returned, with_world, Io, Out, pass_tls_to_net,
}
use mod_tls.Filter.Output.Sends.{
  Drained, pass_tls_to_net_lem, pass_rustls_to_tls_lem, pass_buf_to_rustls_lem,
}
use mod_tls.Filter.Output.Views.{sent, then_do-Done, Done, Works}

module _ {ℓ} {S N : Type ℓ} {io : Io S N} (works : Works io) where
  -- The buffer is empty, and rustls has all that was sent.
  pub record Emptied (c c' : Ctx (Out S N)) : Type ℓ where
    pub sent_same : sent works c' ≡ sent works c
    pub buf_plain : c'.world.buf_plain ≡ []
    pub quiet : io.wants_write c'.world.session ≡ false
    pub bb : c'.world.bb ≡ c.world.bb
    pub aborted : c'.aborted ≡ false

  -- Before the TLS data is taken out of rustls.
  record Handed (c c' : Ctx (Out S N)) : Type ℓ where
    accepted : works.accepted c'.world.session ≡ sent works c
    buf_plain : c'.world.buf_plain ≡ []
    bb : c'.world.bb ≡ c.world.bb
    aborted : c'.aborted ≡ false

  Handed_drained : (c c1 c2 : Ctx (Out S N)) → Handed c c1 → Drained works [] c1 c2 → Emptied c c2
  Handed_drained c c1 c2 h q = record {
    sent_same =
        ap (λ (l : List ℕ). works.accepted c2.world.session ++ l) (q.took.buf_plain ∙ h.buf_plain)
        ∙ append-nil (works.accepted c2.world.session)
        ∙ q.took.accepted
        ∙ append-nil (works.accepted c1.world.session)
        ∙ h.accepted;
    buf_plain = q.took.buf_plain ∙ h.buf_plain;
    quiet = q.quiet;
    bb = q.took.bb ∙ h.bb;
    aborted = q.took.aborted ∙ h.aborted;
  }

  empty_lem : (l : List ℕ) → is_empty l ≡ true → l ≡ []
  empty_lem [] h = refl
  empty_lem (x ∷ l) h = ground arith

  handed_lem :
      (b : Bool) (c : Ctx (Out S N))
      → c.aborted ≡ false
      → is_empty c.world.buf_plain ≡ b
      → Done (Handed c) (
          if b
          then returned c success
          else then_do
              (pass_buf_to_rustls io c.world.buf_plain c)
              (λ c'. returned (with_world c' record c'.world { buf_plain = [] }) success))
  handed_lem true c a e = (
    c,
    refl,
    record {
      accepted = sym (
          ap (λ (l : List ℕ). works.accepted c.world.session ++ l) (empty_lem c.world.buf_plain e)
          ∙ append-nil (works.accepted c.world.session));
      buf_plain = empty_lem c.world.buf_plain e;
      bb = refl;
      aborted = a;
    },
  )
  handed_lem false c a e =
      then_do-Done _ _ (pass_buf_to_rustls_lem works c.world.buf_plain c a) (λ c1 t. (
        with_world c1 record c1.world { buf_plain = [] },
        refl,
        record { accepted = t.accepted; buf_plain = refl; bb = t.bb; aborted = t.aborted ∙ a },
      ))

  pub pass_all_to_tls_lem :
      (c : Ctx (Out S N)) → c.aborted ≡ false → Done (Emptied c) (pass_all_to_tls io c)
  unfolding pass_all_to_tls
  pass_all_to_tls_lem c a =
      then_do-Done _ _ (handed_lem (is_empty c.world.buf_plain) c a refl) (λ c1 h.
        let (c2, e, q) = pass_rustls_to_tls_lem works c1 h.aborted in
        (c2, e, Handed_drained c c1 c2 h q))

  -- And all of it is with the filters below.
  pub record Flushed (c c' : Ctx (Out S N)) : Type ℓ where
    pub emptied : Emptied c c'
    pub tls_bb : c'.world.tls_bb ≡ []

  flushed_lem :
      (c c1 : Ctx (Out S N)) → Emptied c c1 → Done (Flushed c) (result (pass_tls_to_net io c1))
  flushed_lem c c1 h =
      let r = pass_tls_to_net io c1 in
      let k = pass_tls_to_net_lem works c1 h.aborted in
      (
        r.0,
        ap (returned r.0) k.0,
        record {
          emptied = record {
            sent_same =
                ap (λ (s : S). works.accepted s ++ r.0.world.buf_plain) k.1
                ∙ ap (λ (l : List ℕ). works.accepted c1.world.session ++ l) k.2
                ∙ h.sent_same;
            buf_plain = k.2 ∙ h.buf_plain;
            quiet = ap io.wants_write k.1 ∙ h.quiet;
            bb = k.3 ∙ h.bb;
            aborted = k.4;
          };
          tls_bb = k.5;
        },
      )

  pub pass_all_to_net_lem :
      (flushes : Bool) (c : Ctx (Out S N))
      → c.aborted ≡ false
      → Done (Flushed c) (pass_all_to_net io flushes c)
  unfolding pass_all_to_net
  pass_all_to_net_lem true c a = then_do-Done _ _ (pass_all_to_tls_lem c a) (λ c1 h.
      flushed_lem c
        (with_world c1 record c1.world { tls_bb = c1.world.tls_bb ++ Brigade.metadata flush ∷ [] })
        (record {
          sent_same = h.sent_same;
          buf_plain = h.buf_plain;
          quiet = h.quiet;
          bb = h.bb;
          aborted = h.aborted;
        }))
  pass_all_to_net_lem false c a =
      then_do-Done _ _ (pass_all_to_tls_lem c a) (λ c1 h. flushed_lem c c1 h)

  -- There is room in the buffer.
  pub record Roomy (c c' : Ctx (Out S N)) : Type ℓ where
    pub sent_same : sent works c' ≡ sent works c
    pub room : length c'.world.buf_plain < buf_plain_size
    pub bb : c'.world.bb ≡ c.world.bb
    pub aborted : c'.aborted ≡ false

  pub make_room_lem : (c : Ctx (Out S N)) → c.aborted ≡ false → Done (Roomy c) (make_room io c)
  unfolding make_room
  make_room_lem c a = elim (Bool-cases (buf_plain_size - length c.world.buf_plain == 0)) [
    | inl e ↦ rw e (
        then_do-Done _ _ (pass_all_to_tls_lem c a) (λ c1 h.
          let small : length c1.world.buf_plain ≡ 0 = ap (λ (l : List ℕ). length l) h.buf_plain in
          let some_room : (buf_plain_size - length c1.world.buf_plain == 0) ≡ false =
            ground arith in
          rw some_room (
            c1,
            refl,
            record { sent_same = h.sent_same; room = omega arith; bb = h.bb; aborted = h.aborted },
          )))
    | inr e ↦
        rw e (c, refl, record { sent_same = refl; room = ground arith; bb = refl; aborted = a })
  ]
