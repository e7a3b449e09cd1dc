-- ===== src/Filter/Output/Sends.antt =====
-- The loops that pass the buffer to rustls and the TLS data on.
use mod_tls.Base.{
  if◌then◌else◌, ltb, ◌==◌, length-drop, subst, drop, take, take-append-drop, ◌∷◌, length, Bool,
  zero, suc, Bool-cases, ◌+◌, Status, inl, inr, suc, map, ◌≤◌, Status, true, ℕ, ◌≡◌, refl, ap, sym,
  ◌∙◌, List, [], ◌++◌, append_assoc, append-nil, success, false, arith,
}
use mod_tls.Brigade
use mod_tls.Brigade.{flush}
use mod_tls.Filter.{Ctx}
use mod_tls.Filter.Output.{
  pass_buf_to_rustls, max_in_rustls, returned, after_write, pass_rustls_to_tls, write_loop,
  with_world, with_session, write_tls_loop, total, tls_write_vectored_callback, Io, Out,
  pass_tls_to_net,
}
use mod_tls.Filter.Output.Views.{then_do-Done, Done, Works}

module _ {ℓ} {S N : Type ℓ} {io : Io S N} (works : Works io) where
  -- `c'` differs from `c` in nothing that the plain bytes depend on, but rustls has `d` more.
  pub record Took (d : List ℕ) (c c' : Ctx (Out S N)) : Type ℓ where
    pub accepted : works.accepted c'.world.session ≡ works.accepted c.world.session ++ d
    pub buf_plain : c'.world.buf_plain ≡ c.world.buf_plain
    pub bb : c'.world.bb ≡ c.world.bb
    pub aborted : c'.aborted ≡ c.aborted

  Took-nothing : (c : Ctx (Out S N)) → Took [] c c
  Took-nothing c = record {
    accepted = sym (append-nil (works.accepted c.world.session));
    buf_plain = refl;
    bb = refl;
    aborted = refl;
  }

  Took-more :
      (d e : List ℕ) (c c' c'' : Ctx (Out S N)) → Took d c c' → Took e c' c'' → Took (d ++ e) c c''
  Took-more d e c c' c'' h k = record {
    accepted =
        k.accepted
        ∙ ap (λ (l : List ℕ). l ++ e) h.accepted
        ∙ append_assoc (works.accepted c.world.session) d e;
    buf_plain = k.buf_plain ∙ h.buf_plain;
    bb = k.bb ∙ h.bb;
    aborted = k.aborted ∙ h.aborted;
  }

  pub pass_tls_to_net_lem :
      (c : Ctx (Out S N))
      → c.aborted ≡ false
      → (pass_tls_to_net io c).1 ≡ success
        × ((pass_tls_to_net io c).0.world.session ≡ c.world.session)
        × ((pass_tls_to_net io c).0.world.buf_plain ≡ c.world.buf_plain)
        × ((pass_tls_to_net io c).0.world.bb ≡ c.world.bb)
        × ((pass_tls_to_net io c).0.aborted ≡ false)
        × ((pass_tls_to_net io c).0.world.tls_bb ≡ [])
  unfolding pass_tls_to_net
  pass_tls_to_net_lem c h = ground (arith, works.pass_ok c.world.net c.world.tls_bb)

  -- The session after a round of the loop, and the state.
  abbrev sess : Ctx (Out S N) → S
  sess c = (io.wrote c.world.session success (total (io.slices c.world.session))).0

  -- Nothing is left in rustls.
  pub record Drained (d : List ℕ) (c c' : Ctx (Out S N)) : Type ℓ where
    pub took : Took d c c'
    pub quiet : io.wants_write c'.world.session ≡ false

  called_lem :
      (c : Ctx (Out S N))
      → c.aborted ≡ false
      → (r : Ctx (Out S N) × Status)
      → r ≡ tls_write_vectored_callback io (io.slices c.world.session) c
      → (r.1 ≡ success)
        × (r.0.world.session ≡ c.world.session)
        × Took [] c (with_session r.0 (sess c))
  unfolding tls_write_vectored_callback
  called_lem c a r e =
      let k =
        pass_tls_to_net_lem
          (with_world c record c.world {
            tls_bb = c.world.tls_bb ++ map Brigade.bytes (io.slices c.world.session);
            bytes_in_tls_bb = c.world.bytes_in_tls_bb + total (io.slices c.world.session);
          })
          a in
      (
        ap (λ (x : Ctx (Out S N) × Status). x.1) e ∙ k.0,
        ap (λ (x : Ctx (Out S N) × Status). x.0.world.session) e ∙ k.1,
        record {
          accepted =
              works.wrote_accepts c.world.session
              ∙ sym (append-nil (works.accepted c.world.session));
          buf_plain = ap (λ (x : Ctx (Out S N) × Status). x.0.world.buf_plain) e ∙ k.2;
          bb = ap (λ (x : Ctx (Out S N) × Status). x.0.world.bb) e ∙ k.3;
          aborted = ap (λ (x : Ctx (Out S N) × Status). x.0.aborted) e ∙ k.4 ∙ sym a;
        },
      )

  write_tls_loop_lem :
      (n : ℕ) (c : Ctx (Out S N))
      → c.aborted ≡ false
      → io.wants_write c.world.session ≡ true
      → works.pending c.world.session ≤ n
      → Done (Drained [] c) (write_tls_loop io n c)
  unfolding write_tls_loop
  write_tls_loop_lem zero c a w p = absurd (omega (arith, works.pending_positive c.world.session w))
  write_tls_loop_lem (suc n) c a w p =
      let r = tls_write_vectored_callback io (io.slices c.world.session) c in
      let k = called_lem c a r refl in
      rw (k.0, k.1, works.wrote_ok c.world.session)
        (elim (Bool-cases (io.wants_write (sess c))) [
          | inl more ↦ rw more (
              let (c', e, q) =
                write_tls_loop_lem n (with_session r.0 (sess c)) (k.2.aborted ∙ a) more
                  (omega (arith, works.wrote_pending c.world.session w)) in
              (
                c',
                e,
                record {
                  took = Took-more [] [] c (with_session r.0 (sess c)) c' k.2 q.took;
                  quiet = q.quiet;
                },
              ))
          | inr none ↦
              rw none (with_session r.0 (sess c), refl, record { took = k.2; quiet = none })
        ])

  pub pass_rustls_to_tls_lem :
      (c : Ctx (Out S N)) → c.aborted ≡ false → Done (Drained [] c) (pass_rustls_to_tls io c)
  unfolding pass_rustls_to_tls
  pass_rustls_to_tls_lem c a = elim (Bool-cases (io.wants_write c.world.session)) [
    | inl w ↦ rw w (write_tls_loop_lem io.rounds c a w (works.pending_bound c.world.session))
    | inr q ↦ rw q (c, refl, record { took = Took-nothing c; quiet = q })
  ]

  -- The optional flush before a write.
  before_write_lem :
      (b : Bool) (c : Ctx (Out S N))
      → c.aborted ≡ false
      → Done (Took [] c) (if b then pass_rustls_to_tls io c else returned c success)
  before_write_lem true c a = let (c', e, q) = pass_rustls_to_tls_lem c a in (c', e, q.took)
  before_write_lem false c a = (c, refl, Took-nothing c)

  write_loop_lem :
      (n : ℕ) (buf : List ℕ) (c : Ctx (Out S N))
      → c.aborted ≡ false
      → length buf ≤ n
      → Done (Took buf c) (write_loop io n buf c)
  unfolding write_loop after_write
  write_loop_lem n [] c a p = (c, refl, Took-nothing c)
  write_loop_lem zero (x ∷ buf) c a p = absurd (omega arith)
  write_loop_lem (suc n) (x ∷ buf) c a p =
      then_do-Done _ _
        (before_write_lem (ltb max_in_rustls (c.world.bytes_in_rustls + suc (length buf))) c a)
        (λ c' t.
          let d = x ∷ buf in
          let s = c'.world.session in
          let k = works.write_taken s d in
          let le = works.write_le s d in
          let pos = works.write_positive s x buf in
          let c2 = with_world c' record c'.world {
            session = (io.write s d).0;
            bytes_in_rustls = c'.world.bytes_in_rustls + k;
          } in
          let t2 : Took (take k d) c' c2 = record {
            accepted = works.write_accepts s d;
            buf_plain = refl;
            bb = refl;
            aborted = refl;
          } in
          let (c3, e, t3) =
            write_loop_lem n (drop k d) c2 (t.aborted ∙ a) (omega (arith, length-drop k d)) in
          let fits : ltb (length d) k ≡ false = ground arith in
          let some_taken : (k == 0) ≡ false = ground arith in
          rw (works.write_ok s d, fits, some_taken)
            (
              c3,
              e,
              subst (λ (l : List ℕ). Took l c c3) (take-append-drop k d)
                  (Took-more [] (take k d ++ drop k d) c c' c3 t
                    (Took-more (take k d) (drop k d) c' c2 c3 t2 t3)),
            ))

  pub pass_buf_to_rustls_lem :
      (buf : List ℕ) (c : Ctx (Out S N))
      → c.aborted ≡ false
      → Done (Took buf c) (pass_buf_to_rustls io buf c)
  unfolding pass_buf_to_rustls
  pass_buf_to_rustls_lem buf c a = write_loop_lem (length buf) buf c a (omega arith)
