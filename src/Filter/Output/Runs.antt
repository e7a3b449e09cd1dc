-- ===== src/Filter/Output/Runs.antt =====
-- `filter_conn_output` sends all bytes of its brigade, in order.
use mod_tls.Base.{
  ℕ, zero, suc, ◌≤◌, ◌<◌, ◌≡◌, refl, ap, sym, ◌∙◌, List, [], ◌∷◌, ◌++◌, append-nil, length, false,
  arith, is_empty, Status, success, subst,
}
use mod_tls.Brigade.{Meta, end, chunk, broken}
use mod_tls.Filter.{is_done, Ctx}
use mod_tls.Filter.Output.{Item, metadata, bytes, pipe, file, Io, Out, buf_plain_size}
use mod_tls.Filter.Output.Views.{
  Works, sent, plain_bytes, rounds, source_rounds, Readable, Done, then_do-Done,
}
use mod_tls.Filter.Output.Flushes.{make_room_lem}
use mod_tls.Filter.Output.Buckets.{
  append_known, append_first, append_plain, append_loop, filter_conn_output,
}
use mod_tls.Filter.Output.Firsts.{append_first_lem}
use mod_tls.Filter.Output.Rounds.{metadata_flushes}
use mod_tls.Filter.Output.Appends.{Fed}

rounds_positive : (b : Item) (rest : List Item) → 0 < rounds (b ∷ rest)
unfolding rounds
rounds_positive (metadata m) rest = omega arith
rounds_positive (bytes d) rest = omega arith
rounds_positive (file fd start n) rest = omega arith
rounds_positive (pipe end) rest = unfold source_rounds in omega arith
rounds_positive (pipe (broken e)) rest = unfold source_rounds in omega arith
rounds_positive (pipe (chunk x xs s)) rest = unfold source_rounds in omega arith

module _ {ℓ} {S N : Type ℓ} {io : Io S N} (works : Works io) where
  append_plain_lem :
      (b : Item) (rest : List Item) (c : Ctx (Out S N))
      → c.aborted ≡ false
      → c.world.bb ≡ b ∷ rest
      → Readable (b ∷ rest)
      → Done (Fed works (b ∷ rest) c) (append_plain io c)
  unfolding append_plain
  append_plain_lem b rest c a e r = then_do-Done _ _ (make_room_lem works c a) (λ c1 h.
      let (c2, e2, f) = append_first_lem works b rest c1 h.aborted (omega (arith, h.room)) r in
      subst (λ (l : List Item). Done (Fed works (b ∷ rest) c) (append_first io l c1))
        (sym (h.bb ∙ e))
        (
          c2,
          e2,
          record {
            sent_all =
                f.sent_all ∙ ap (λ (d : List ℕ). d ++ plain_bytes works (b ∷ rest)) h.sent_same;
            fewer = f.fewer;
            bounded = f.bounded;
            readable = f.readable;
            aborted = f.aborted;
          },
        ))

  -- With rustls, the filters below and the files as `Works` says: a round of the loop at a metadata
  -- bucket, on a connection that is not aborted, returns success; after it the buffer is empty,
  -- rustls has all bytes that were sent before the bucket and no TLS data of them is left to
  -- write, none is left in the brigade for the network, and the bucket is gone.
  pub append_plain_flushes :
      (m : Meta) (rest : List Item) (c : Ctx (Out S N))
      → c.aborted ≡ false
      → c.world.bb ≡ metadata m ∷ rest
      → Done
          (λ c'.
            (works.accepted c'.world.session ≡ sent works c)
            × (c'.world.buf_plain ≡ [])
            × (io.wants_write c'.world.session ≡ false)
            × (c'.world.tls_bb ≡ [])
            × (c'.world.bb ≡ rest))
          (append_plain io c)
  unfolding append_plain
  append_plain_flushes m rest c a e = then_do-Done _ _ (make_room_lem works c a) (λ c1 h.
      let (c2, e2, k) = metadata_flushes works m rest c1 h.aborted in
      subst
        (λ (l : List Item).
          Done
            (λ c'.
              (works.accepted c'.world.session ≡ sent works c)
              × (c'.world.buf_plain ≡ [])
              × (io.wants_write c'.world.session ≡ false)
              × (c'.world.tls_bb ≡ [])
              × (c'.world.bb ≡ rest))
            (append_first io l c1))
        (sym (h.bb ∙ e))
        (unfold append_first append_known in (c2, e2, (k.0 ∙ h.sent_same, k.1, k.2, k.3, k.4))))

  -- The loop has ended, and the brigade is empty.
  pub record Delivered (c c' : Ctx (Out S N)) : Type ℓ where
    pub sent_all : sent works c' ≡ sent works c ++ plain_bytes works c.world.bb
    pub bb : c'.world.bb ≡ []
    pub bounded : length c'.world.buf_plain ≤ buf_plain_size

  nothing_left :
      (c : Ctx (Out S N))
      → c.world.bb ≡ []
      → length c.world.buf_plain ≤ buf_plain_size
      → Delivered c c
  unfolding plain_bytes
  nothing_left c e l = record {
    sent_all = sym (ap (λ b. sent works c ++ plain_bytes works b) e ∙ append-nil (sent works c));
    bb = e;
    bounded = l;
  }

  append_loop_lem :
      (n : ℕ) (bb : List Item) (c : Ctx (Out S N))
      → c.aborted ≡ false
      → c.world.bb ≡ bb
      → rounds bb ≤ n
      → length c.world.buf_plain ≤ buf_plain_size
      → Readable bb
      → Done (Delivered c) (append_loop io n c)
  unfolding append_loop
  append_loop_lem zero [] c a e p l r =
      rw (ap (λ (l : List Item). is_empty l) e) (c, refl, nothing_left c e l)
  append_loop_lem zero (b ∷ rest) c a e p l r = absurd (omega (arith, rounds_positive b rest))
  append_loop_lem (suc n) [] c a e p l r =
      rw (ap (λ (l : List Item). is_empty l) e) (c, refl, nothing_left c e l)
  append_loop_lem (suc n) (b ∷ rest) c a e p l r = rw (ap (λ (l : List Item). is_empty l) e) (
      then_do-Done _ _ (append_plain_lem b rest c a e r) (λ c1 f.
        let (c2, e2, h) =
          append_loop_lem n c1.world.bb c1 f.aborted refl (omega (arith, f.fewer)) f.bounded
            f.readable in
        (
          c2,
          e2,
          record {
            sent_all =
                h.sent_all ∙ f.sent_all ∙ ap (λ b. sent works c ++ plain_bytes works b) (sym e);
            bb = h.bb;
            bounded = h.bounded;
          },
        )))

  started :
      (progress : Ctx (Out S N) → Ctx (Out S N) × Status) (fuel : ℕ) (c c1 : Ctx (Out S N))
      → c.aborted ≡ false
      → progress c ≡ (c1, success)
      → is_done c1.cc.state ≡ false
      → filter_conn_output io progress fuel c ≡ append_loop io fuel c1
  unfolding filter_conn_output
  started progress fuel c c1 a p d = ground arith

  -- With rustls, the filters below and the files as `Works` says, a connection that is not aborted
  -- and that a successful progress has brought to a state before TLS_CONN_ST_DONE, at most
  -- `buf_plain_size` bytes in the buffer, a brigade whose pipes do not fail, and `rounds` of it as
  -- the fuel: `filter_conn_output` returns success, no assertion fails and no loop runs on; rustls
  -- and the buffer together have what they had before, followed by the bytes of the brigade; the
  -- brigade is empty, and the buffer holds no more than its size.
  pub filter_conn_output_sends :
      (progress : Ctx (Out S N) → Ctx (Out S N) × Status) (fuel : ℕ) (c c1 : Ctx (Out S N))
      → c.aborted ≡ false
      → progress c ≡ (c1, success)
      → c1.aborted ≡ false
      → is_done c1.cc.state ≡ false
      → length c1.world.buf_plain ≤ buf_plain_size
      → Readable c1.world.bb
      → rounds c1.world.bb ≤ fuel
      → Done (Delivered c1) (filter_conn_output io progress fuel c)
  filter_conn_output_sends progress fuel c c1 a p a1 d l r f =
      let (c2, e, h) = append_loop_lem fuel c1.world.bb c1 a1 refl f l r in
      (c2, started progress fuel c c1 a p d ∙ e, h)
