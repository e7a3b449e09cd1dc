-- ===== src/Filter/Output/Rounds.antt =====
-- One round of the loop of `filter_conn_output`, for each kind of bucket.
use mod_tls.Base.{
  no_elements, sym, length-take-le, ℕ, suc, ◌+◌, ◌-◌, ◌≤◌, ◌<◌, ◌≡◌, refl, ap, ◌∙◌, List, [], ◌∷◌,
  ◌++◌, append-nil, length, take, true, false, ltb, inl, inr, arith, Bool-cases, ◌==◌, ◌||◌,
}
use mod_tls.Brigade
use mod_tls.Brigade.{Meta, eoc, Source, end, chunk, broken}
use mod_tls.Conn.{notified}
use mod_tls.Filter.{Ctx, set_state}
use mod_tls.Filter.Output.{
  Item, metadata, bytes, file, Io, Out, with_world, with_bb, with_session, buf_plain_size,
  file_chunk_size,
}
use mod_tls.Filter.Output.Views.{Works, sent, plain_bytes, rounds, Readable, Done, then_do-Done}
use mod_tls.Filter.Output.Sends.{pass_rustls_to_tls_lem}
use mod_tls.Filter.Output.Flushes.{pass_all_to_tls_lem, pass_all_to_net_lem, Roomy, make_room_lem}
use mod_tls.Filter.Output.Buckets.{
  store, is_eoc, add_file, add_bucket_to_plain, add_bucket_to_tls, then_flush, append_known,
}
use mod_tls.Filter.Output.Splits.{
  bytes_behind, bytes_behind_plain, bytes_behind_fewer, bytes_behind-Readable, file_behind,
  file_behind_plain, part_split, file_behind_rounds, file_behind-Readable,
}
use mod_tls.Filter.Output.Appends.{Fed, dropped, stored, wrote}

module _ {ℓ} {S N : Type ℓ} {io : Io S N} (works : Works io) where
  -- A metadata bucket is on its way to the network, and all before it with rustls.
  record Moved (rest : List Item) (c c' : Ctx (Out S N)) : Type ℓ where
    sent_same : sent works c' ≡ sent works c
    bb : c'.world.bb ≡ rest
    aborted : c'.aborted ≡ false

  add_bucket_to_tls_lem :
      (m : Meta) (rest : List Item) (c : Ctx (Out S N))
      → c.aborted ≡ false
      → Done (Moved rest c) (add_bucket_to_tls io m rest c)
  unfolding add_bucket_to_tls
  add_bucket_to_tls_lem m rest c a = then_do-Done _ _ (pass_all_to_tls_lem works c a) (λ c1 h.
      let moved =
        with_world c1
          record c1.world { tls_bb = c1.world.tls_bb ++ Brigade.metadata m ∷ []; bb = rest } in
      elim (Bool-cases (is_eoc m)) [
        | inl e ↦ rw e (
            let closed =
              set_state notified (with_session moved (io.send_close_notify moved.world.session)) in
            let (c2, e2, q) = pass_rustls_to_tls_lem works closed h.aborted in
            (
              c2,
              e2,
              record {
                sent_same =
                    ap (λ (l : List ℕ). works.accepted c2.world.session ++ l) q.took.buf_plain
                    ∙ ap (λ (l : List ℕ). l ++ c1.world.buf_plain)
                        (q.took.accepted
                          ∙ append-nil (works.accepted closed.world.session)
                          ∙ works.close_accepts c1.world.session)
                    ∙ h.sent_same;
                bb = q.took.bb;
                aborted = q.took.aborted ∙ h.aborted;
              },
            ))
        | inr e ↦
            rw e (moved, refl, record { sent_same = h.sent_same; bb = refl; aborted = h.aborted })
      ])

  pub metadata_lem :
      (m : Meta) (rest : List Item) (c : Ctx (Out S N))
      → c.aborted ≡ false
      → Readable rest
      → Done (Fed works (metadata m ∷ rest) c) (then_flush io (add_bucket_to_tls io m rest c))
  unfolding then_flush rounds plain_bytes
  metadata_lem m rest c a r =
      let (c1, e1, h1) = add_bucket_to_tls_lem m rest c a in
      let (c2, e2, h2) = pass_all_to_net_lem works true c1 h1.aborted in
      let behind : c2.world.bb ≡ rest = h2.emptied.bb ∙ h1.bb in
      rw e1 (
        c2,
        e2,
        record {
          sent_all = rw (behind, h2.emptied.sent_same, h1.sent_same) refl;
          fewer = rw behind (omega arith);
          bounded = rw h2.emptied.buf_plain (omega arith);
          readable = rw behind r;
          aborted = h2.emptied.aborted;
        },
      )

  pub metadata_flushes :
      (m : Meta) (rest : List Item) (c : Ctx (Out S N))
      → c.aborted ≡ false
      → Done
          (λ c'.
            (works.accepted c'.world.session ≡ sent works c)
            × (c'.world.buf_plain ≡ [])
            × (io.wants_write c'.world.session ≡ false)
            × (c'.world.tls_bb ≡ [])
            × (c'.world.bb ≡ rest))
          (then_flush io (add_bucket_to_tls io m rest c))
  unfolding then_flush
  metadata_flushes m rest c a =
      let (c1, e1, h1) = add_bucket_to_tls_lem m rest c a in
      let (c2, e2, h2) = pass_all_to_net_lem works true c1 h1.aborted in
      let empty = h2.emptied.buf_plain in
      rw e1 (
        c2,
        e2,
        (
          sym (
                ap (λ (l : List ℕ). works.accepted c2.world.session ++ l) empty
                ∙ append-nil (works.accepted c2.world.session))
              ∙ h2.emptied.sent_same
              ∙ h1.sent_same,
          empty,
          h2.emptied.quiet,
          h2.tls_bb,
          h2.emptied.bb ∙ h1.bb,
        ),
      )

  plain_bytes_lem :
      (x : ℕ) (d : List ℕ) (rest : List Item) (c : Ctx (Out S N))
      → c.aborted ≡ false
      → Readable rest
      → Done (Fed works (bytes (x ∷ d) ∷ rest) c) (add_bucket_to_plain io (bytes (x ∷ d) ∷ rest) c)
  unfolding add_bucket_to_plain plain_bytes
  plain_bytes_lem x d rest c a r = then_do-Done _ _ (make_room_lem works c a) (λ c1 h.
      let n = buf_plain_size - length c1.world.buf_plain in
      let positive : 0 < n = omega (arith, h.room) in
      (
        store (take n (x ∷ d)) (bytes_behind works n (x ∷ d) rest) c1,
        refl,
        stored works (bytes (x ∷ d) ∷ rest) (bytes_behind works n (x ∷ d) rest) (take n (x ∷ d)) c
            c1 h (bytes_behind_plain works n (x ∷ d) rest)
            (bytes_behind_fewer works n x d rest positive)
            (omega (arith, h.room, length-take-le n (x ∷ d)))
            (bytes_behind-Readable works n (x ∷ d) rest r),
      ))

  add_file_lem :
      (fd start n remain : ℕ) (bb behind : List Item) (c c' : Ctx (Out S N))
      → Roomy works c c'
      → 0 < n
      → n ≤ remain
      → length c'.world.buf_plain + remain ≤ buf_plain_size
      → works.part fd start n ++ plain_bytes works behind ≡ plain_bytes works bb
      → rounds behind + (n + n) ≤ rounds bb
      → Readable behind
      → Done (Fed works bb c) (add_file io fd start n behind (io.bucket_read fd start n) remain c')
  unfolding add_file
  add_file_lem fd start n remain bb behind c c' h pos fits room e f r =
      let k = works.bucket_read_taken fd start n in
      let k_pos = works.bucket_read_positive fd start n pos in
      let k_le = works.bucket_read_le fd start n in
      let len = works.part_length fd start k in
      let no_assertion : ltb remain k ≡ false = ground arith in
      rw (works.bucket_read_ok fd start n, len, no_assertion)
        (
          store (works.part fd start k) (file_behind works fd start k n behind) c',
          refl,
          stored works bb (file_behind works fd start k n behind) (works.part fd start k) c c' h
              (file_behind_plain works fd start k n behind k_le ∙ e)
              (omega (arith, file_behind_rounds works fd start k n behind)) (omega arith)
              (file_behind-Readable works fd start k n behind r),
        )

  pub plain_file_lem :
      (fd start len : ℕ) (rest : List Item) (c : Ctx (Out S N))
      → c.aborted ≡ false
      → 0 < len
      → Readable rest
      → Done
          (Fed works (file fd start len ∷ rest) c)
          (add_bucket_to_plain io (file fd start len ∷ rest) c)
  unfolding add_bucket_to_plain plain_bytes rounds Readable
  plain_file_lem fd start len rest c a p r =
      let some_length : (len == 0) ≡ false = ground arith in
      rw some_length (
        then_do-Done _ _ (make_room_lem works c a) (λ c1 h.
          let n = buf_plain_size - length c1.world.buf_plain in
          let positive : 0 < n = omega (arith, h.room) in
          elim (Bool-cases (ltb n len)) [
            | inl e ↦ rw e (
                add_file_lem fd start n n (file fd start len ∷ rest)
                  (file fd (start + n) (len - n) ∷ rest) c c1 h positive (omega arith)
                  (omega (arith, h.room))
                  (part_split works fd start n len (plain_bytes works rest) (ground arith))
                  (ground arith) r)
            | inr e ↦ rw e (
                add_file_lem fd start len n (file fd start len ∷ rest) rest c c1 h p (ground arith)
                  (omega (arith, h.room)) refl (omega arith) r)
          ]))

  pub known_bytes_lem :
      (d : List ℕ) (rest : List Item) (c : Ctx (Out S N))
      → c.aborted ≡ false
      → length c.world.buf_plain ≤ buf_plain_size
      → Readable rest
      → Done (Fed works (bytes d ∷ rest) c) (append_known io (bytes d ∷ rest) c)
  unfolding append_known
  known_bytes_lem [] rest c a l r =
      unfold plain_bytes rounds in
      (with_bb c rest, refl, dropped works rest (bytes []) c refl (omega arith) l r a)
  known_bytes_lem (x ∷ d) rest c a l r =
      elim (Bool-cases (ltb (suc (length d)) 1024 || ltb 0 (length c.world.buf_plain))) [
        | inl e ↦ rw e (plain_bytes_lem x d rest c a r)
        | inr e ↦ rw e (
            let behind = bytes_behind works file_chunk_size (x ∷ d) rest in
            let empty : c.world.buf_plain ≡ [] = no_elements c.world.buf_plain (ground arith) in
            wrote works (bytes (x ∷ d) ∷ rest) behind (take file_chunk_size (x ∷ d)) c a empty
              (unfold plain_bytes in bytes_behind_plain works file_chunk_size (x ∷ d) rest)
              (bytes_behind_fewer works file_chunk_size x d rest (omega arith))
              (bytes_behind-Readable works file_chunk_size (x ∷ d) rest r)
              (with_bb c (bytes (take file_chunk_size (x ∷ d)) ∷ behind)) refl refl refl)
      ]
