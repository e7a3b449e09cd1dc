-- ===== src/Filter/Input/Rounds.antt =====
-- The loop of `read_tls_to_rustls`: it ends, and while the data is buffered for a replay, what is
-- buffered and what is unread are together what they were.
use mod_tls.Base.{
  eof, subst, ℕ, zero, suc, ◌+◌, ◌≤◌, ◌<◌, ◌≡◌, refl, ap, sym, ◌∙◌, List, [], ◌∷◌, ◌++◌,
  append_assoc, ltb, leb, length, length-take, take, drop, if◌then◌else◌, Status, success, failed,
  arith, Bool-cases, Status-cases, inl, inr,
}
use mod_tls.Brigade.{eos, flush, eoc, other, end, chunk, broken, Bucket, metadata, bytes, pipe}
use mod_tls.Filter.{Ctx}
use mod_tls.Filter.Input.Reads.{
  bytes_of, source_bytes, NoEos, Step, Kept, Ends, Ends-map, Kept-from, skipped, behind_plain,
  behind_load, behind-NoEos,
}
use mod_tls.Filter.Input.{
  In, InIo, Loop, feed, read_round, read_loop, load, with_bb, is_eof, emptied, buffer_more,
}

module _ {ℓ} {S N X : Type ℓ} (io : InIo S N) where
  -- The loop from the next round on does its work, if the load fits.
  abbrev Works : ℕ → (Status → ℕ → Ctx (In S N X) → Loop (In S N X)) → Type ℓ
  Works n next =
      (rv : Status) (passed : ℕ) (c : Ctx (In S N X))
      → load c.world.tls_bb < n
      → Ends (Kept c.world.tls_bb c) (next rv passed c)

  feed_lem :
      (n : ℕ) (next : Status → ℕ → Ctx (In S N X) → Loop (In S N X)) (x : ℕ) (d : List ℕ)
      (rest bb : List Bucket) (passed : ℕ) (c : Ctx (In S N X))
      → ((s : S) → 0 < io.read_size s)
      → Works n next
      → suc (suc (length d) + load rest) ≤ n
      → (NoEos bb → NoEos rest)
      → bytes_of bb ≡ (x ∷ d) ++ bytes_of rest
      → Ends (Kept bb c) (feed io next (x ∷ d) rest passed c)
  unfolding feed bytes_of NoEos
  feed_lem n next x d rest bb passed c pos works l r e =
      let w = c.world in
      let k =
        if ltb (io.read_size w.session) (suc (length d))
        then io.read_size w.session
        else suc (length d) in
      let given = take k (x ∷ d) in
      let k_le : k ≤ suc (length d) = ground arith in
      let k_pos : 0 < k = ground (arith, pos w.session) in
      let len : length given ≡ k = length-take k (x ∷ d) k_le in
      elim (Status-cases (io.read w.session given).1) [
        | inl ok ↦
            rw (feed, ok)
              (let behind =
                  if leb (suc (length d)) k then rest else bytes (drop k (x ∷ d)) ∷ rest in
                let c2 = record c {
                  world = record w {
                    session = (io.read w.session given).0;
                    tls_bb = behind;
                    tls_buffer_bb = buffer_more given w.tls_buffer_bb;
                    bytes_in_rustls = w.bytes_in_rustls + suc (length d);
                  };
                } in
                let taken : Step bb c c2 = record {
                  same = λ buffer eb. (
                    buffer ++ given,
                    ap (λ b. buffer_more given b) eb,
                    append_assoc buffer given (bytes_of behind)
                        ∙ ap (λ (l : List ℕ). buffer ++ l) (behind_plain (x ∷ d) k rest ∙ sym e),
                  );
                  no_eos = λ n0. behind-NoEos (leb (suc (length d)) k) (drop k (x ∷ d)) rest (r n0);
                  net = refl;
                  conn = refl;
                } in
                rw len (
                  Ends-map (Kept-from bb behind c c2 taken refl)
                    (works success (passed + k) c2 (omega (arith, behind_load x d k rest k_pos)))))
        | inr (err, bad) ↦
            rw (feed, bad)
              (
                record c {
                  world = record w {
                    session = (io.read w.session given).0;
                    tls_bb = bytes (x ∷ d) ∷ rest;
                  };
                },
                failed err,
                passed,
                inl refl,
                record {
                  kept = inl (λ buffer eb. (buffer, eb, ap (λ (l : List ℕ). buffer ++ l) (sym e)));
                  no_eos = r;
                  net = refl;
                  conn = refl;
                },
              )
      ]

  unchanged : (bb : List Bucket) (c : Ctx (In S N X)) → c.world.tls_bb ≡ bb → Kept bb c c
  unchanged bb c e = record {
    kept = inl (λ buffer eb. (buffer, eb, ap (λ l. buffer ++ bytes_of l) e));
    no_eos = λ n. subst NoEos (sym e) n;
    net = refl;
    conn = refl;
  }

  skip_lem :
      (n : ℕ) (next : Status → ℕ → Ctx (In S N X) → Loop (In S N X)) (b : Bucket) (bb : List Bucket)
      (rv : Status) (passed : ℕ) (c : Ctx (In S N X))
      → Works n next
      → load bb < n
      → bytes_of (b ∷ bb) ≡ bytes_of bb
      → (NoEos (b ∷ bb) → NoEos bb)
      → Ends (Kept (b ∷ bb) c) (next rv passed (with_bb c bb))
  skip_lem n next b bb rv passed c works l e r =
      Ends-map (Kept-from (b ∷ bb) bb c (with_bb c bb) (skipped b bb c e r) refl)
        (works rv passed (with_bb c bb) l)

  read_round_lem :
      (n : ℕ) (next : Status → ℕ → Ctx (In S N X) → Loop (In S N X)) (bb : List Bucket)
      (rv : Status) (passed : ℕ) (c : Ctx (In S N X))
      → ((s : S) → 0 < io.read_size s)
      → Works n next
      → load bb ≤ n
      → c.world.tls_bb ≡ bb
      → Ends (Kept bb c) (read_round io next bb rv passed c)
  unfolding read_round bytes_of source_bytes NoEos
  read_round_lem n next [] rv passed c pos works l e = (c, rv, passed, inr refl, unchanged [] c e)
  read_round_lem n next (metadata eos ∷ bb) rv passed c pos works l e = (
    record c { world = record c.world { tls_buffer_bb = emptied c.world.tls_buffer_bb } },
    failed eof,
    passed,
    inl refl,
    record {
      kept = inr ((bb, e), λ b eb. ap (λ o. emptied o) eb);
      no_eos = λ n0. absurd n0;
      net = refl;
      conn = refl;
    },
  )
  read_round_lem n next (metadata flush ∷ bb) rv passed c pos works l e =
      skip_lem n next (metadata flush) bb success passed c works (omega arith) refl (λ n0. n0)
  read_round_lem n next (metadata eoc ∷ bb) rv passed c pos works l e =
      skip_lem n next (metadata eoc) bb success passed c works (omega arith) refl (λ n0. n0)
  read_round_lem n next (metadata (other m) ∷ bb) rv passed c pos works l e =
      skip_lem n next (metadata (other m)) bb success passed c works (omega arith) refl (λ n0. n0)
  read_round_lem n next (pipe end ∷ bb) rv passed c pos works l e =
      skip_lem n next (pipe end) bb success passed c works (omega arith) refl (λ n0. n0)
  read_round_lem n next (pipe (broken err) ∷ bb) rv passed c pos works l e =
      elim (Bool-cases (is_eof err)) [
        | inl t ↦
            rw (read_round, t)
              (skip_lem n next (pipe (broken err)) bb (failed err) passed c works (omega arith) refl
                (λ n0. n0))
        | inr t ↦
            rw (read_round, t)
              (c, failed err, passed, inl refl, unchanged (pipe (broken err) ∷ bb) c e)
      ]
  read_round_lem n next (pipe (chunk x xs s) ∷ bb) rv passed c pos works l e =
      feed_lem n next x xs (pipe s ∷ bb) (pipe (chunk x xs s) ∷ bb) passed c pos works (omega arith)
        (λ n0. n0) (append_assoc (x ∷ xs) (source_bytes s) (bytes_of bb))
  read_round_lem n next (bytes [] ∷ bb) rv passed c pos works l e =
      skip_lem n next (bytes []) bb success passed c works (omega arith) refl (λ n0. n0)
  read_round_lem n next (bytes (x ∷ d) ∷ bb) rv passed c pos works l e =
      feed_lem n next x d bb (bytes (x ∷ d) ∷ bb) passed c pos works (omega arith) (λ n0. n0) refl

  pub read_loop_lem :
      (n len : ℕ) (rv : Status) (passed : ℕ) (c : Ctx (In S N X))
      → ((s : S) → 0 < io.read_size s)
      → load c.world.tls_bb < n
      → Ends (Kept c.world.tls_bb c) (read_loop io n len rv passed c)
  unfolding read_loop
  read_loop_lem zero len rv passed c pos l = absurd (omega arith)
  read_loop_lem (suc n) len rv passed c pos l = elim (Bool-cases (ltb passed len)) [
    | inl t ↦
        rw (read_loop, t)
          (read_round_lem n (read_loop io n len) c.world.tls_bb rv passed c pos
            (λ rv' passed' c' l'. read_loop_lem n len rv' passed' c' pos l') (omega arith) refl)
    | inr t ↦ rw (read_loop, t) (c, rv, passed, inr refl, unchanged c.world.tls_bb c refl)
  ]
