-- ===== src/Filter/Output/Firsts.antt =====
-- `fout_append_plain` for a file bucket, and for a first bucket of any kind.
use mod_tls.Base.{
  no_elements, ℕ, ◌+◌, ◌-◌, ◌≤◌, ◌<◌, ◌≡◌, refl, ap, sym, ◌∙◌, List, [], ◌∷◌, ◌++◌, append_assoc,
  length, false, ltb, if◌then◌else◌, inl, inr, arith, Bool-cases, ◌==◌, ◌||◌,
}
use mod_tls.Brigade.{end, chunk, broken}
use mod_tls.Filter.{Ctx}
use mod_tls.Filter.Output.{
  Item, metadata, bytes, pipe, file, Io, Out, with_bb, buf_plain_size, file_chunk_size,
}
use mod_tls.Filter.Output.Views.{
  Works, sent, plain_bytes, source_bytes, rounds, source_rounds, Readable, Unbroken, Done,
}
use mod_tls.Filter.Output.Buckets.{write_file, write_read, append_known, append_first}
use mod_tls.Filter.Output.Splits.{
  part_split, file_behind, file_behind_plain, file_behind_rounds, file_behind-Readable,
}
use mod_tls.Filter.Output.Rounds.{metadata_lem, known_bytes_lem, plain_file_lem}
use mod_tls.Filter.Output.Appends.{Fed, dropped, wrote}

module _ {ℓ} {S N : Type ℓ} {io : Io S N} (works : Works io) where
  no_part : (fd start len : ℕ) → len ≡ 0 → works.part fd start len ≡ []
  no_part fd start len e =
      no_elements (works.part fd start len) (works.part_length fd start len ∙ e)

  write_file_lem :
      (fd start n len : ℕ) (rest behind : List Item) (c : Ctx (Out S N))
      → c.aborted ≡ false
      → c.world.buf_plain ≡ []
      → works.part fd start n ++ plain_bytes works behind
        ≡ plain_bytes works (file fd start len ∷ rest)
      → rounds behind < rounds (file fd start len ∷ rest)
      → Readable behind
      → Done
          (Fed works (file fd start len ∷ rest) c)
          (write_file io fd start n behind (io.file_seek fd start) c)
  unfolding write_file
  write_file_lem fd start n len rest behind c a empty e f r =
      rw (works.seek_ok fd start, write_file, works.file_read_ok fd start n)
        (wrote works (file fd start len ∷ rest) behind (works.part fd start n) c a empty e f r
          (with_bb c (file fd start n ∷ behind)) refl refl refl)

  write_read_lem :
      (fd start n len : ℕ) (rest behind : List Item) (c : Ctx (Out S N))
      → c.aborted ≡ false
      → c.world.buf_plain ≡ []
      → 0 < n
      → works.part fd start n ++ plain_bytes works behind
        ≡ plain_bytes works (file fd start len ∷ rest)
      → rounds behind + (n + n) ≤ rounds (file fd start len ∷ rest)
      → Readable behind
      → Done
          (Fed works (file fd start len ∷ rest) c)
          (write_read io fd start n behind (io.bucket_read fd start n) c)
  unfolding write_read
  write_read_lem fd start n len rest behind c a empty pos e f r =
      let k = works.bucket_read_taken fd start n in
      let k_pos = works.bucket_read_positive fd start n pos in
      let k_le = works.bucket_read_le fd start n in
      let d = works.part fd start k in
      let left = file_behind works fd start k n behind in
      rw (works.bucket_read_ok fd start n, write_read, works.part_length fd start k)
        (wrote works (file fd start len ∷ rest) left d c a empty
          (file_behind_plain works fd start k n behind k_le ∙ e)
          (omega (arith, file_behind_rounds works fd start k n behind))
          (file_behind-Readable works fd start k n behind r) (with_bb c (bytes d ∷ left)) refl refl
          refl)

  -- A chunk, in either way.
  chunk_lem :
      (fd start n len : ℕ) (rest behind : List Item) (c : Ctx (Out S N))
      → c.aborted ≡ false
      → c.world.buf_plain ≡ []
      → 0 < n
      → works.part fd start n ++ plain_bytes works behind
        ≡ plain_bytes works (file fd start len ∷ rest)
      → rounds behind + (n + n) ≤ rounds (file fd start len ∷ rest)
      → Readable behind
      → Done (Fed works (file fd start len ∷ rest) c) (
          if io.malloc n
          then write_file io fd start n behind (io.file_seek fd start) c
          else write_read io fd start n behind (io.bucket_read fd start n) c)
  chunk_lem fd start n len rest behind c a empty pos e f r = elim (Bool-cases (io.malloc n)) [
    | inl m ↦ rw m (write_file_lem fd start n len rest behind c a empty e (omega arith) r)
    | inr m ↦ rw m (write_read_lem fd start n len rest behind c a empty pos e f r)
  ]

  known_file_lem :
      (fd start len : ℕ) (rest : List Item) (c : Ctx (Out S N))
      → c.aborted ≡ false
      → length c.world.buf_plain ≤ buf_plain_size
      → Readable rest
      → Done (Fed works (file fd start len ∷ rest) c) (append_known io (file fd start len ∷ rest) c)
  unfolding append_known plain_bytes rounds Readable
  known_file_lem fd start len rest c a l r = elim (Bool-cases (len == 0)) [
    | inl z ↦ rw z (
      with_bb c rest,
      refl,
      dropped works rest (file fd start len) c
          (ap (λ (d : List ℕ). d ++ plain_bytes works rest) (no_part fd start len (ground arith)))
          (omega arith) l r a,
    )
    | inr nz ↦ rw nz (elim (Bool-cases (ltb len 1024 || ltb 0 (length c.world.buf_plain))) [
      | inl e ↦ rw e (plain_file_lem works fd start len rest c a (ground arith) r)
      | inr e ↦ rw e (
          let empty : c.world.buf_plain ≡ [] = no_elements c.world.buf_plain (ground arith) in
          elim (Bool-cases (ltb file_chunk_size len)) [
            | inl big ↦ rw big (
                chunk_lem fd start file_chunk_size len rest
                  (file fd (start + file_chunk_size) (len - file_chunk_size) ∷ rest) c a empty
                  (omega arith)
                  (part_split works fd start file_chunk_size len (plain_bytes works rest)
                    (ground arith))
                  (ground arith) r)
            | inr small ↦
                rw small (
                  chunk_lem fd start len len rest rest c a empty (ground arith) refl (omega arith)
                    r)
          ])
    ])
  ]

  pub append_first_lem :
      (b : Item) (rest : List Item) (c : Ctx (Out S N))
      → c.aborted ≡ false
      → length c.world.buf_plain ≤ buf_plain_size
      → Readable (b ∷ rest)
      → Done (Fed works (b ∷ rest) c) (append_first io (b ∷ rest) c)
  unfolding append_first Readable Unbroken
  append_first_lem (metadata m) rest c a l r =
      unfold append_known in metadata_lem works m rest c a r
  append_first_lem (bytes d) rest c a l r = known_bytes_lem works d rest c a l r
  append_first_lem (file fd start n) rest c a l r = known_file_lem fd start n rest c a l r
  append_first_lem (pipe end) rest c a l r =
      unfold plain_bytes source_bytes rounds source_rounds in
      (with_bb c rest, refl, dropped works rest (pipe end) c refl (omega arith) l r.1 a)
  append_first_lem (pipe (broken e)) rest c a l r = absurd r.0
  append_first_lem (pipe (chunk x xs s)) rest c a l r =
      let read = bytes (x ∷ xs) ∷ pipe s ∷ rest in
      let (c1, e, h) = known_bytes_lem works (x ∷ xs) (pipe s ∷ rest) (with_bb c read) a l r in
      (
        c1,
        e,
        record {
          sent_all =
              h.sent_all
              ∙ ap (λ (d : List ℕ). sent works c ++ d)
                  (unfold plain_bytes source_bytes in
                    sym (append_assoc (x ∷ xs) (source_bytes s) (plain_bytes works rest)));
          fewer = unfold rounds source_rounds in omega (arith, h.fewer);
          bounded = h.bounded;
          readable = h.readable;
          aborted = h.aborted;
        },
      )
