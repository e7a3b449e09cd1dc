-- ===== src/Brigade/Transfer.antt =====
-- `tls_util_brigade_transfer` moves a prefix of the source, in order, of the length asked for.
use mod_tls.Base.{
  false, is_success, Status, failed, refl, inl, inr, Failure, ℕ, zero, suc, failed, ◌+◌, ◌-◌, ◌≤◌,
  ◌<◌, ◌≡◌, refl, ap, ◌∙◌, ◌⊎◌, inl, inr, List, [], ◌∷◌, ◌++◌, length, arith, Status, take, drop,
  success, ltb, ◌==◌, Bool-cases,
}
use mod_tls.Brigade.{
  Meta, Source, end, chunk, broken, Bucket, metadata, bytes, pipe, Moved, transfer_pipe,
  transfer_loop, transfer,
}
use mod_tls.Brigade.Contents.{
  bucket_atoms, contents, size, size-append, contents_move, contents_split, contents_read,
}

-- What a loop that starts with `dest`, `src`, `remain` and `n` may end in.
record Outcome (dest src : List Bucket) (remain n : ℕ) (r : Moved) : Type 0 where
  kept : contents r.dest ++ contents r.src ≡ contents dest ++ contents src
  counted : size r.dest + n ≡ size dest + r.nout
  bounded : r.nout ≤ n + remain
  full : r.rv ≡ success → (r.src ≡ []) ⊎ (r.nout ≡ n + remain)

length-take_le : (n : ℕ) (d : List ℕ) → n ≤ length d → length (take n d) ≡ n
length-take_le zero d h = refl
length-take_le (suc n) [] h = absurd (omega arith)
length-take_le (suc n) (x ∷ d) h = ap suc (length-take_le n d (omega arith))

-- The rounds that end the loop: at the end of the source, before a bucket, at a failed read, and in
-- the middle of a bucket.
exhausted :
    (dest : List Bucket) (remain n : ℕ)
    → Outcome dest [] remain n (record { dest = dest; src = []; rv = success; nout = n })
exhausted dest remain n = record {
  kept = refl;
  counted = refl;
  bounded = omega arith;
  full = λ h. inl refl;
}

unread :
    (dest src : List Bucket) (e : Failure) (remain n : ℕ)
    → Outcome dest src remain n (record { dest = dest; src = src; rv = failed e; nout = n })
unread dest src e remain n = record {
  kept = refl;
  counted = refl;
  bounded = omega arith;
  full = λ h. cc;
}

stop :
    (dest src : List Bucket) (remain n : ℕ) (rv : Status)
    → remain ≡ 0
    → Outcome dest src remain n (record { dest = dest; src = src; rv = rv; nout = n })
stop dest src remain n rv z = record {
  kept = refl;
  counted = refl;
  bounded = omega arith;
  full = λ h. inr (omega arith);
}

split :
    (dest src : List Bucket) (d : List ℕ) (remain n : ℕ)
    → remain < length d
    → Outcome dest (bytes d ∷ src) remain n (record {
      dest = dest ++ bytes (take remain d) ∷ [];
      src = bytes (drop remain d) ∷ src;
      rv = success;
      nout = n + remain;
    })
unfolding size
split dest src d remain n h = record {
  kept = contents_split dest src d remain;
  counted =
      omega (
        arith,
        size-append dest (bytes (take remain d) ∷ []),
        length-take_le remain d (omega arith),
      );
  bounded = omega arith;
  full = λ e. inr refl;
}

-- A round that moves the first bucket whole.
move :
    (dest src : List Bucket) (d : List ℕ) (remain n : ℕ) (r : Moved)
    → length d ≤ remain
    → Outcome (dest ++ bytes d ∷ []) src (remain - length d) (n + length d) r
    → Outcome dest (bytes d ∷ src) remain n r
unfolding size
move dest src d remain n r h o = record {
  kept = o.kept ∙ contents_move dest src (bytes d);
  counted = omega (arith, o.counted, size-append dest (bytes d ∷ []));
  bounded = omega (arith, o.bounded);
  full = λ e. ground (arith, o.full e);
}

move_meta :
    (dest src : List Bucket) (m : Meta) (remain n : ℕ) (r : Moved)
    → Outcome (dest ++ metadata m ∷ []) src remain n r
    → Outcome dest (metadata m ∷ src) remain n r
unfolding size
move_meta dest src m remain n r o = record {
  kept = o.kept ∙ contents_move dest src (metadata m);
  counted = omega (arith, o.counted, size-append dest (metadata m ∷ []));
  bounded = o.bounded;
  full = o.full;
}

end_contents :
    (dest src : List Bucket)
    → contents dest ++ contents (bytes [] ∷ src) ≡ contents dest ++ contents (pipe end ∷ src)
unfolding contents bucket_atoms
end_contents dest src = refl

-- At its end the pipe is an empty bucket.
end_of_pipe :
    (dest src : List Bucket) (remain n : ℕ) (r : Moved)
    → Outcome (dest ++ bytes [] ∷ []) src remain n r
    → Outcome dest (pipe end ∷ src) remain n r
unfolding size
end_of_pipe dest src remain n r o = record {
  kept = o.kept ∙ contents_move dest src (bytes []) ∙ end_contents dest src;
  counted = omega (arith, o.counted, size-append dest (bytes [] ∷ []));
  bounded = o.bounded;
  full = o.full;
}

-- Reading a chunk from the pipe in front does not change what the source holds.
read :
    (dest src : List Bucket) (c : ℕ) (cs : List ℕ) (s : Source) (remain n : ℕ) (r : Moved)
    → Outcome dest (bytes (c ∷ cs) ∷ pipe s ∷ src) remain n r
    → Outcome dest (pipe (chunk c cs s) ∷ src) remain n r
read dest src c cs s remain n r o = record {
  kept = o.kept ∙ ap (◌++◌ (contents dest)) (contents_read src c cs s);
  counted = o.counted;
  bounded = o.bounded;
  full = o.full;
}

transfer_pipe-Outcome :
    (done : List Bucket → ℕ → ℕ → Moved) (src : List Bucket)
    → ((d : List Bucket) (r k : ℕ) → Outcome d src r k (done d r k))
    → (s : Source) (dest : List Bucket) (remain n : ℕ)
    → Outcome dest (pipe s ∷ src) remain n (transfer_pipe done dest s src remain n)
unfolding transfer_pipe
transfer_pipe-Outcome done src ih end dest remain n =
    end_of_pipe dest src remain n _ (ih (dest ++ bytes [] ∷ []) remain n)
transfer_pipe-Outcome done src ih (broken e) dest remain n =
    unread dest (pipe (broken e) ∷ src) e remain n
transfer_pipe-Outcome done src ih (chunk c cs s) dest remain n =
    read dest src c cs s remain n _ (elim (Bool-cases (ltb remain (suc (length cs)))) [
      | inl l ↦ rw l (split dest (pipe s ∷ src) (c ∷ cs) remain n (ground arith))
      | inr l ↦ rw l (elim (Bool-cases (remain == suc (length cs))) [
        | inl k ↦ rw k (
            move dest (pipe s ∷ src) (c ∷ cs) remain n _ (ground arith) (
              stop (dest ++ bytes (c ∷ cs) ∷ []) (pipe s ∷ src) (remain - suc (length cs))
                (n + suc (length cs)) success (ground arith)))
        | inr k ↦ rw k (
            move dest (pipe s ∷ src) (c ∷ cs) remain n _ (ground arith) (
              transfer_pipe-Outcome done src ih s (dest ++ bytes (c ∷ cs) ∷ [])
                (remain - suc (length cs)) (n + suc (length cs))))
      ])
    ])

transfer_loop-Outcome :
    (src dest : List Bucket) (remain n : ℕ)
    → Outcome dest src remain n (transfer_loop dest src remain n)
unfolding transfer_loop
transfer_loop-Outcome [] dest remain n = exhausted dest remain n
transfer_loop-Outcome (metadata m ∷ src) dest remain n =
    move_meta dest src m remain n _ (transfer_loop-Outcome src (dest ++ metadata m ∷ []) remain n)
transfer_loop-Outcome (pipe s ∷ src) dest remain n = elim (Bool-cases (remain == 0)) [
  | inl e ↦ rw e (stop dest (pipe s ∷ src) remain n success (ground arith))
  | inr e ↦ rw e (
      transfer_pipe-Outcome (λ d r k. transfer_loop d src r k) src
        (λ d r k. transfer_loop-Outcome src d r k) s dest remain n)
]
transfer_loop-Outcome (bytes d ∷ src) dest remain n = elim (Bool-cases (remain == length d)) [
  | inl e ↦ rw e (move dest src d remain n _ (ground arith) (transfer_loop-Outcome src _ _ _))
  | inr e ↦ rw e (elim (Bool-cases (remain == 0)) [
    | inl z ↦ rw z (stop dest (bytes d ∷ src) remain n success (ground arith))
    | inr z ↦ rw z (elim (Bool-cases (ltb remain (length d))) [
      | inl l ↦ rw l (split dest src d remain n (ground arith))
      | inr l ↦ rw l (move dest src d remain n _ (ground arith) (transfer_loop-Outcome src _ _ _))
    ])
  ])
]

-- What holds if a status is success, or the status is none.
or_failed {ℓ} : {P : Type ℓ} (rv : Status) → (rv ≡ success → P) → (is_success rv ≡ false) ⊎ P
or_failed success f = inr (f refl)
or_failed (failed e) f = inl refl

-- A transfer of at most `len` bytes moves a prefix of what the source holds, metadata included and
-- in order, to the end of the other brigade, and nothing is lost or made up. `*pnout` is the number
-- of bytes moved, at most `len`; if the call succeeds and leaves something in the source, it is
-- `len`.
pub transfer_lem :
    (dest src : List Bucket) (len : ℕ)
    → let r = transfer dest src len in
      (contents r.dest ++ contents r.src ≡ contents dest ++ contents src)
      × (size r.dest ≡ size dest + r.nout)
      × (r.nout ≤ len)
      × ((is_success r.rv ≡ false) ⊎ ((r.src ≡ []) ⊎ (r.nout ≡ len)))
unfolding transfer
transfer_lem dest src len =
    let o = transfer_loop-Outcome src dest len 0 in
    (
      o.kept,
      omega (arith, o.counted),
      omega (arith, o.bounded),
      or_failed (transfer_loop dest src len 0).rv (λ h. ground (arith, o.full h)),
    )
