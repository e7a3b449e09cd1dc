-- ===== src/Brigade/Copy.antt =====
-- `tls_util_brigade_copy` of src/tls_util.c. The bucket that follows is fixed before a bucket is
-- read or split, so the loop goes on behind the new second part. All buckets here can be copied.
use mod_tls.Base.{
  true, false, length-append, take-append, ℕ, suc, ◌+◌, ◌-◌, ◌≡◌, refl, ap, ◌∙◌, List, [], ◌∷◌,
  ◌++◌, ltb, ◌==◌, length, take, drop, if◌then◌else◌, Status, success, failed, Bool-cases, inl, inr,
  arith,
}
use mod_tls.Brigade.{Meta, end, chunk, broken, Bucket, metadata, bytes, pipe, Moved}
use mod_tls.Brigade.Contents.{contents, bucket_atoms, source_atoms, rejoin, contents_read}

-- The buckets of the source that the loop has passed.
abbrev pub passed : List Bucket → Moved → Moved
passed bs r = record r { src = bs ++ r.src }

abbrev pub stop : List Bucket → List Bucket → Status → ℕ → Moved
stop dest src rv n = record { dest = dest; src = src; rv = rv; nout = n }

unfoldable pub copy_loop : List Bucket → List Bucket → ℕ → ℕ → Moved
copy_loop dest [] remain n = stop dest [] success n
copy_loop dest (metadata m ∷ src) remain n =
    passed (metadata m ∷ []) (copy_loop (dest ++ metadata m ∷ []) src remain n)
copy_loop dest (bytes d ∷ src) remain n =
    let whole =
      passed (bytes d ∷ [])
        (copy_loop (dest ++ bytes d ∷ []) src (remain - length d) (n + length d)) in
    let part =
      passed (bytes (take remain d) ∷ bytes (drop remain d) ∷ [])
        (copy_loop (dest ++ bytes (take remain d) ∷ []) src 0 (n + remain)) in
    if remain == length d
    then whole
    else if remain == 0
    then stop dest (bytes d ∷ src) success n
    else if ltb remain (length d)
    then part
    else whole
copy_loop dest (pipe end ∷ src) remain n =
    let rest = passed (bytes [] ∷ []) (copy_loop (dest ++ bytes [] ∷ []) src remain n) in
    if remain == 0 then stop dest (pipe end ∷ src) success n else rest
copy_loop dest (pipe (broken e) ∷ src) remain n =
    stop dest (pipe (broken e) ∷ src) (if remain == 0 then success else failed e) n
copy_loop dest (pipe (chunk c cs s) ∷ src) remain n =
    let d = c ∷ cs in
    let whole =
      passed (bytes d ∷ pipe s ∷ [])
        (copy_loop (dest ++ bytes d ∷ []) src (remain - length d) (n + length d)) in
    let part =
      passed (bytes (take remain d) ∷ bytes (drop remain d) ∷ pipe s ∷ [])
        (copy_loop (dest ++ bytes (take remain d) ∷ []) src 0 (n + remain)) in
    if remain == 0
    then stop dest (pipe (chunk c cs s) ∷ src) success n
    else if ltb remain (length d)
    then part
    else whole

unfoldable pub copy : List Bucket → List Bucket → ℕ → Moved
copy dest src len = copy_loop dest src len 0

-- One more bucket in front of brigades of the same contents.
contents-cons :
    (b : Bucket) (xs ys : List Bucket)
    → contents xs ≡ contents ys
    → contents (b ∷ xs) ≡ contents (b ∷ ys)
unfolding contents
contents-cons b xs ys e = ap (◌++◌ (bucket_atoms b)) e

ended :
    (src xs : List Bucket)
    → contents xs ≡ contents src
    → contents (bytes [] ∷ xs) ≡ contents (pipe end ∷ src)
unfolding contents bucket_atoms source_atoms
ended src xs e = e

copy_loop_kept :
    (dest src : List Bucket) (remain n : ℕ)
    → contents (copy_loop dest src remain n).src ≡ contents src
unfolding copy_loop
copy_loop_kept dest [] remain n = refl
copy_loop_kept dest (metadata m ∷ src) remain n =
    contents-cons (metadata m) _ src (copy_loop_kept (dest ++ metadata m ∷ []) src remain n)
copy_loop_kept dest (bytes d ∷ src) remain n =
    let whole =
      contents-cons (bytes d) _ src
        (copy_loop_kept (dest ++ bytes d ∷ []) src (remain - length d) (n + length d)) in
    let part =
      rejoin (copy_loop (dest ++ bytes (take remain d) ∷ []) src 0 (n + remain)).src d remain
      ∙ contents-cons (bytes d) _ src
          (copy_loop_kept (dest ++ bytes (take remain d) ∷ []) src 0 (n + remain)) in
    elim (Bool-cases (remain == length d)) [
      | inl e ↦ rw e whole
      | inr e ↦ rw e (elim (Bool-cases (remain == 0)) [
        | inl z ↦ rw z refl
        | inr z ↦
            rw z
              (elim (Bool-cases (ltb remain (length d))) [ inl l ↦ rw l part | inr l ↦ rw l whole ])
      ])
    ]
copy_loop_kept dest (pipe end ∷ src) remain n = elim (Bool-cases (remain == 0)) [
  | inl z ↦ rw z refl
  | inr z ↦ rw z (ended src _ (copy_loop_kept (dest ++ bytes [] ∷ []) src remain n))
]
copy_loop_kept dest (pipe (broken e) ∷ src) remain n = refl
copy_loop_kept dest (pipe (chunk c cs s) ∷ src) remain n =
    let d = c ∷ cs in
    let read = contents_read src c cs s in
    let behind = λ (xs : List Bucket) (e : contents xs ≡ contents src).
      contents-cons (bytes d) (pipe s ∷ xs) (pipe s ∷ src) (contents-cons (pipe s) xs src e)
      ∙ read in
    let whole =
      behind _ (copy_loop_kept (dest ++ bytes d ∷ []) src (remain - length d) (n + length d)) in
    let half = copy_loop (dest ++ bytes (take remain d) ∷ []) src 0 (n + remain) in
    let part =
      rejoin (pipe s ∷ half.src) d remain
      ∙ behind half.src (copy_loop_kept (dest ++ bytes (take remain d) ∷ []) src 0 (n + remain)) in
    elim (Bool-cases (remain == 0)) [
      | inl z ↦ rw z refl
      | inr z ↦
          rw z
            (elim (Bool-cases (ltb remain (length d))) [ inl l ↦ rw l part | inr l ↦ rw l whole ])
    ]

-- A copy leaves what the source holds as it is, in order, though buckets are read and split.
pub copy_kept : (dest src : List Bucket) (len : ℕ) → contents (copy dest src len).src ≡ contents src
unfolding copy
copy_kept dest src len = copy_loop_kept dest src len 0

-- Where a bucket of bytes is longer than what is asked for, and metadata follow it, the copy has
-- the bytes that are asked for and then the metadata, though the rest of the bytes stands between
-- them.
pub copy_past_split :
    (xs ys : List ℕ) (x y : ℕ) (m : Meta)
    → (copy [] (bytes ((x ∷ xs) ++ y ∷ ys) ∷ metadata m ∷ []) (suc (length xs))).dest
      ≡ bytes (x ∷ xs) ∷ metadata m ∷ []
unfolding copy copy_loop
copy_past_split xs ys x y m =
    let longer = length-append xs (y ∷ ys) in
    let differ : (length xs == length (xs ++ y ∷ ys)) ≡ false = ground (arith, longer) in
    let less : ltb (length xs) (length (xs ++ y ∷ ys)) ≡ true = ground (arith, longer) in
    ground (arith, longer, take-append xs (y ∷ ys))
