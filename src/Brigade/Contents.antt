-- ===== src/Brigade/Contents.antt =====
-- What a brigade holds, as one sequence, whatever its buckets' bounds.
use mod_tls.Base.{
  ℕ, ◌+◌, ◌≡◌, refl, sym, ap, ◌∙◌, List, [], ◌∷◌, ◌++◌, map, append_assoc, append-nil, length,
  arith, Failure, take, drop, take-append-drop,
}
use mod_tls.Brigade.{Meta, Source, end, chunk, broken, Bucket, metadata, bytes, pipe}

pub data Atom : Type 0 where
  byte : ℕ → Atom
  mark : Meta → Atom
  failure : Failure → Atom

unfoldable pub source_atoms : Source → List Atom
source_atoms end = []
source_atoms (chunk c cs s) = map byte (c ∷ cs) ++ source_atoms s
source_atoms (broken e) = failure e ∷ []

unfoldable pub bucket_atoms : Bucket → List Atom
unfolding source_atoms
bucket_atoms (metadata m) = mark m ∷ []
bucket_atoms (bytes d) = map byte d
bucket_atoms (pipe s) = source_atoms s

unfoldable pub contents : List Bucket → List Atom
contents [] = []
contents (b ∷ bs) = bucket_atoms b ++ contents bs

-- The number of bytes that stand in the buckets of known length.
unfoldable pub size : List Bucket → ℕ
size [] = 0
size (metadata m ∷ bs) = size bs
size (bytes d ∷ bs) = length d + size bs
size (pipe s ∷ bs) = size bs

pub contents-append : (xs ys : List Bucket) → contents (xs ++ ys) ≡ contents xs ++ contents ys
unfolding contents
contents-append [] ys = refl
contents-append (b ∷ xs) ys =
    ap (◌++◌ (bucket_atoms b)) (contents-append xs ys)
    ∙ sym (append_assoc (bucket_atoms b) (contents xs) (contents ys))

pub size-append : (xs ys : List Bucket) → size (xs ++ ys) ≡ size xs + size ys
unfolding size
size-append [] ys = omega arith
size-append (metadata m ∷ xs) ys = size-append xs ys
size-append (bytes d ∷ xs) ys = omega (arith, size-append xs ys)
size-append (pipe s ∷ xs) ys = size-append xs ys

map_byte-append : (xs ys : List ℕ) → map byte (xs ++ ys) ≡ map byte xs ++ map byte ys
map_byte-append [] ys = refl
map_byte-append (x ∷ xs) ys = ap (◌∷◌ (byte x)) (map_byte-append xs ys)

-- Moving a bucket from the head of one brigade to the tail of another.
pub contents_move :
    (dest src : List Bucket) (b : Bucket)
    → contents (dest ++ b ∷ []) ++ contents src ≡ contents dest ++ contents (b ∷ src)
unfolding contents
contents_move dest src b = rw (contents-append dest (b ∷ [])) (
    unfold contents in
    rw (append-nil (bucket_atoms b)) (append_assoc (contents dest) (bucket_atoms b) (contents src)))

pub rejoin :
    (src : List Bucket) (d : List ℕ) (n : ℕ)
    → contents (bytes (take n d) ∷ bytes (drop n d) ∷ src) ≡ contents (bytes d ∷ src)
unfolding contents bucket_atoms
rejoin src d n =
    sym (append_assoc (map byte (take n d)) (map byte (drop n d)) (contents src))
    ∙ ap (λ (l : List Atom). l ++ contents src)
        (sym (map_byte-append (take n d) (drop n d)) ∙ ap (map byte) (take-append-drop n d))

-- A pipe of which one chunk has been read.
pub contents_read :
    (src : List Bucket) (c : ℕ) (cs : List ℕ) (s : Source)
    → contents (bytes (c ∷ cs) ∷ pipe s ∷ src) ≡ contents (pipe (chunk c cs s) ∷ src)
unfolding contents bucket_atoms
contents_read src c cs s = sym (append_assoc (map byte (c ∷ cs)) (source_atoms s) (contents src))

-- Splitting a bucket and moving its first half.
pub contents_split :
    (dest src : List Bucket) (d : List ℕ) (n : ℕ)
    → contents (dest ++ bytes (take n d) ∷ []) ++ contents (bytes (drop n d) ∷ src)
      ≡ contents dest ++ contents (bytes d ∷ src)
contents_split dest src d n =
    contents_move dest (bytes (drop n d) ∷ src) (bytes (take n d))
    ∙ ap (◌++◌ (contents dest)) (rejoin src d n)
