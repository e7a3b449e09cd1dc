-- ===== src/Filter/Input/Reads.antt =====
-- What the reads from buckets give, and what a step of the loop of `read_tls_to_rustls` keeps.
use mod_tls.Base.{
  subst, ◌⊎◌, no_elements, ℕ, suc, ◌+◌, ◌<◌, ◌≡◌, refl, ap, sym, ◌∙◌, Bool, true, false, some, List,
  [], ◌∷◌, ◌++◌, append_assoc, append-nil, leb, length, length-drop, take, drop, take-append-drop,
  if◌then◌else◌, Status, arith, Bool-cases, inl, inr,
}
use mod_tls.Brigade.{eos, Source, end, chunk, broken, Bucket, metadata, bytes, pipe}
use mod_tls.Filter.{Ctx}
use mod_tls.Filter.Input.{In, Loop, left, ended, load, with_bb}

-- The bytes that the reads of these buckets give.
unfoldable pub source_bytes : Source → List ℕ
source_bytes end = []
source_bytes (chunk x xs s) = (x ∷ xs) ++ source_bytes s
source_bytes (broken e) = []

unfoldable pub bytes_of : List Bucket → List ℕ
bytes_of [] = []
bytes_of (metadata m ∷ bb) = bytes_of bb
bytes_of (bytes d ∷ bb) = d ++ bytes_of bb
bytes_of (pipe s ∷ bb) = source_bytes s ++ bytes_of bb

unfoldable pub NoEos : List Bucket → Type 0
NoEos [] = Unit
NoEos (metadata eos ∷ bb) = ⊥
NoEos (metadata m ∷ bb) = NoEos bb
NoEos (bytes d ∷ bb) = NoEos bb
NoEos (pipe s ∷ bb) = NoEos bb

unfoldable pub bytes_of-append :
    (xs ys : List Bucket) → bytes_of (xs ++ ys) ≡ bytes_of xs ++ bytes_of ys
unfolding bytes_of
bytes_of-append [] ys = refl
bytes_of-append (metadata m ∷ xs) ys = bytes_of-append xs ys
bytes_of-append (bytes d ∷ xs) ys =
    ap (λ (l : List ℕ). d ++ l) (bytes_of-append xs ys)
    ∙ sym (append_assoc d (bytes_of xs) (bytes_of ys))
bytes_of-append (pipe s ∷ xs) ys =
    ap (λ (l : List ℕ). source_bytes s ++ l) (bytes_of-append xs ys)
    ∙ sym (append_assoc (source_bytes s) (bytes_of xs) (bytes_of ys))

-- What a bucket of bytes is after a read of `given`.
pub behind_plain :
    (d : List ℕ) (k : ℕ) (rest : List Bucket)
    → take k d ++ bytes_of (if leb (length d) k then rest else bytes (drop k d) ∷ rest)
      ≡ d ++ bytes_of rest
unfolding bytes_of
behind_plain d k rest = elim (Bool-cases (leb (length d) k)) [
  | inl e ↦ rw e (
      let none : drop k d ≡ [] = no_elements (drop k d) (ground (arith, length-drop k d)) in
      ap (λ (l : List ℕ). l ++ bytes_of rest)
        (sym (append-nil (take k d))
          ∙ ap (λ (l : List ℕ). take k d ++ l) (sym none)
          ∙ take-append-drop k d))
  | inr e ↦ rw e (
      sym (append_assoc (take k d) (drop k d) (bytes_of rest))
      ∙ ap (λ (l : List ℕ). l ++ bytes_of rest) (take-append-drop k d))
]

pub behind_load :
    (x : ℕ) (d : List ℕ) (k : ℕ) (rest : List Bucket)
    → 0 < k
    → load (if leb (suc (length d)) k then rest else bytes (drop k (x ∷ d)) ∷ rest)
      < suc (suc (length d) + load rest)
behind_load x d k rest h = elim (Bool-cases (leb (suc (length d)) k)) [
  | inl e ↦ rw e (omega arith)
  | inr e ↦ rw e (omega (arith, length-drop k (x ∷ d)))
]

pub behind-NoEos :
    (b : Bool) (d : List ℕ) (rest : List Bucket)
    → NoEos rest
    → NoEos (if b then rest else bytes d ∷ rest)
unfolding NoEos
behind-NoEos true d rest h = h
behind-NoEos false d rest h = h

module _ {ℓ} {S N X : Type ℓ} where
  -- While the data of `c` is buffered, `c'` has the same bytes, buffered or unread.
  abbrev pub Same : List Bucket → Ctx (In S N X) → Ctx (In S N X) → Type 0
  Same bb c c' =
      (buffer : List ℕ)
      → c.world.tls_buffer_bb ≡ some buffer
      → (buffer' : List ℕ) × (c'.world.tls_buffer_bb ≡ some buffer')
        × (buffer' ++ bytes_of c'.world.tls_bb ≡ buffer ++ bytes_of bb)

  -- The next bucket is EOS, and what was buffered is gone.
  abbrev pub Cut : Ctx (In S N X) → Ctx (In S N X) → Type 0
  Cut c c' =
      ((rest : List Bucket) × (c'.world.tls_bb ≡ metadata eos ∷ rest))
      × ((buffer : List ℕ) → c.world.tls_buffer_bb ≡ some buffer → c'.world.tls_buffer_bb ≡ some [])

  -- A round that goes on.
  pub record Step (bb : List Bucket) (c c' : Ctx (In S N X)) : Type ℓ where
    pub same : Same bb c c'
    pub no_eos : NoEos bb → NoEos c'.world.tls_bb
    pub net : c'.world.net ≡ c.world.net
    pub conn : c'.cc ≡ c.cc

  -- Any number of rounds.
  pub record Kept (bb : List Bucket) (c c' : Ctx (In S N X)) : Type ℓ where
    pub kept : Same bb c c' ⊎ Cut c c'
    pub no_eos : NoEos bb → NoEos c'.world.tls_bb
    pub net : c'.world.net ≡ c.world.net
    pub conn : c'.cc ≡ c.cc

  -- The loop ends, in a state of which `P` holds.
  abbrev pub Ends : (Ctx (In S N X) → Type ℓ) → Loop (In S N X) → Type ℓ
  Ends P l =
      (c : Ctx (In S N X)) × (rv : Status) × (passed : ℕ) × ((l ≡ left c rv passed)
        ⊎ (l ≡ ended c rv passed))
      × P c

  pub Ends-map :
      {P Q : Ctx (In S N X) → Type ℓ} {l : Loop (In S N X)}
      → ((c : Ctx (In S N X)) → P c → Q c)
      → Ends P l
      → Ends Q l
  Ends-map f (c, rv, passed, e, p) = (c, rv, passed, e, f c p)

  kept-from :
      (bb0 bb : List Bucket) (c0 c1 c2 : Ctx (In S N X))
      → Step bb0 c0 c1
      → bb ≡ c1.world.tls_bb
      → Same bb c1 c2 ⊎ Cut c1 c2
      → Same bb0 c0 c2 ⊎ Cut c0 c2
  kept-from bb0 bb c0 c1 c2 h e (inl same) = inl (λ b eb.
      let (b1, e1, s1) = h.same b eb in
      let (b2, e2, s2) = same b1 e1 in (b2, e2, s2 ∙ ap (λ l. b1 ++ bytes_of l) e ∙ s1))
  kept-from bb0 bb c0 c1 c2 h e (inr (front, emptied)) =
      inr (front, λ b eb. let (b1, e1, s1) = h.same b eb in emptied b1 e1)

  pub Kept-from :
      (bb0 bb : List Bucket) (c0 c1 : Ctx (In S N X))
      → Step bb0 c0 c1
      → bb ≡ c1.world.tls_bb
      → (c2 : Ctx (In S N X)) → Kept bb c1 c2
      → Kept bb0 c0 c2
  Kept-from bb0 bb c0 c1 h e c2 k = record {
    kept = kept-from bb0 bb c0 c1 c2 h e k.kept;
    no_eos = λ n. k.no_eos (subst NoEos (sym e) (h.no_eos n));
    net = k.net ∙ h.net;
    conn = k.conn ∙ h.conn;
  }

  -- A bucket without bytes goes away.
  pub skipped :
      (b : Bucket) (bb : List Bucket) (c : Ctx (In S N X))
      → bytes_of (b ∷ bb) ≡ bytes_of bb
      → (NoEos (b ∷ bb) → NoEos bb)
      → Step (b ∷ bb) c (with_bb c bb)
  skipped b bb c e h = record {
    same = λ buffer eb. (buffer, eb, ap (λ (l : List ℕ). buffer ++ l) (sym e));
    no_eos = h;
    net = refl;
    conn = refl;
  }
