-- ===== src/Filter/Output/Splits.antt =====
-- Splitting the first bucket keeps the plain bytes, and what is left of it takes fewer rounds.
use mod_tls.Base.{
  no_elements, ℕ, suc, ◌+◌, ◌-◌, ◌≤◌, ◌<◌, ◌≡◌, ap, sym, ◌∙◌, List, [], ◌∷◌, ◌++◌, append_assoc,
  append-nil, length, length-drop, take, drop, take-append-drop, ltb, inl, inr, arith, Bool-cases,
  if◌then◌else◌,
}
use mod_tls.Filter.Output.{Item, bytes, file, Io}
use mod_tls.Filter.Output.Views.{Works, plain_bytes, rounds, Readable}

module _ {ℓ} {S N : Type ℓ} {io : Io S N} (works : Works io) where
  -- `apr_bucket_split` of bytes, if there are more than `n`
  abbrev pub bytes_behind : ℕ → List ℕ → List Item → List Item
  bytes_behind n d rest = if ltb n (length d) then bytes (drop n d) ∷ rest else rest

  pub bytes_behind_plain :
      (n : ℕ) (d : List ℕ) (rest : List Item)
      → take n d ++ plain_bytes works (bytes_behind n d rest) ≡ d ++ plain_bytes works rest
  unfolding plain_bytes
  bytes_behind_plain n d rest = elim (Bool-cases (ltb n (length d))) [
    | inl e ↦ rw e (
        sym (append_assoc (take n d) (drop n d) (plain_bytes works rest))
        ∙ ap (λ (l : List ℕ). l ++ plain_bytes works rest) (take-append-drop n d))
    | inr e ↦ rw e (
        let none : drop n d ≡ [] = no_elements (drop n d) (ground (arith, length-drop n d)) in
        ap (λ (l : List ℕ). l ++ plain_bytes works rest)
          (sym (append-nil (take n d))
            ∙ ap (λ (l : List ℕ). take n d ++ l) (sym none)
            ∙ take-append-drop n d))
  ]

  pub bytes_behind_fewer :
      (n x : ℕ) (d : List ℕ) (rest : List Item)
      → 0 < n
      → rounds (bytes_behind n (x ∷ d) rest) < rounds (bytes (x ∷ d) ∷ rest)
  unfolding rounds
  bytes_behind_fewer n x d rest h = elim (Bool-cases (ltb n (suc (length d)))) [
    | inl e ↦ rw e (let k = length-drop n (x ∷ d) in omega arith)
    | inr e ↦ rw e (omega arith)
  ]

  pub bytes_behind-Readable :
      (n : ℕ) (d : List ℕ) (rest : List Item) → Readable rest → Readable (bytes_behind n d rest)
  unfolding Readable
  bytes_behind-Readable n d rest h = elim (Bool-cases (ltb n (length d))) [
    | inl e ↦ rw e h
    | inr e ↦ rw e h
  ]

  -- What is behind the first `n` bytes of a part of a file.
  abbrev pub file_behind : ℕ → ℕ → ℕ → ℕ → List Item → List Item
  file_behind fd start n len rest = if ltb n len then file fd (start + n) (len - n) ∷ rest else rest

  pub part_split :
      (fd start n len : ℕ) (l : List ℕ)
      → n ≤ len
      → works.part fd start n ++ (works.part fd (start + n) (len - n) ++ l)
        ≡ works.part fd start len ++ l
  part_split fd start n len l h =
      let whole : n + (len - n) ≡ len = ground arith in
      sym (append_assoc (works.part fd start n) (works.part fd (start + n) (len - n)) l)
      ∙ ap (λ (d : List ℕ). d ++ l)
          (sym (works.part_append fd start n (len - n)) ∙ ap (λ m. works.part fd start m) whole)

  pub file_behind_plain :
      (fd start n len : ℕ) (rest : List Item)
      → n ≤ len
      → works.part fd start n ++ plain_bytes works (file_behind fd start n len rest)
        ≡ works.part fd start len ++ plain_bytes works rest
  unfolding plain_bytes
  file_behind_plain fd start n len rest h = elim (Bool-cases (ltb n len)) [
    | inl e ↦ rw e (part_split fd start n len (plain_bytes works rest) h)
    | inr e ↦ rw e (
        let whole : n ≡ len = ground arith in
        ap (λ m. works.part fd start m ++ plain_bytes works rest) whole)
  ]

  pub file_behind_rounds :
      (fd start n len : ℕ) (rest : List Item)
      → rounds (file_behind fd start n len rest) ≤ suc ((len - n) + (len - n) + rounds rest)
  unfolding rounds
  file_behind_rounds fd start n len rest = elim (Bool-cases (ltb n len)) [
    | inl e ↦ rw e (omega arith)
    | inr e ↦ rw e (omega arith)
  ]

  pub file_behind-Readable :
      (fd start n len : ℕ) (rest : List Item)
      → Readable rest
      → Readable (file_behind fd start n len rest)
  unfolding Readable
  file_behind-Readable fd start n len rest h = elim (Bool-cases (ltb n len)) [
    | inl e ↦ rw e h
    | inr e ↦ rw e h
  ]
