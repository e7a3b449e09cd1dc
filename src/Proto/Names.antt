-- ===== src/Proto/Names.antt =====
-- Names and ids are inverse to each other, for versions and for ciphers.
use mod_tls.Base.{
  ℕ, codes, zero, suc, pos, ◌%◌, ◌-◌, ◌≡◌, ◌<◌, refl, inl, inr, ap, sym, ◌∙◌, true, false, none,
  some, List, [], ◌∷◌, ◌++◌, get_or_else, get_elem?, all, is_empty, ◌==◌, if◌then◌else◌, String,
  arith, length, length-append, take-append, drop-append, ==_iff, Bool-cases,
}
use mod_tls.Proto.{
  Apr, bytes_eq, accept_code, get_uint16_from, get_version_by_name, get_version_name, uint16_test,
}
use mod_tls.Proto.Hex.{AprLaws, hex4, hex_value, hex_value-hex4, all-hex4, folded, is_hex_digit}

pub bytes_eq_refl : (xs : List ℕ) → bytes_eq xs xs ≡ true
bytes_eq_refl [] = refl
bytes_eq_refl (x ∷ xs) = ground (arith, bytes_eq_refl xs)

-- A name that is the prefix and four more bytes is read from those bytes.
get_uint16_from-append :
    (apr : Apr) (name prefix : String) (tail : List ℕ)
    → codes name ≡ codes prefix ++ tail
    → length tail ≡ 4
    → get_uint16_from apr name prefix ≡ accept_code (apr.strtoi64_hex tail)
unfolding get_uint16_from
get_uint16_from-append apr name prefix tail e n = rw e (
    rw (take-append (codes prefix) tail, drop-append (codes prefix) tail)
      (ground (arith, length-append (codes prefix) tail, bytes_eq_refl (codes prefix))))

uint16_test-pos :
    (id : ℕ)
    → 0 < id
    → id < 65536
    → (if uint16_test (pos id) then some (id % 65536) else none) ≡ some id
uint16_test-pos zero p h = elim p [ ]
uint16_test-pos (suc id) p h = ground arith

accept_code-hex4 :
    (apr : Apr)
    → AprLaws apr
    → (id : ℕ) → 0 < id
    → id < 65536
    → accept_code (apr.strtoi64_hex (hex4 id)) ≡ some id
unfolding accept_code
accept_code-hex4 apr laws id p h =
    rw
      (laws.strtoi64_digits (hex4 id) (all-hex4 id) (unfold hex4 in refl)
        (unfold hex4 in omega arith))
      (rw (hex_value-hex4 id h) (uint16_test-pos id p h))

pub get_uint16_from-format_x4 :
    (apr : Apr)
    → AprLaws apr
    → (prefix : String) (id : ℕ) → 0 < id
    → id < 65536
    → get_uint16_from apr (apr.format_x4 prefix id) prefix ≡ some id
get_uint16_from-format_x4 apr laws prefix id p h =
    get_uint16_from-append apr _ prefix (hex4 id) (laws.codes_format_x4 prefix id h)
      (unfold hex4 in refl)
    ∙ accept_code-hex4 apr laws id p h

-- Two texts differ if their bytes at one index do.
abbrev nth : ℕ → List ℕ → ℕ
nth i xs = get_or_else (get_elem? xs i) 0

natcase_eq_false :
    (apr : Apr)
    → AprLaws apr
    → (s t : String) → ¬ (folded (codes s) ≡ folded (codes t))
    → apr.natcase_eq s t ≡ false
natcase_eq_false apr laws s t h = elim (Bool-cases (apr.natcase_eq s t)) [
  | inl e ↦ absurd (h (laws.natcase_eq_folded s t e))
  | inr e ↦ e
]

folded-format_x4 :
    (apr : Apr)
    → AprLaws apr
    → (id : ℕ) → id < 65536
    → folded (codes (apr.format_x4 "TLSv0x" id)) ≡ folded (codes "TLSv0x" ++ hex4 id)
folded-format_x4 apr laws id h = ap folded (laws.codes_format_x4 "TLSv0x" id h)

natcase_eq-format_x4 :
    (apr : Apr)
    → AprLaws apr
    → (id : ℕ) → id < 65536
    → (apr.natcase_eq (apr.format_x4 "TLSv0x" id) "TLSv1.2" ≡ false)
      × (apr.natcase_eq (apr.format_x4 "TLSv0x" id) "TLSv1.3" ≡ false)
natcase_eq-format_x4 apr laws id h = (
  natcase_eq_false apr laws _ _
      (λ e. omega (arith, ap (nth 4) (sym (folded-format_x4 apr laws id h) ∙ e))),
  natcase_eq_false apr laws _ _
      (λ e. omega (arith, ap (nth 4) (sym (folded-format_x4 apr laws id h) ∙ e))),
)

-- A version id other than 0 is found again by the name that the module prints for it.
pub get_version_by_name-get_version_name :
    (apr : Apr)
    → AprLaws apr
    → (id : ℕ) → 0 < id
    → id < 65536
    → get_version_by_name apr (get_version_name apr id) ≡ id
unfolding get_version_by_name get_version_name
get_version_by_name-get_version_name apr laws id p h = elim (Bool-cases (id == 0x0303)) [
  | inl e ↦ rw e (rw (laws.natcase_eq_refl "TLSv1.2") (sym ((==_iff id 0x0303).0 e)))
  | inr e ↦ rw e (elim (Bool-cases (id == 0x0304)) [
    | inl k ↦ rw k (
        rw (natcase_eq_false apr laws "TLSv1.3" "TLSv1.2" (λ x. omega (arith, ap (nth 6) x)))
          (rw (laws.natcase_eq_refl "TLSv1.3") (sym ((==_iff id 0x0304).0 k))))
    | inr k ↦
        let (a, b) = natcase_eq-format_x4 apr laws id h in
        rw k (rw (a, b) (rw (get_uint16_from-format_x4 apr laws "TLSv0x" id p h)))
  ])
]

is_empty-false : {n : ℕ} (ds : List ℕ) → length ds ≡ suc n → is_empty ds ≡ false
is_empty-false [] h = absurd (omega arith)
is_empty-false (d ∷ ds) h = refl

-- A minus sign and three hexadecimal digits, not all 0, also pass as an id: the negative number is
-- cut to 16 bits.
pub get_version_by_name_minus :
    (apr : Apr)
    → AprLaws apr
    → (name : String) (ds : List ℕ) (n : ℕ) → codes name ≡ codes "TLSv0x-" ++ ds
    → all is_hex_digit ds ≡ true
    → length ds ≡ 3
    → hex_value 0 ds ≡ suc n
    → n < 65536
    → get_version_by_name apr name ≡ 65535 - n
unfolding get_version_by_name accept_code
get_version_by_name_minus apr laws name ds n e digits len v h =
    rw
      (
        natcase_eq_false apr laws name "TLSv1.2"
            (λ x. omega (arith, ap (nth 4) (ap folded (sym e) ∙ x))),
        natcase_eq_false apr laws name "TLSv1.3"
            (λ x. omega (arith, ap (nth 4) (ap folded (sym e) ∙ x))),
        get_uint16_from-append apr name "TLSv0x" (b'-' ∷ ds) e (omega arith),
      )
      (rw (laws.strtoi64_minus ds digits (is_empty-false ds len) (omega arith))
        (rw (v, accept_code) (omega arith)))
