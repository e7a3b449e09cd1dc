-- ===== src/Proto/Hex.antt =====
-- The numerals of APR that names of unknown versions and ciphers are built from, and what the code
-- relies on of APR's string functions.
use mod_tls.Base.{
  ℕ, codes, ◌+◌, ◌-◌, ◌*◌, ◌/◌, ◌%◌, ◌≡◌, ◌≤◌, ◌<◌, Bool, true, false, ◌&&◌, List, [], ◌∷◌, ◌++◌,
  String, ltb, leb, if◌then◌else◌, all, length, is_empty, arith, ℤ, pos, negsuc, zero, suc, ◌||◌,
}
use mod_tls.Proto.{Apr}

abbrev pub is_hex_digit : ℕ → Bool
is_hex_digit c =
    (leb b'0' c && leb c b'9') || (leb b'a' c && leb c b'f') || (leb b'A' c && leb c b'F')

unfoldable pub digit_value : ℕ → ℕ
digit_value c = if leb c b'9' then c - b'0' else if leb c b'F' then c - 55 else c - 87

unfoldable pub hex_value : ℕ → List ℕ → ℕ
hex_value acc [] = acc
hex_value acc (c ∷ cs) = hex_value (16 * acc + digit_value c) cs

unfoldable pub hex_digit : ℕ → ℕ
hex_digit d = if ltb d 10 then d + b'0' else d + 87

-- What `%04x` prints for a number below 2 ^ 16.
unfoldable pub hex4 : ℕ → List ℕ
hex4 n =
    hex_digit (n / 4096 % 16)
    ∷ hex_digit (n / 256 % 16)
    ∷ hex_digit (n / 16 % 16)
    ∷ hex_digit (n % 16)
    ∷ []

abbrev pub negate : ℕ → ℤ
negate zero = pos 0
negate (suc n) = negsuc n

abbrev is_space : ℕ → Bool
is_space c = (leb 9 c && leb c 13) || (leb 32 c && leb c 32)

abbrev lower : ℕ → ℕ
lower c = if leb b'A' c && leb c b'Z' then c + 32 else c

-- A text without its white space and in lower case.
abbrev pub folded : List ℕ → List ℕ
folded [] = []
folded (c ∷ cs) = if is_space c then folded cs else lower c ∷ folded cs

-- Documented behaviour of the three functions, where the code uses them.
pub record AprLaws (apr : Apr) : Type 0 where
  pub codes_format_x4 :
      (prefix : String) (n : ℕ)
      → n < 65536
      → codes (apr.format_x4 prefix n) ≡ codes prefix ++ hex4 n
  pub strtoi64_digits :
      (ds : List ℕ)
      → all is_hex_digit ds ≡ true
      → is_empty ds ≡ false
      → length ds ≤ 15
      → apr.strtoi64_hex ds ≡ (pos (hex_value 0 ds), [])
  pub strtoi64_minus :
      (ds : List ℕ)
      → all is_hex_digit ds ≡ true
      → is_empty ds ≡ false
      → length ds ≤ 15
      → apr.strtoi64_hex (b'-' ∷ ds) ≡ (negate (hex_value 0 ds), [])
  pub natcase_eq_refl : (s : String) → apr.natcase_eq s s ≡ true
  pub natcase_eq_folded :
      (s t : String) → apr.natcase_eq s t ≡ true → folded (codes s) ≡ folded (codes t)

digit_value-hex_digit : (d : ℕ) → d < 16 → digit_value (hex_digit d) ≡ d
unfolding digit_value hex_digit
digit_value-hex_digit d h = ground arith

is_hex_digit-hex_digit : (d : ℕ) → d < 16 → is_hex_digit (hex_digit d) ≡ true
unfolding hex_digit
is_hex_digit-hex_digit d h = ground arith

pub all-hex4 : (n : ℕ) → all is_hex_digit (hex4 n) ≡ true
unfolding hex4
all-hex4 n = ground (
  arith,
  is_hex_digit-hex_digit (n / 4096 % 16),
  is_hex_digit-hex_digit (n / 256 % 16),
  is_hex_digit-hex_digit (n / 16 % 16),
  is_hex_digit-hex_digit (n % 16),
)

pub hex_value-hex4 : (n : ℕ) → n < 65536 → hex_value 0 (hex4 n) ≡ n
unfolding hex_value hex4
hex_value-hex4 n h = omega (
  arith,
  digit_value-hex_digit (n / 4096 % 16) (omega arith),
  digit_value-hex_digit (n / 256 % 16) (omega arith),
  digit_value-hex_digit (n / 16 % 16) (omega arith),
  digit_value-hex_digit (n % 16) (omega arith),
)
