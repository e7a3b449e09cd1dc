-- ===== src/Examples/Apr.antt =====
-- An implementation of APR's string functions that has the laws, and runs of the name lookups.
use Prim.Native.String.{◌++◌ as ◌+++◌}
use Prim.Native.Char.{Char, code}
use text.Mathlib.TextLemmas.{nil-append, cons-append}
use mod_tls.Base.{
  ℕ, zero, suc, ◌≡◌, refl, ap, ◌∙◌, true, false, some, List, [], ◌∷◌, ◌++◌, String, codes, text_eq,
  text_eq_iff, ◌/◌, ◌%◌, ◌<◌, ◌≤◌, arith, all, length, is_empty, ◌==◌, if◌then◌else◌, ℤ, pos,
}
use mod_tls.Proto.{
  Apr, get_version_by_name, get_version_name, get_cipher_by_name, get_cipher_name, tls_proto_init,
}
use mod_tls.Proto.Hex.{AprLaws, hex4, hex_digit, hex_value, is_hex_digit, negate, folded}
use mod_tls.Proto.Names.{get_version_by_name-get_version_name}
use mod_tls.Proto.Lookup.{get_cipher_by_name-get_cipher_name}

-- The digit of a number below 16.
abbrev digits_from_zero : List Char
digits_from_zero =
    "0" ∷ "1" ∷ "2" ∷ "3" ∷ "4" ∷ "5" ∷ "6" ∷ "7" ∷ "8" ∷ "9" ∷ "a" ∷ "b" ∷ "c" ∷ "d" ∷ "e" ∷ "f"
    ∷ []

abbrev char_at : List Char → ℕ → Char
char_at [] d = "f"
char_at (c ∷ cs) zero = c
char_at (c ∷ cs) (suc d) = char_at cs d

abbrev hex_char : ℕ → Char
hex_char d = char_at digits_from_zero d

abbrev four : ℕ → String
four n = String.◌∷◌ (hex_char (n / 4096 % 16)) (
    String.◌∷◌ (hex_char (n / 256 % 16))
      (String.◌∷◌ (hex_char (n / 16 % 16)) (String.◌∷◌ (hex_char (n % 16)) String.[])))

abbrev before_end : List ℕ → List ℕ
before_end [] = []
before_end (c ∷ cs) = if is_hex_digit c then c ∷ before_end cs else []

abbrev from_end : List ℕ → List ℕ
from_end [] = []
from_end (c ∷ cs) = if is_hex_digit c then from_end cs else c ∷ cs

abbrev strtoi64 : List ℕ → ℤ × List ℕ
strtoi64 [] = (pos 0, [])
strtoi64 (c ∷ cs) =
    if c == b'-'
    then (negate (hex_value 0 (before_end cs)), from_end cs)
    else (pos (hex_value 0 (before_end (c ∷ cs))), from_end (c ∷ cs))

abbrev pub apr : Apr
apr = record { natcase_eq = text_eq; format_x4 = λ p n. p +++ four n; strtoi64_hex = strtoi64 }

codes-append : (s t : String) → codes (s +++ t) ≡ codes s ++ codes t
codes-append String.[] t = ap codes (nil-append t)
codes-append (String.◌∷◌ c s) t =
    ap codes (cons-append c s t) ∙ ap (◌∷◌ (code c)) (codes-append s t)

code-hex_char : (d : ℕ) → d < 16 → code (hex_char d) ≡ hex_digit d
unfolding hex_digit
code-hex_char zero h = refl
code-hex_char (suc zero) h = refl
code-hex_char (suc (suc zero)) h = refl
code-hex_char (suc (suc (suc zero))) h = refl
code-hex_char (suc (suc (suc (suc zero)))) h = refl
code-hex_char (suc (suc (suc (suc (suc zero))))) h = refl
code-hex_char (suc (suc (suc (suc (suc (suc zero)))))) h = refl
code-hex_char (suc (suc (suc (suc (suc (suc (suc zero))))))) h = refl
code-hex_char (suc (suc (suc (suc (suc (suc (suc (suc zero)))))))) h = refl
code-hex_char (suc (suc (suc (suc (suc (suc (suc (suc (suc zero))))))))) h = refl
code-hex_char (suc (suc (suc (suc (suc (suc (suc (suc (suc (suc zero)))))))))) h = refl
code-hex_char (suc (suc (suc (suc (suc (suc (suc (suc (suc (suc (suc zero))))))))))) h = refl
code-hex_char (suc (suc (suc (suc (suc (suc (suc (suc (suc (suc (suc (suc zero)))))))))))) h = refl
code-hex_char (suc (suc (suc (suc (suc (suc (suc (suc (suc (suc (suc (suc (suc zero))))))))))))) h =
    refl
code-hex_char
      (suc (suc (suc (suc (suc (suc (suc (suc (suc (suc (suc (suc (suc (suc zero)))))))))))))) h =
    refl
code-hex_char
      (suc (suc (suc (suc (suc (suc (suc (suc (suc (suc (suc (suc (suc (suc (suc zero)))))))))))))))
      h =
    refl
code-hex_char
      (suc
        (suc (suc (suc (suc (suc (suc (suc (suc (suc (suc (suc (suc (suc (suc (suc d))))))))))))))))
      h =
    omega arith

codes-four : (n : ℕ) → n < 65536 → codes (four n) ≡ hex4 n
unfolding hex4
codes-four n h =
    rw
      (
        code-hex_char (n / 4096 % 16) (omega arith),
        code-hex_char (n / 256 % 16) (omega arith),
        code-hex_char (n / 16 % 16) (omega arith),
        code-hex_char (n % 16) (omega arith),
      )
      refl

before_end-all :
    (ds : List ℕ) → all is_hex_digit ds ≡ true → (before_end ds ≡ ds) × (from_end ds ≡ [])
before_end-all [] h = (refl, refl)
before_end-all (d ∷ ds) h = ground (arith, before_end-all ds)

digits :
    (ds : List ℕ)
    → all is_hex_digit ds ≡ true
    → is_empty ds ≡ false
    → length ds ≤ 15
    → strtoi64 ds ≡ (pos (hex_value 0 ds), [])
digits [] h e l = ground arith
digits (d ∷ ds) h e l = ground (arith, before_end-all (d ∷ ds))

negative :
    (ds : List ℕ)
    → all is_hex_digit ds ≡ true
    → is_empty ds ≡ false
    → length ds ≤ 15
    → strtoi64 (b'-' ∷ ds) ≡ (negate (hex_value 0 ds), [])
negative ds h e l = let (a, b) = before_end-all ds h in rw (a, b) refl

apr_laws : AprLaws apr
apr_laws = record {
  codes_format_x4 = λ p n h. codes-append p (four n) ∙ ap (◌++◌ (codes p)) (codes-four n h);
  strtoi64_digits = digits;
  strtoi64_minus = negative;
  natcase_eq_refl = λ s. (text_eq_iff s s).1 refl;
  natcase_eq_folded = λ s t e. ap (λ x. folded (codes x)) ((text_eq_iff s t).0 e);
}

get_version_by_name-get_version_name_example :
    get_version_by_name apr (get_version_name apr 0x0305) ≡ 0x0305
get_version_by_name-get_version_name_example =
    get_version_by_name-get_version_name apr apr_laws 0x0305 (omega arith) (omega arith)

abbrev suite_id : ℕ → ℕ
suite_id s = s

get_cipher_by_name-get_cipher_name_example :
    get_cipher_by_name apr
      (tls_proto_init suite_id (0x1301 ∷ []))
      (get_cipher_name apr (tls_proto_init suite_id (0x1301 ∷ [])) 0x1301)
    ≡ some 0x1301
get_cipher_by_name-get_cipher_name_example =
    get_cipher_by_name-get_cipher_name suite_id (0x1301 ∷ []) apr apr_laws 0x1301 (omega arith)
