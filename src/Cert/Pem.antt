-- ===== src/Cert/Pem.antt =====
-- `tls_der_to_pem` stays within its buffer.
use mod_tls.Base.{
  ap, ◌∙◌, codes, ◌⊎◌, ◌⊎◌, ℕ, zero, suc, ◌+◌, ◌*◌, ◌/◌, ◌≤◌, Option, none, some, List, [], ◌∷◌,
  ◌++◌, String, ◌≡◌, refl, length, length-append, take, drop, arith, ok, inl, inr,
}
use mod_tls.Cert.{CertEnv, newline, pem_lines, text_line, text_len, der_to_pem}

-- Documented of base64: four characters for three bytes, and a length that is computed beforehand
-- is not too small.
pub record Base64Laws (env : CertEnv) : Type 0 where
  pub length-base64 : (xs : List ℕ) → length (env.base64 xs) ≡ 4 * ((length xs + 2) / 3)
  pub base64_len_le : (n : ℕ) → 4 * ((n + 2) / 3) ≤ env.base64_len n

length-take :
    (n : ℕ) (xs : List ℕ)
    → (length (take n xs) ≤ n) × (length (take n xs) + length (drop n xs) ≡ length xs)
length-take zero xs = omega arith
length-take (suc n) [] = (omega arith, refl)
length-take (suc n) (x ∷ xs) = omega (arith, length-take n xs)

take_short : (n : ℕ) (xs : List ℕ) → (length (take n xs) ≡ n) ⊎ (drop n xs ≡ [])
take_short zero xs = inl refl
take_short (suc n) [] = inr refl
take_short (suc n) (x ∷ xs) = elim (take_short n xs) [
  | inl e ↦ inl (omega (arith, e))
  | inr e ↦ inr e
]

pem_lines_empty : (env : CertEnv) (fuel : ℕ) → pem_lines env fuel [] ≡ []
unfolding pem_lines
pem_lines_empty env zero = refl
pem_lines_empty env (suc fuel) = refl

length-line :
    (env : CertEnv)
    → Base64Laws env
    → (xs ys : List ℕ)
    → length (env.base64 xs ++ newline ++ ys) ≡ 4 * ((length xs + 2) / 3) + 1 + length ys
length-line env laws xs ys = omega (
  arith,
  length-append (env.base64 xs ++ newline) ys,
  length-append (env.base64 xs) newline,
  laws.length-base64 xs,
)

-- The lines and their line ends, whatever the fuel.
length-pem_lines :
    (env : CertEnv)
    → Base64Laws env
    → (fuel : ℕ) (der : List ℕ)
    → length (pem_lines env fuel der) ≤ 4 * ((length der + 2) / 3) + length der / 48 + 1
unfolding pem_lines
length-pem_lines env laws zero der = omega arith
length-pem_lines env laws (suc fuel) [] = omega arith
length-pem_lines env laws (suc fuel) (d ∷ ds) =
    let line = length-line env laws (d ∷ take 47 ds) (pem_lines env fuel (drop 47 ds)) in
    let (short, parts) = length-take 47 ds in
    elim (take_short 47 ds) [
      | inl e ↦ omega (arith, line, parts, e, length-pem_lines env laws fuel (drop 47 ds))
      | inr e ↦ omega (
        arith,
        line,
        parts,
        short,
        ap length (ap (pem_lines env fuel) e ∙ pem_lines_empty env fuel),
      )
    ]

length-text_line : (text : Option String) → length (text_line text) ≤ text_len text + 1
length-text_line none = omega arith
length-text_line (some text) = omega (arith, length-append (codes text) newline)

pem_of :
    (env : CertEnv) (der : List ℕ) (header footer : Option String) (size : ℕ) (pem : List ℕ)
    → der_to_pem env der header footer ≡ ok (size, pem)
    → (env.base64_len (length der)
          + length der / 48
          + 1
          + text_len header
          + 1
          + text_len footer
          + 1
          + 1
        ≡ size)
      × (text_line header ++ pem_lines env (length der) der ++ text_line footer ≡ pem)
unfolding der_to_pem
pem_of env der header footer size pem h = ground arith

-- The buffer that is allocated holds all that is written and the NUL.
pub der_to_pem_fits :
    (env : CertEnv) (der : List ℕ) (header footer : Option String) (size : ℕ) (pem : List ℕ)
    → Base64Laws env
    → der_to_pem env der header footer ≡ ok (size, pem)
    → length pem + 1 ≤ size
unfolding der_to_pem
der_to_pem_fits env der header footer size pem laws h =
    let (sized, written) = pem_of env der header footer size pem h in
    omega (
      arith,
      sized,
      length-append (text_line header ++ pem_lines env (length der) der) (text_line footer),
      length-append (text_line header) (pem_lines env (length der) der),
      length-text_line header,
      length-text_line footer,
      length-pem_lines env laws (length der) der,
      laws.base64_len_le (length der),
      ap length written,
    )
