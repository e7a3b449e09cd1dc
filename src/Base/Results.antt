-- ===== src/Base/Results.antt =====
-- apr_status_t, and results of calls that either succeed with a value or fail with a status.
use mathlib.Core.Bool.{Bool, true, false}
use mathlib.Core.Path.{◌≡◌, refl}
use mathlib.Core.Logic.{◌⊎◌, inl, inr}
use Prim.Native.Nat.{ℕ}

-- The codes other than APR_SUCCESS that the module returns by name; `os` is any other.
pub data Failure : Type 0 where
  enoent einval egeneral eof eagain enomem econnaborted econnreset enotimpl notfound : Failure
  os : ℕ → Failure

pub data Status : Type 0 where
  success : Status
  failed : Failure → Status

abbrev pub is_success : Status → Bool
is_success success = true
is_success (failed e) = false

pub data Result {ℓ} (A : Type ℓ) : Type ℓ where
  fail : Failure → Result A
  ok : A → Result A

-- A guard: the failure unless the condition holds.
abbrev pub check : Bool → Failure → Result (Unit {0})
check false status = fail status
check true status = ok tt

module _ {ℓ κ} {A : Type ℓ} {B : Type κ} where
  infixl 5 ◌>>=◌
  -- The rest of a chain, if the call before it succeeds.
  abbrev pub ◌>>=◌ : Result A → (A → Result B) → Result B
  fail status >>= next = fail status
  ok value >>= next = next value

  -- A chain that succeeds does so in both of its parts.
  pub >>=-eq-ok :
      (call : Result A) (next : A → Result B) {out : B}
      → (call >>= next) ≡ ok out
      → (value : A) × (call ≡ ok value) × (next value ≡ ok out)
  >>=-eq-ok (fail status) next done = cc
  >>=-eq-ok (ok value) next done = (value, refl, done)

module _ {κ} {B : Type κ} where
  infixl 5 ◌>>◌
  abbrev pub ◌>>◌ : Result (Unit {0}) → Result B → Result B
  call >> next = call >>= λ done. next

  pub check-eq-ok :
      (condition : Bool) (status : Failure) (next : Result B) {out : B}
      → (check condition status >> next) ≡ ok out
      → (condition ≡ true) × (next ≡ ok out)
  check-eq-ok false status next done = cc
  check-eq-ok true status next done = (refl, done)

pub Status-cases : (s : Status) → (s ≡ success) ⊎ ((e : Failure) × (s ≡ failed e))
Status-cases success = inl refl
Status-cases (failed e) = inr (e, refl)

pub Result-cases {ℓ} :
    {A : Type ℓ} (m : Result A) → ((a : A) × (m ≡ ok a)) ⊎ ((e : Failure) × (m ≡ fail e))
Result-cases (ok a) = inl (a, refl)
Result-cases (fail e) = inr (e, refl)
