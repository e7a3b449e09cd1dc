-- ===== src/Ciphers/Facts.antt =====
-- Membership tests under the list operations that the cipher code uses.
use mod_tls.Base.{ℕ, ◌≡◌, refl, Bool, false, ◌||◌, List, [], ◌∷◌, ◌++◌, arith, keep, if◌then◌else◌}
use mod_tls.Ciphers.{contains}

pub contains-append :
    (xs ys : List ℕ) (n : ℕ) → contains (xs ++ ys) n ≡ (contains xs n || contains ys n)
unfolding contains
contains-append [] ys n = refl
contains-append (x ∷ xs) ys n = ground (arith, contains-append xs ys n)

pub contains-keep :
    (p : ℕ → Bool) (xs : List ℕ) (n : ℕ)
    → contains (keep p xs) n ≡ (if p n then contains xs n else false)
unfolding contains
contains-keep p [] n = ground arith
contains-keep p (x ∷ xs) n = ground (arith, contains-keep p xs n)
