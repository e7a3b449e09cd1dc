-- ===== src/Ciphers/Remove.antt =====
-- `tls_util_array_uint16_remove` is the filter of the ids that are not in `others`.
use mod_tls.Base.{
  ℕ, ◌≡◌, refl, inl, inr, false, not, ◌&&◌, none, some, List, [], ◌∷◌, ◌++◌, arith, append-nil,
  append_assoc, keep, if◌then◌else◌, get_or_else, any, Bool-cases, ap,
}
use mod_tls.Ciphers.{contains, remove, remove_loop, remove_round}
use mod_tls.Ciphers.Facts.{contains-keep}

-- The ids that survive.
abbrev pub survivors : List ℕ → List ℕ → List ℕ
survivors from others = keep (λ id. not (contains others id)) from

remove_loop-some :
    (others seen ids na : List ℕ)
    → remove_loop others seen ids (some na) ≡ some (na ++ survivors ids others)
unfolding remove_loop remove_round
remove_loop-some others seen [] na = rw append-nil
remove_loop-some others seen (id ∷ ids) na = elim (Bool-cases (contains others id)) [
  | inl e ↦ rw e (remove_loop-some others (seen ++ id ∷ []) ids na)
  | inr e ↦ rw e (
      rw (remove_loop-some others (seen ++ id ∷ []) ids (na ++ id ∷ []))
        (ap some (append_assoc na (id ∷ []) (survivors ids others))))
]

remove_loop-none :
    (others seen ids : List ℕ)
    → remove_loop others seen ids none
      ≡ (if any (contains others) ids then some (seen ++ survivors ids others) else none)
unfolding remove_loop remove_round
remove_loop-none others seen [] = refl
remove_loop-none others seen (id ∷ ids) = elim (Bool-cases (contains others id)) [
  | inl e ↦ rw e (remove_loop-some others (seen ++ id ∷ []) ids seen)
  | inr e ↦ rw e (
      rw (remove_loop-none others (seen ++ id ∷ []) ids)
        (rw (append_assoc seen (id ∷ []) (survivors ids others))))
]

-- The result is a new array, with the other ids in their order, exactly when some id goes.
pub remove_lem :
    (from others : List ℕ)
    → remove from others
      ≡ (if any (contains others) from then some (survivors from others) else none)
unfolding remove
remove_lem from others = remove_loop-none others [] from

survivors_all :
    (from others : List ℕ) → any (contains others) from ≡ false → survivors from others ≡ from
survivors_all [] others h = refl
survivors_all (x ∷ xs) others h = ground (arith, survivors_all xs others)

-- Read through the pointer, it is the filter in both cases.
pub get_or_else-remove :
    (from others : List ℕ) → get_or_else (remove from others) from ≡ survivors from others
get_or_else-remove from others = elim (Bool-cases (any (contains others) from)) [
  | inl e ↦ rw (remove_lem from others) (rw e)
  | inr e ↦ rw (remove_lem from others, survivors_all from others e) (rw e)
]

pub contains-survivors :
    (from others : List ℕ) (n : ℕ)
    → contains (survivors from others) n ≡ (contains from n && not (contains others n))
contains-survivors from others n =
    ground (arith, contains-keep (λ id. not (contains others id)) from n)
