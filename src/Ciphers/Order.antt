-- ===== src/Ciphers/Order.antt =====
-- `calc_ciphers` against its description: the preferred allowed ids, then the other allowed ones.
use mod_tls.Base.{
  ℕ, ◌≡◌, refl, inl, inr, Bool, true, false, not, ◌&&◌, Option, none, some, List, [], ◌∷◌, ◌++◌,
  arith, append-nil, append_assoc, keep, if◌then◌else◌, get_or_else, any, is_empty, Bool-cases, ap,
  sym, ◌∙◌,
}
use mod_tls.Ciphers.{
  Picked, push, contains, pick_round, pick_loop, append_loop, combine, picked, calc_ciphers,
}
use mod_tls.Ciphers.Facts.{contains-append, contains-keep}
use mod_tls.Ciphers.Remove.{survivors, remove_lem, get_or_else-remove}

-- No id occurs twice.
abbrev pub distinct : List ℕ → Bool
distinct [] = true
distinct (x ∷ xs) = not (contains xs x) && distinct xs

push_all : Option (List ℕ) → List ℕ → Option (List ℕ)
push_all o [] = o
push_all o (x ∷ xs) = push_all (push o x) xs

push_all-some : (a xs : List ℕ) → push_all (some a) xs ≡ some (a ++ xs)
unfolding push_all
push_all-some a [] = rw append-nil
push_all-some a (x ∷ xs) = push_all-some (a ++ x ∷ []) xs ∙ ap some (append_assoc a (x ∷ []) xs)

push_all-none : (xs : List ℕ) → push_all none xs ≡ (if is_empty xs then none else some xs)
unfolding push_all
push_all-none [] = refl
push_all-none (x ∷ xs) = push_all-some (x ∷ []) xs

ordered-pick_round :
    (supported ciphers : List ℕ) (id : ℕ) (s : Picked)
    → (pick_round supported ciphers id s).ordered
      ≡ (if contains ciphers id then push s.ordered id else s.ordered)
unfolding pick_round
ordered-pick_round supported ciphers id s = ground arith

ordered-pick_loop :
    (supported ciphers prefs : List ℕ) (s : Picked)
    → (pick_loop supported ciphers prefs s).ordered
      ≡ push_all s.ordered (keep (contains ciphers) prefs)
unfolding pick_loop push_all
ordered-pick_loop supported ciphers [] s = refl
ordered-pick_loop supported ciphers (id ∷ prefs) s = elim (Bool-cases (contains ciphers id)) [
  | inl e ↦
      rw (ordered-pick_loop supported ciphers prefs (pick_round supported ciphers id s))
        (rw (ordered-pick_round supported ciphers id s) (rw e))
  | inr e ↦
      rw (ordered-pick_loop supported ciphers prefs (pick_round supported ciphers id s))
        (rw (ordered-pick_round supported ciphers id s) (rw e))
]

survivors-snoc :
    (ids ordered : List ℕ) (id : ℕ)
    → contains ids id ≡ false
    → survivors ids (ordered ++ id ∷ []) ≡ survivors ids ordered
unfolding contains
survivors-snoc [] ordered id h = refl
survivors-snoc (x ∷ ids) ordered id h =
    ground (arith, survivors-snoc ids ordered id, contains-append ordered (id ∷ []) x)

append_loop_lem :
    (ids ordered : List ℕ)
    → distinct ids ≡ true
    → append_loop ordered ids ≡ ordered ++ survivors ids ordered
unfolding append_loop
append_loop_lem [] ordered h = sym (append-nil ordered)
append_loop_lem (id ∷ ids) ordered h = elim (Bool-cases (contains ordered id)) [
  | inl e ↦ rw e (append_loop_lem ids ordered (ground arith))
  | inr e ↦ rw e (
      rw (append_loop_lem ids (ordered ++ id ∷ []) (ground arith)) (
        rw (survivors-snoc ids ordered id (ground arith))
          (append_assoc ordered (id ∷ []) (survivors ids ordered))))
]

-- The preferred ids that are allowed, in the order of preference.
abbrev pub picks : List ℕ → List ℕ → List ℕ
picks allowed pref = keep (contains allowed) pref

ordered-picked :
    (supported pref supp : List ℕ)
    → (picked supported pref supp).ordered
      ≡ (let p = picks (survivors supported supp) pref in if is_empty p then none else some p)
unfolding picked
ordered-picked supported pref supp =
    rw (get_or_else-remove supported supp)
      (ordered-pick_loop supported (survivors supported supp) pref _ ∙ push_all-none _)

contains-keep-false :
    (p : ℕ → Bool) (xs : List ℕ) (n : ℕ) → contains xs n ≡ false → contains (keep p xs) n ≡ false
contains-keep-false p xs n h = ground (arith, contains-keep p xs n)

distinct-keep : (p : ℕ → Bool) (xs : List ℕ) → distinct xs ≡ true → distinct (keep p xs) ≡ true
distinct-keep p [] h = refl
distinct-keep p (x ∷ xs) h = ground (arith, distinct-keep p xs, contains-keep-false p xs x)

-- Let `allowed` be the supported ciphers that are not suppressed and `p` the preferred ones among
-- them, and let no cipher be supported twice. If `p` is empty, the result is `allowed`, or NULL if
-- nothing is suppressed that is supported. Else it is `p` followed by the rest of `allowed`.
pub calc_ciphers_lem :
    (supported pref supp : List ℕ)
    → distinct supported ≡ true
    → calc_ciphers supported pref supp ≡ (
        let allowed = survivors supported supp in
        let p = picks allowed pref in
        if is_empty p
        then (if any (contains supp) supported then some allowed else none)
        else some (p ++ survivors allowed p))
unfolding calc_ciphers combine
calc_ciphers_lem supported pref supp h =
    elim (Bool-cases (is_empty (picks (survivors supported supp) pref))) [
      | inl e ↦ rw (ordered-picked supported pref supp) (rw e (rw (remove_lem supported supp) refl))
      | inr e ↦ rw (ordered-picked supported pref supp) (
          rw e (
            rw (get_or_else-remove supported supp) (
              ap some (
                append_loop_lem (survivors supported supp) (picks (survivors supported supp) pref)
                  (distinct-keep (λ id. not (contains supp id)) supported h)))))
    ]

-- The ids that rustls is told to use, with its defaults for NULL.
abbrev pub effective : List ℕ → List ℕ → List ℕ → List ℕ
effective supported pref supp = get_or_else (calc_ciphers supported pref supp) supported
