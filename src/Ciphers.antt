-- ===== src/Ciphers.antt =====
-- Cipher preferences and suppression: `tls_util_array_uint16_contains` and
-- `tls_util_array_uint16_remove` of src/tls_util.c, and `calc_ciphers` of src/tls_core.c.
-- An array of ids is a list. `na == NULL` and `ordered_ciphers == NULL` are `none`; so `remove`
-- returns `none` where the C function returns the pointer `from` itself.
pub mod Remove
pub mod Order
pub mod Facts
use mod_tls.Base.{
  ℕ, ◌≡◌, Bool, true, false, not, ◌||◌, Option, none, some, List, [], ◌∷◌, ◌++◌, ◌==◌,
  if◌then◌else◌, get_or_else, is_some,
}

unfoldable pub contains : List ℕ → ℕ → Bool
contains [] n = false
contains (x ∷ xs) n = if x == n then true else contains xs n

-- One round of the loop: `seen` holds the elements before index `i`.
remove_round : List ℕ → List ℕ → ℕ → Option (List ℕ) → Option (List ℕ)
remove_round others seen id none = if contains others id then some seen else none
remove_round others seen id (some na) = if contains others id then some na else some (na ++ id ∷ [])

remove_loop : List ℕ → List ℕ → List ℕ → Option (List ℕ) → Option (List ℕ)
remove_loop others seen [] na = na
remove_loop others seen (id ∷ ids) na =
    remove_loop others (seen ++ id ∷ []) ids (remove_round others seen id na)

pub remove : List ℕ → List ℕ → Option (List ℕ)
remove from others = remove_loop others [] from none

-- What the loop over `pref_ciphers` carries: the arrays `ordered_ciphers` and `unsupported`.
pub record Picked : Type 0 where
  pub ordered : Option (List ℕ)
  pub unsupported : Option (List ℕ)

abbrev pub push : Option (List ℕ) → ℕ → Option (List ℕ)
push xs id = some (get_or_else xs [] ++ id ∷ [])

pick_round : List ℕ → List ℕ → ℕ → Picked → Picked
pick_round supported ciphers id s =
    if contains ciphers id
    then record s { ordered = push s.ordered id }
    else if contains supported id
    then s
    else record s { unsupported = push s.unsupported id }

pick_loop : List ℕ → List ℕ → List ℕ → Picked → Picked
pick_loop supported ciphers [] s = s
pick_loop supported ciphers (id ∷ prefs) s =
    pick_loop supported ciphers prefs (pick_round supported ciphers id s)

-- The loop that appends the allowed ciphers that are not yet there.
append_loop : List ℕ → List ℕ → List ℕ
append_loop ordered [] = ordered
append_loop ordered (id ∷ ids) =
    append_loop (if contains ordered id then ordered else ordered ++ id ∷ []) ids

-- `ciphers` after both loops, and whether it is another array than `supported`.
combine : List ℕ → Option (List ℕ) → Option (List ℕ) → Option (List ℕ)
combine supported removed none = removed
combine supported removed (some ordered) =
    some (append_loop ordered (get_or_else removed supported))

picked : List ℕ → List ℕ → List ℕ → Picked
picked supported pref supp =
    pick_loop supported (get_or_else (remove supported supp) supported) pref
      (record { ordered = none; unsupported = none })

-- `*pciphers`: `none` is NULL, which leaves rustls at its own defaults.
pub calc_ciphers : List ℕ → List ℕ → List ℕ → Option (List ℕ)
calc_ciphers supported pref supp =
    combine supported (remove supported supp) (picked supported pref supp).ordered

-- The preferred ids that a warning lists.
pub unsupported_prefs : List ℕ → List ℕ → List ℕ → List ℕ
unsupported_prefs supported pref supp = get_or_else (picked supported pref supp).unsupported []
