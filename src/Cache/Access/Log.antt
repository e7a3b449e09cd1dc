-- ===== src/Cache/Access/Log.antt =====
-- Logs of the calls of the mutex and of the accesses to the session cache.
use mod_tls.Base.{
  Bool, true, false, ◌&&◌, ◌||◌, not, List, [], ◌∷◌, ◌++◌, ◌≡◌, refl, append_assoc, arith, Status,
  success, failed,
}
use mod_tls.Cache.Access.{
  Event, acquired, not_acquired, released, not_released, accessed, lock_event, unlock_event,
}

-- Each access stands between a call that locks and the call that unlocks, whether they fail or not.
unfoldable pub bracketed : Bool → List Event → Bool
bracketed begun [] = not begun
bracketed begun (acquired ∷ log) = not begun && bracketed true log
bracketed begun (not_acquired ∷ log) = not begun && bracketed true log
bracketed begun (released ∷ log) = begun && bracketed false log
bracketed begun (not_released ∷ log) = begun && bracketed false log
bracketed begun (accessed ∷ log) = begun && bracketed begun log

-- The mutex is held at each access, and not in the end.
unfoldable pub guarded : Bool → List Event → Bool
guarded held [] = not held
guarded held (acquired ∷ log) = not held && guarded true log
guarded held (not_acquired ∷ log) = guarded held log
guarded held (released ∷ log) = held && guarded false log
guarded held (not_released ∷ log) = guarded held log
guarded held (accessed ∷ log) = held && guarded held log

-- Some call of the mutex failed.
unfoldable pub has_failure : List Event → Bool
has_failure [] = false
has_failure (acquired ∷ log) = has_failure log
has_failure (not_acquired ∷ log) = true
has_failure (released ∷ log) = has_failure log
has_failure (not_released ∷ log) = true
has_failure (accessed ∷ log) = has_failure log

pub bracketed-guarded :
    (held : Bool) (l : List Event)
    → bracketed held l ≡ true
    → (has_failure l || guarded held l) ≡ true
unfolding bracketed guarded has_failure
bracketed-guarded held [] h = ground arith
bracketed-guarded held (acquired ∷ l) h = ground (arith, bracketed-guarded true l)
bracketed-guarded held (not_acquired ∷ l) h = refl
bracketed-guarded held (released ∷ l) h = ground (arith, bracketed-guarded false l)
bracketed-guarded held (not_released ∷ l) h = refl
bracketed-guarded held (accessed ∷ l) h = ground (arith, bracketed-guarded held l)

bracketed-append :
    (begun : Bool) (l m : List Event)
    → bracketed begun l ≡ true
    → bracketed begun (l ++ m) ≡ bracketed false m
unfolding bracketed
bracketed-append begun [] m h = ground arith
bracketed-append begun (acquired ∷ l) m h = ground (arith, bracketed-append true l m)
bracketed-append begun (not_acquired ∷ l) m h = ground (arith, bracketed-append true l m)
bracketed-append begun (released ∷ l) m h = ground (arith, bracketed-append false l m)
bracketed-append begun (not_released ∷ l) m h = ground (arith, bracketed-append false l m)
bracketed-append begun (accessed ∷ l) m h = ground (arith, bracketed-append begun l m)

brackets :
    (a b : Status)
    → (bracketed false (lock_event a ∷ accessed ∷ unlock_event b ∷ []) ≡ true)
      × (bracketed false (lock_event a ∷ accessed ∷ accessed ∷ unlock_event b ∷ []) ≡ true)
unfolding bracketed
brackets success success = (refl, refl)
brackets success (failed e) = (refl, refl)
brackets (failed e) success = (refl, refl)
brackets (failed e) (failed f) = (refl, refl)

pub bracketed_by :
    (a b : Status) (l : List Event)
    → bracketed false l ≡ true
    → (bracketed false (l ++ lock_event a ∷ [] ++ accessed ∷ [] ++ unlock_event b ∷ []) ≡ true)
      × (bracketed false
            (l ++ lock_event a ∷ [] ++ accessed ∷ [] ++ accessed ∷ [] ++ unlock_event b ∷ [])
          ≡ true)
bracketed_by a b l h =
    let x = lock_event a ∷ [] in
    let y = accessed ∷ [] in
    let z = unlock_event b ∷ [] in
    (
      rw
          (
            append_assoc (l ++ x) y z,
            append_assoc l x (y ++ z),
            bracketed-append false l (x ++ (y ++ z)) h,
          )
          (brackets a b).0,
      rw
          (
            append_assoc (l ++ x ++ y) y z,
            append_assoc (l ++ x) y (y ++ z),
            append_assoc l x (y ++ (y ++ z)),
            bracketed-append false l (x ++ (y ++ (y ++ z))) h,
          )
          (brackets a b).1,
    )
