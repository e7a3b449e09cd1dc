-- ===== src/Examples/Cache.antt =====
-- The session cache with a provider that keeps the last value.
use mod_tls.Base.{
  is_empty, ltb, einval, ◌&&◌, ◌<◌, is_some, ℕ, ◌≤◌, true, false, Option, none, some, List, [], ◌∷◌,
  ◌≡◌, refl, Status, success, failed, notfound, ok, leb, if◌then◌else◌, arith, length,
}
use mod_tls.Cache.{CacheConf, Socache, post_config}
use mod_tls.Cache.Setup.{IsSound, post_config-IsSound, directives, initial}
use mod_tls.Cache.Access.{Store, Table, not_acquired, Mutex, released, accessed}
use mod_tls.Cache.Access.Log.{bracketed}
use mod_tls.Cache.Access.Locking.{Fine, serve_all, serve_all_guarded, get_request, put_request}
use mod_tls.Cache.Access.Sessions.{TableLaws}

-- Providers are numbered; 1 is not safe for several processes.
abbrev so : Socache ℕ ℕ ℕ
so = record {
  natcase_eq = λ a b. false;
  lookup_provider = λ name. some 1;
  create = λ p args. (some 5, none);
  not_mpsafe = λ p. true;
  mutex_create = ok 9;
  init = λ p i. success;
  child_init = λ m. (m, success);
}

post_config-IsSound_example :
    IsSound so (post_config so (directives so ("shmcb:x" ∷ []) (initial so))).0
    × (is_some (post_config so (directives so ("shmcb:x" ∷ []) (initial so))).1 ≡ true)
post_config-IsSound_example = post_config-IsSound so (λ p args h. refl) ("shmcb:x" ∷ [])

abbrev found_in : Option (ℕ × List ℕ) → ℕ → ℕ → Status × List ℕ
found_in none now room = (failed notfound, [])
found_in (some (expires, v)) now room =
    if leb (length v) room && ltb now expires then (success, v) else (failed notfound, [])

-- One value for all keys, with its expiry.
abbrev ops : Table ℕ ℕ (Option (ℕ × List ℕ))
ops = record {
  retrieve = λ p i now t key room. (t, found_in t now room);
  remove = λ p i t key. none;
  store = λ p i t key expires val. (some (expires, val), success);
}

-- A mutex whose first call fails.
abbrev mutex : Mutex ℕ
mutex = record {
  mutex_lock = λ m log. if is_empty log then failed einval else success;
  mutex_unlock = λ m log. success;
}

found_in_lem :
    (v : List ℕ) (expires now room : ℕ)
    → length v ≤ room
    → now < expires
    → found_in (some (expires, v)) now room ≡ (success, v)
found_in_lem v expires now room h soon = ground arith

abbrev laws : TableLaws ops
laws = record {
  retrieve_store =
      λ p i t key expires val now room s h soon. found_in_lem val expires now room h soon;
  retrieve_remove = λ p i t key now room. refl;
}

abbrev gc : CacheConf ℕ ℕ ℕ
gc = record {
  session_cache_spec = "shmcb:x";
  session_cache_provider = some 1;
  session_cache = some 5;
  session_cache_mutex = some 9;
}

abbrev empty : Store (Option (ℕ × List ℕ))
empty = record { table = none; log = [] }

abbrev full : Store (Option (ℕ × List ℕ))
full = record {
  table = some (300000000, 3 ∷ 4 ∷ []);
  log = not_acquired ∷ accessed ∷ released ∷ [];
}

serve_all_guarded_example : Fine (
    serve_all mutex ops gc
      (put_request 0 (7 ∷ []) (3 ∷ []) ∷ get_request 5 false (7 ∷ []) true 100 ∷ [])
      empty)
unfolding bracketed
serve_all_guarded_example =
    serve_all_guarded mutex ops gc
      (put_request 0 (7 ∷ []) (3 ∷ []) ∷ get_request 5 false (7 ∷ []) true 100 ∷ []) empty refl refl
      refl
