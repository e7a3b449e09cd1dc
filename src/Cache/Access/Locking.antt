-- ===== src/Cache/Access/Locking.antt =====
-- The order of the locks and the accesses to the store.
use mod_tls.Base.{
  ◌∙◌, Status, ◌+◌, ◌⊎◌, Option-cases, is_success, length, take, ℕ, Bool, true, false, ◌&&◌, ◌||◌,
  not, Option, none, some, is_some, List, [], ◌∷◌, ◌++◌, ◌≡◌, refl, ap, inl, inr, if◌then◌else◌,
  arith, Option-cases,
}
use mod_tls.Cache.{CacheConf}
use mod_tls.Cache.Access.Log.{bracketed, guarded, has_failure, bracketed-guarded, bracketed_by}
use mod_tls.Cache.Access.{
  Mutex, lock_event, unlock_event, lifetime, removed, is_notfound, retrieved, to_uint, Event,
  accessed, Store, Table, Got, lock, unlock, get_from, get, put_to, put,
}

-- What rustls asks of the cache.
pub data Request : Type 0 where
  get_request : ℕ → Bool → List ℕ → Bool → ℕ → Request
  put_request : ℕ → List ℕ → List ℕ → Request

module _ {ℓ} {T : Type ℓ} where
  abbrev store_of : Option (Got T) → Option (Store T)
  store_of none = none
  store_of (some g) = some g.store

  abbrev left : Option (Store T × Bool) → Option (Store T)
  left none = none
  left (some r) = some r.0

  -- No crash, and the accesses are in order: they stand between the calls of the mutex, and hold it
  -- unless one of these failed.
  abbrev pub Fine : Option (Store T) → Type ℓ
  Fine o =
      (w : Store T) × (o ≡ some w)
      × (bracketed false w.log ≡ true)
      × ((has_failure w.log || guarded false w.log) ≡ true)

module _ {ℓ} {P I M T : Type ℓ} (mutex : Mutex M) (ops : Table P I T) where
  abbrev pub serve : CacheConf P I M → Request → Store T → Option (Store T)
  serve gc (get_request now hit key remove_after count) w =
      store_of (get mutex ops gc now hit key remove_after count w)
  serve gc (put_request now key val) w = left (put mutex ops gc now key val w)

  -- All requests, one after the other; `none` is a crash in one of them.
  unfoldable pub serve_all : CacheConf P I M → List Request → Store T → Option (Store T)
  serve_all gc [] w = some w
  serve_all gc (r ∷ rs) w = elim (serve gc r w) [ none ↦ none | some w' ↦ serve_all gc rs w' ]

  lock_log :
      (gc : CacheConf P I M) (w : Store T)
      → is_some gc.session_cache_mutex ≡ true
      → (a : Status) × ((lock mutex gc w).log ≡ w.log ++ lock_event a ∷ [])
  unfolding lock
  lock_log gc w m = elim (Option-cases gc.session_cache_mutex) [
    | inl e ↦ absurd (ground arith)
    | inr (x, e) ↦ (mutex.mutex_lock x w.log, rw e refl)
  ]

  unlock_log :
      (gc : CacheConf P I M) (w : Store T)
      → is_some gc.session_cache_mutex ≡ true
      → (b : Status) × ((unlock mutex gc w).log ≡ w.log ++ unlock_event b ∷ [])
  unfolding unlock
  unlock_log gc w m = elim (Option-cases gc.session_cache_mutex) [
    | inl e ↦ absurd (ground arith)
    | inr (x, e) ↦ (mutex.mutex_unlock x w.log, rw e refl)
  ]

  -- After the lock, one or two accesses and the unlock.
  accesses_log :
      (gc : CacheConf P I M) (twice : Bool) (x y : Store T) (l : List Event) (a : Status)
      → is_some gc.session_cache_mutex ≡ true
      → bracketed false l ≡ true
      → x.log ≡ l ++ lock_event a ∷ [] ++ accessed ∷ [] ++ accessed ∷ []
      → y.log ≡ l ++ lock_event a ∷ [] ++ accessed ∷ []
      → bracketed false (unlock mutex gc (if twice then x else y)).log ≡ true
  accesses_log gc true x y l a m h ex ey =
      let (b, e) = unlock_log gc x m in
      ap (λ (k : List Event). bracketed false k)
        (e ∙ ap (λ (k : List Event). k ++ unlock_event b ∷ []) ex)
      ∙ (bracketed_by a b l h).1
  accesses_log gc false x y l a m h ex ey =
      let (b, e) = unlock_log gc y m in
      ap (λ (k : List Event). bracketed false k)
        (e ∙ ap (λ (k : List Event). k ++ unlock_event b ∷ []) ey)
      ∙ (bracketed_by a b l h).0

  get_from_log :
      (gc : CacheConf P I M) (p : P) (i : I) (now : ℕ) (hit : Bool) (key : List ℕ)
      (remove_after : Bool) (count : ℕ) (w : Store T)
      → is_some gc.session_cache_mutex ≡ true
      → bracketed false w.log ≡ true
      → bracketed false (get_from mutex ops gc p i now hit key remove_after count w).store.log
        ≡ true
  unfolding get_from
  get_from_log gc p i now hit key remove_after count w m h =
      let r =
        retrieved ops p i now (take (to_uint (length key)) key) (to_uint count) (lock mutex gc w) in
      let rv = r.1.0 in
      let (a, e) = lock_log gc w m in
      accesses_log gc (remove_after || (not (is_success rv) && not (is_notfound rv)))
        (removed ops p i (take (to_uint (length key)) key) r.0) r.0 w.log a m h
        (ap (λ (l : List Event). l ++ accessed ∷ [] ++ accessed ∷ []) e)
        (ap (λ (l : List Event). l ++ accessed ∷ []) e)

  put_to_log :
      (gc : CacheConf P I M) (p : P) (i : I) (now : ℕ) (key val : List ℕ) (w : Store T)
      → is_some gc.session_cache_mutex ≡ true
      → bracketed false w.log ≡ true
      → bracketed false (put_to mutex ops gc p i now key val w).0.log ≡ true
  unfolding put_to
  put_to_log gc p i now key val w m h =
      let (a, e) = lock_log gc w m in
      let stored : Store T = record {
        table =
            (ops.store p i (lock mutex gc w).table (take (to_uint (length key)) key)
              (now + lifetime) (take (to_uint (length val)) val)).0;
        log = (lock mutex gc w).log ++ accessed ∷ [];
      } in
      let (b, f) = unlock_log gc stored m in
      ap (λ (k : List Event). bracketed false k)
        (f ∙ ap (λ (k : List Event). k ++ accessed ∷ [] ++ unlock_event b ∷ []) e)
      ∙ (bracketed_by a b w.log h).0

  -- A cache has its provider.
  pub cache_cases :
      (gc : CacheConf P I M)
      → is_some gc.session_cache_provider ≡ is_some gc.session_cache
      → (gc.session_cache ≡ none)
        ⊎ ((i : I) × (p : P) × (gc.session_cache ≡ some i) × (gc.session_cache_provider ≡ some p))
  cache_cases gc e = elim (Option-cases gc.session_cache) [
    | inl c ↦ inl c
    | inr (i, c) ↦ elim (Option-cases gc.session_cache_provider) [
      | inl q ↦ absurd (ground arith)
      | inr (p, q) ↦ inr (i, p, c, q)
    ]
  ]

  get_eq :
      (gc : CacheConf P I M) (i : I) (p : P) (now : ℕ) (hit : Bool) (key : List ℕ)
      (remove_after : Bool) (count : ℕ) (w : Store T)
      → gc.session_cache ≡ some i
      → gc.session_cache_provider ≡ some p
      → store_of (get mutex ops gc now hit key remove_after count w)
        ≡ some (get_from mutex ops gc p i now hit key remove_after count w).store
  unfolding get
  get_eq gc i p now hit key remove_after count w c q =
      rw (c, q) (unfold get_from lock unlock in refl)

  put_eq :
      (gc : CacheConf P I M) (i : I) (p : P) (now : ℕ) (key val : List ℕ) (w : Store T)
      → gc.session_cache ≡ some i
      → gc.session_cache_provider ≡ some p
      → left (put mutex ops gc now key val w) ≡ some (put_to mutex ops gc p i now key val w).0
  unfolding put
  put_eq gc i p now key val w c q = rw (c, q) (unfold put_to lock unlock in refl)

  serve-Fine :
      (gc : CacheConf P I M) (r : Request) (w : Store T)
      → is_some gc.session_cache_provider ≡ is_some gc.session_cache
      → is_some gc.session_cache_mutex ≡ true
      → bracketed false w.log ≡ true
      → Fine (serve gc r w)
  unfolding get put
  serve-Fine gc (get_request now hit key remove_after count) w e m h = elim (cache_cases gc e) [
    | inl c ↦ rw c (w, refl, h, bracketed-guarded false w.log h)
    | inr (i, p, c, q) ↦
        let k = get_from_log gc p i now hit key remove_after count w m h in
        let g = get_from mutex ops gc p i now hit key remove_after count w in
        (
          g.store,
          get_eq gc i p now hit key remove_after count w c q,
          k,
          bracketed-guarded false g.store.log k,
        )
  ]
  serve-Fine gc (put_request now key val) w e m h = elim (cache_cases gc e) [
    | inl c ↦ rw c (w, refl, h, bracketed-guarded false w.log h)
    | inr (i, p, c, q) ↦
        let k = put_to_log gc p i now key val w m h in
        let w' = (put_to mutex ops gc p i now key val w).0 in
        (w', put_eq gc i p now key val w c q, k, bracketed-guarded false w'.log k)
  ]

  -- For a cache that has its provider and its mutex, and any requests of rustls one after the
  -- other: no call goes through a NULL provider, and in the log each access to the store stands
  -- between a call that locks the mutex and the call that unlocks it. Unless one of these calls has
  -- failed, the mutex is held at each access, and not in the end.
  pub serve_all_guarded :
      (gc : CacheConf P I M) (rs : List Request) (w : Store T)
      → is_some gc.session_cache_provider ≡ is_some gc.session_cache
      → is_some gc.session_cache_mutex ≡ true
      → bracketed false w.log ≡ true
      → Fine (serve_all gc rs w)
  unfolding serve_all
  serve_all_guarded gc [] w e m h = (w, refl, h, bracketed-guarded false w.log h)
  serve_all_guarded gc (r ∷ rs) w e m h =
      let (w1, e1, h1, g1) = serve-Fine gc r w e m h in
      rw (serve_all, e1) (serve_all_guarded gc rs w1 e m h1)
