-- ===== src/Cache/Access/Sessions.antt =====
-- What a get finds after a put.
use mod_tls.Base.{
  Option-cases, [], inl, inr, sym, [], sym, ℕ, ◌≤◌, ◌<◌, ◌^◌, Bool, true, false, Option, some, List,
  ◌≡◌, refl, ap, ◌∙◌, length, take, success, failed, notfound,
}
use mod_tls.Cache.{CacheConf}
use mod_tls.Cache.Access.{
  Mutex, removed, retrieved, Store, Table, Got, lock, unlock, get_from, get, to_uint,
}

-- A table keeps what it stores until it expires or is removed, and gives it back if there is room
-- for it.
pub record TableLaws {ℓ} {P I T : Type ℓ} (ops : Table P I T) : Type ℓ where
  pub retrieve_store :
      (p : P) (i : I) (t : T) (key : List ℕ) (expires : ℕ) (val : List ℕ) (now room : ℕ)
      → (ops.store p i t key expires val).1 ≡ success
      → length val ≤ room
      → now < expires
      → (ops.retrieve p i now (ops.store p i t key expires val).0 key room).1 ≡ (success, val)
  pub retrieve_remove :
      (p : P) (i : I) (t : T) (key : List ℕ) (now room : ℕ)
      → (ops.retrieve p i now (ops.remove p i t key) key room).1.0 ≡ failed notfound

abbrev Small : List ℕ → Type 0
Small l = length l < 2 ^ 32

-- The value was found, and the connection notes it.
abbrev pub Finds {ℓ} : {T : Type ℓ} → List ℕ → Option (Got T) → Type ℓ
Finds val o =
    (g : Got _) × (o ≡ some g)
    × (g.found ≡ true)
    × (g.value ≡ val)
    × (g.session_id_cache_hit ≡ true)

abbrev pub Misses {ℓ} : {T : Type ℓ} → Option (Got T) → Type ℓ
Misses o = (g : Got _) × (o ≡ some g) × (g.found ≡ false) × (g.value ≡ [])

module _ {ℓ} {P I M T : Type ℓ} (mutex : Mutex M) where
  lock_table : (gc : CacheConf P I M) (w : Store T) → (lock mutex gc w).table ≡ w.table
  unfolding lock
  lock_table gc w = elim (Option-cases gc.session_cache_mutex) [
    | inl e ↦ rw e refl
    | inr (m, e) ↦ rw e refl
  ]

  unlock_table : (gc : CacheConf P I M) (w : Store T) → (unlock mutex gc w).table ≡ w.table
  unfolding unlock
  unlock_table gc w = elim (Option-cases gc.session_cache_mutex) [
    | inl e ↦ rw e refl
    | inr (m, e) ↦ rw e refl
  ]

injected {ℓ} : {A : Type ℓ} {x y : A} → some x ≡ some y → x ≡ y
injected h = cc

module _ {ℓ} {P I M T : Type ℓ} (mutex : Mutex M) (ops : Table P I T) (laws : TableLaws ops) where
  get-some :
      (gc : CacheConf P I M) (i : I) (p : P) (now : ℕ) (hit : Bool) (key : List ℕ)
      (remove_after : Bool) (count : ℕ) (w : Store T)
      → gc.session_cache ≡ some i
      → gc.session_cache_provider ≡ some p
      → get mutex ops gc now hit key remove_after count w
        ≡ some (get_from mutex ops gc p i now hit key remove_after count w)
  unfolding get get_from lock unlock
  get-some gc i p now hit key remove_after count w c q = rw (c, q) refl

  -- With a provider that keeps what it stores: after a get with `remove_after`, whatever it found,
  -- the next get of that key returns RUSTLS_RESULT_NOT_FOUND, without a value.
  pub get_once :
      (gc : CacheConf P I M) (i : I) (p : P) (now now' : ℕ) (hit hit' : Bool) (key : List ℕ)
      (again : Bool) (count count' : ℕ) (w : Store T) (g : Got T)
      → gc.session_cache ≡ some i
      → gc.session_cache_provider ≡ some p
      → get mutex ops gc now hit key true count w ≡ some g
      → Misses (get mutex ops gc now' hit' key again count' g.store)
  get_once gc i p now now' hit hit' key again count count' w g c q h =
      let kdata = take (to_uint (length key)) key in
      let e : get_from mutex ops gc p i now hit key true count w ≡ g =
        injected (sym (get-some gc i p now hit key true count w c q) ∙ h) in
      let r0 = retrieved ops p i now kdata (to_uint count) (lock mutex gc w) in
      let table : (lock mutex gc g.store).table ≡ ops.remove p i r0.0.table kdata =
        lock_table mutex gc g.store
        ∙ sym (ap (λ (x : Got T). x.store.table) e)
        ∙ (unfold get_from in unlock_table mutex gc (removed ops p i kdata r0.0)) in
      let gone : (ops.retrieve p i now' (lock mutex gc g.store).table kdata (to_uint count')).1.0
          ≡ failed notfound =
        rw table (laws.retrieve_remove p i r0.0.table kdata now' (to_uint count')) in
      (
        get_from mutex ops gc p i now' hit' key again count' g.store,
        get-some gc i p now' hit' key again count' g.store c q,
        unfold get_from in rw gone refl,
        unfold get_from in rw gone refl,
      )
