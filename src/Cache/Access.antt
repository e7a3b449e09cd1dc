-- ===== src/Cache/Access.antt =====
-- `tls_cache_get` and `tls_cache_put` of src/tls_cache.c, by which rustls reads and writes the
-- sessions, under the lock of the module; `Table` is what the provider does, and `Mutex` how the calls
-- of the mutex end. If one of them fails, the code writes a log message and goes on.
pub mod Log
pub mod Locking
pub mod Sessions
use mod_tls.Base.{
  ℕ, zero, suc, ◌+◌, ◌*◌, ◌%◌, ◌^◌, Bool, true, false, ◌&&◌, ◌||◌, not, Option, none, some, is_some,
  List, [], ◌∷◌, ◌++◌, length, take, if◌then◌else◌, Status, success, failed, Failure, notfound,
  is_success,
}
use mod_tls.Cache.{CacheConf}

-- A call that locks the mutex or fails to, a call that unlocks it or fails to, and an access.
pub data Event : Type 0 where
  acquired not_acquired released not_released accessed : Event

-- What the provider keeps (`T`), and what has been done about it.
pub record Store {ℓ} (T : Type ℓ) : Type ℓ where
  pub table : T
  pub log : List Event

-- `apr_global_mutex_lock` and `apr_global_mutex_unlock`, after what has been done so far.
pub record Mutex {ℓ} (M : Type ℓ) : Type ℓ where
  pub mutex_lock : M → List Event → Status
  pub mutex_unlock : M → List Event → Status

pub record Table {ℓ} (P I T : Type ℓ) : Type ℓ where
  -- With the time of the call and the room for the value: what was found.
  pub retrieve : P → I → ℕ → T → List ℕ → ℕ → T × (Status × List ℕ)
  pub remove : P → I → T → List ℕ → T
  -- With the time of expiry, in microseconds.
  pub store : P → I → T → List ℕ → ℕ → List ℕ → T × Status

-- What `tls_cache_get` leaves: the store, `session_id_cache_hit`, the bytes in the buffer up to
-- `*out_n`, and if it returned RUSTLS_RESULT_OK.
pub record Got {ℓ} (T : Type ℓ) : Type ℓ where
  pub store : Store T
  pub session_id_cache_hit : Bool
  pub value : List ℕ
  pub found : Bool

abbrev pub is_notfound : Status → Bool
is_notfound (failed notfound) = true
is_notfound _ = false

-- A cast to `unsigned int`.
abbrev pub to_uint : ℕ → ℕ
to_uint n = n % 2 ^ 32

-- `apr_time_from_sec(300)`
abbrev pub lifetime : ℕ
lifetime = 300 * 1000000

abbrev pub lock_event : Status → Event
lock_event success = acquired
lock_event (failed e) = not_acquired

abbrev pub unlock_event : Status → Event
unlock_event success = released
unlock_event (failed e) = not_released

module _ {ℓ} {P I M T : Type ℓ} (mutex : Mutex M) where
  unfoldable pub lock : CacheConf P I M → Store T → Store T
  lock gc w = elim gc.session_cache_mutex [
    | none ↦ w
    | some m ↦ record w { log = w.log ++ lock_event (mutex.mutex_lock m w.log) ∷ [] }
  ]

  unfoldable pub unlock : CacheConf P I M → Store T → Store T
  unlock gc w = elim gc.session_cache_mutex [
    | none ↦ w
    | some m ↦ record w { log = w.log ++ unlock_event (mutex.mutex_unlock m w.log) ∷ [] }
  ]

module _ {ℓ} {P I T : Type ℓ} (ops : Table P I T) where
  abbrev pub retrieved : P → I → ℕ → List ℕ → ℕ → Store T → Store T × (Status × List ℕ)
  retrieved p i now key count w =
      let r = ops.retrieve p i now w.table key count in
      (record { table = r.0; log = w.log ++ accessed ∷ [] }, r.1)

  abbrev pub removed : P → I → List ℕ → Store T → Store T
  removed p i key w = record { table = ops.remove p i w.table key; log = w.log ++ accessed ∷ [] }

module _ {ℓ} {P I M T : Type ℓ} (mutex : Mutex M) (ops : Table P I T) where
  -- With a provider; `now` is the time, and `hit` is `session_id_cache_hit` before.
  unfoldable pub get_from : CacheConf P I M → P → I → ℕ → Bool → List ℕ → Bool → ℕ → Store T → Got T
  unfolding lock unlock
  get_from gc p i now hit key remove_after count w =
      let kdata = take (to_uint (length key)) key in
      let r = retrieved ops p i now kdata (to_uint count) (lock mutex gc w) in
      let rv = r.1.0 in
      let after =
        if remove_after || (not (is_success rv) && not (is_notfound rv))
        then removed ops p i kdata r.0
        else r.0 in
      record {
        store = unlock mutex gc after;
        session_id_cache_hit = hit || is_success rv;
        value = if is_success rv then r.1.1 else [];
        found = is_success rv;
      }

  -- `none` is a call through a provider that is NULL.
  unfoldable pub get : CacheConf P I M → ℕ → Bool → List ℕ → Bool → ℕ → Store T → Option (Got T)
  get gc now hit key remove_after count w = elim gc.session_cache [
    | none ↦ some record { store = w; session_id_cache_hit = hit; value = []; found = false }
    | some i ↦ elim gc.session_cache_provider [
      | none ↦ none
      | some p ↦ some (get_from gc p i now hit key remove_after count w)
    ]
  ]

  -- The store, and if the result is RUSTLS_RESULT_OK.
  unfoldable pub put_to : CacheConf P I M → P → I → ℕ → List ℕ → List ℕ → Store T → Store T × Bool
  unfolding lock unlock
  put_to gc p i now key val w =
      let locked = lock mutex gc w in
      let r =
        ops.store p i locked.table (take (to_uint (length key)) key) (now + lifetime)
          (take (to_uint (length val)) val) in
      (unlock mutex gc (record { table = r.0; log = locked.log ++ accessed ∷ [] }), is_success r.1)

  unfoldable pub put : CacheConf P I M → ℕ → List ℕ → List ℕ → Store T → Option (Store T × Bool)
  put gc now key val w = elim gc.session_cache [
    | none ↦ some (w, false)
    | some i ↦ elim gc.session_cache_provider [
      | none ↦ none
      | some p ↦ some (put_to gc p i now key val w)
    ]
  ]
