-- ===== src/Cache.antt =====
-- The TLS session cache of src/tls_cache.c: its set-up from the TLSSessionCache directive
-- (src/tls_conf.c) to the child process. `P`, `I` and `M` are the providers of the socache of httpd,
-- their instances and global mutexes, and `Socache` is what they and httpd do. `Access` has the
-- functions that rustls calls.
pub mod Setup
pub mod Access
use Prim.Native.Char.{code}
use mod_tls.Base.{
  ℕ, Bool, true, false, ◌&&◌, not, Option, none, some, is_some, String, List, [], ◌∷◌, ◌==◌,
  if◌then◌else◌, Status, success, Failure, Result, ok, fail,
}

-- The fields of tls_conf_global_t.
pub record CacheConf {ℓ} (P I M : Type ℓ) : Type ℓ where
  pub session_cache_spec : String
  pub session_cache_provider : Option P
  pub session_cache : Option I
  pub session_cache_mutex : Option M

pub record Socache {ℓ} (P I M : Type ℓ) : Type ℓ where
  -- `!apr_strnatcasecmp(a, b)`
  pub natcase_eq : String → String → Bool
  -- `ap_lookup_provider`
  pub lookup_provider : String → Option P
  -- The provider's `create`: what `*instance` is then, and the error.
  pub create : P → Option String → Option I × Option String
  -- AP_SOCACHE_FLAG_NOTMPSAFE
  pub not_mpsafe : P → Bool
  -- `ap_global_mutex_create`
  pub mutex_create : Result M
  -- the provider's `init` and `destroy`
  pub init : P → I → Status
  -- `apr_global_mutex_child_init`: what the mutex is then
  pub child_init : M → M × Status

pub data CacheError : Type 0 where
  not_supported : String → CacheError
  create_failed : String → CacheError
  no_mutex : Failure → CacheError
  not_allowed : String → CacheError

-- The text before the first ':', and what is behind it.
unfoldable pub split_spec : String → String × Option String
split_spec String.[] = (String.[], none)
split_spec (String.◌∷◌ c s) =
    let rest = split_spec s in
    if code c == b':' then (String.[], some s) else (String.◌∷◌ c rest.0, rest.1)

module _ {ℓ} {P I M : Type ℓ} (so : Socache P I M) where
  -- From the label `cleanup` on.
  abbrev cleanup : CacheConf P I M × Option CacheError → CacheConf P I M × Option CacheError
  cleanup (gc, none) = (gc, none)
  cleanup (gc, some err) =
      (record gc { session_cache_provider = none; session_cache = none }, some err)

  -- The mutex, which an unsafe provider needs.
  abbrev with_mutex : P → Result M → CacheConf P I M → CacheConf P I M × Option CacheError
  with_mutex p created gc =
      if so.not_mpsafe p && not (is_some gc.session_cache_mutex)
      then elim created [
        | ok m ↦ (record gc { session_cache_mutex = some m }, none)
        | fail e ↦ (record gc { session_cache_mutex = none }, some (no_mutex e))
      ]
      else (gc, none)

  abbrev with_instance :
      P → Option I × Option String → CacheConf P I M → CacheConf P I M × Option CacheError
  with_instance p (instance, some err) gc =
      (record gc { session_cache = instance }, some (create_failed err))
  with_instance p (instance, none) gc =
      with_mutex p so.mutex_create (record gc { session_cache = instance })

  abbrev with_provider :
      String → Option String → Option P → CacheConf P I M → CacheConf P I M × Option CacheError
  with_provider name args none gc =
      (record gc { session_cache_provider = none }, some (not_supported name))
  with_provider name args (some p) gc =
      with_instance p (so.create p args) (record gc { session_cache_provider = some p })

  -- The specification of the default, as the last assignment makes it.
  abbrev default_spec : String
  default_spec = "shmcb:mod_tls-sesss(64000)"

  abbrev use_spec : CacheConf P I M → CacheConf P I M × Option CacheError
  use_spec gc =
      let (name, args) = split_spec gc.session_cache_spec in
      cleanup (with_provider name args (so.lookup_provider name) gc)

  unfoldable pub cache_init : CacheConf P I M → CacheConf P I M × Option CacheError
  unfolding split_spec
  cache_init gc =
      if is_some gc.session_cache
      then (gc, none)
      else if so.natcase_eq "none" gc.session_cache_spec
      then (record gc { session_cache_provider = none; session_cache = none }, none)
      else use_spec (
          if so.natcase_eq "default" gc.session_cache_spec
          then record gc { session_cache_spec = default_spec }
          else gc)

  unfoldable pub set_specification : String → CacheConf P I M → CacheConf P I M × Option CacheError
  set_specification spec gc = cache_init (record gc { session_cache_spec = spec })

  -- The directive TLSSessionCache; `context` is the error of `ap_check_cmd_context`.
  unfoldable pub set_session_cache :
      Option String → String → CacheConf P I M → CacheConf P I M × Option CacheError
  set_session_cache (some err) value gc = (gc, some (not_allowed err))
  set_session_cache none value gc = set_specification value gc

  -- `none` is a call through a provider that is NULL. The error of `cache_init` is only logged.
  unfoldable pub post_config : CacheConf P I M → CacheConf P I M × Option Status
  post_config gc =
      let started = (cache_init gc).0 in
      (
        started,
        elim started.session_cache [
          | none ↦ some success
          | some i ↦ elim started.session_cache_provider [
            | none ↦ none
            | some p ↦ some (so.init p i)
          ]
        ],
      )

  unfoldable pub init_child : CacheConf P I M → CacheConf P I M
  init_child gc = elim gc.session_cache_mutex [
    | none ↦ gc
    | some m ↦ record gc { session_cache_mutex = some (so.child_init m).0 }
  ]

-- What `tls_cache_free` destroys: an instance, or NULL, through its provider.
unfoldable pub free {ℓ} : {P I M : Type ℓ} → CacheConf P I M → Option (P × Option I)
free gc = elim gc.session_cache_provider [ none ↦ none | some p ↦ some (p, gc.session_cache) ]
