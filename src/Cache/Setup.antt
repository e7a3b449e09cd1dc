-- ===== src/Cache/Setup.antt =====
-- What holds of the session cache's configuration after any directives.
use mod_tls.Base.{
  sym, ◌∙◌, ap, Bool, true, false, ◌&&◌, not, Option, none, some, is_some, String, List, [], ◌∷◌,
  ◌≡◌, refl, inl, inr, if◌then◌else◌, Result, arith, Bool-cases, Option-cases, Result-cases,
}
use mod_tls.Cache.{
  no_mutex, create_failed, not_supported, CacheConf, Socache, CacheError, split_spec, cleanup,
  with_mutex, with_instance, use_spec, cache_init, set_specification, set_session_cache,
  post_config, default_spec,
}

module _ {ℓ} {P I M : Type ℓ} (so : Socache P I M) where
  abbrev unsafe : Option P → Bool
  unsafe none = false
  unsafe (some p) = so.not_mpsafe p

  -- There is a provider exactly when there is an instance, and an unsafe one has a mutex.
  pub record IsSound (gc : CacheConf P I M) : Type ℓ where
    pub paired : is_some gc.session_cache_provider ≡ is_some gc.session_cache
    pub guarded : (unsafe gc.session_cache_provider && not (is_some gc.session_cache_mutex)) ≡ false

  -- A provider that creates without an error gives an instance.
  abbrev pub Creates : Type ℓ
  Creates =
      (p : P) (args : Option String)
      → (so.create p args).1 ≡ none
      → is_some (so.create p args).0 ≡ true

  cleared : (gc : CacheConf P I M) (err : CacheError) → IsSound (cleanup so (gc, some err)).0
  cleared gc err = record { paired = refl; guarded = refl }

  with_mutex-IsSound :
      (p : P) (created : Result M) (gc : CacheConf P I M)
      → gc.session_cache_provider ≡ some p
      → is_some gc.session_cache ≡ true
      → IsSound (cleanup so (with_mutex so p created gc)).0
  with_mutex-IsSound p created gc e h =
      elim (Bool-cases (so.not_mpsafe p && not (is_some gc.session_cache_mutex))) [
        | inl needed ↦ rw needed (elim (Result-cases created) [
          | inl (m, c) ↦
              rw c record {
                paired = ap (λ (o : Option P). is_some o) e ∙ sym h;
                guarded = ground arith;
              }
          | inr (x, c) ↦ rw c (cleared (record gc { session_cache_mutex = none }) (no_mutex x))
        ])
        | inr free ↦
            rw free
              (record { paired = ap (λ (o : Option P). is_some o) e ∙ sym h; guarded = rw e free })
      ]

  with_instance-IsSound :
      (p : P) (made : Option I × Option String) (gc : CacheConf P I M)
      → gc.session_cache_provider ≡ some p
      → (made.1 ≡ none → is_some made.0 ≡ true)
      → IsSound (cleanup so (with_instance so p made gc)).0
  with_instance-IsSound p (instance, some err) gc e h =
      cleared (record gc { session_cache = instance }) (create_failed err)
  with_instance-IsSound p (instance, none) gc e h =
      with_mutex-IsSound p so.mutex_create (record gc { session_cache = instance }) e (h refl)

  use_spec-IsSound : Creates → (gc : CacheConf P I M) → IsSound (use_spec so gc).0
  use_spec-IsSound creates gc =
      let name = (split_spec gc.session_cache_spec).0 in
      let args = (split_spec gc.session_cache_spec).1 in
      elim (Option-cases (so.lookup_provider name)) [
        | inl e ↦ rw e (cleared (record gc { session_cache_provider = none }) (not_supported name))
        | inr (p, e) ↦ rw e (
            with_instance-IsSound p (so.create p args)
              (record gc { session_cache_provider = some p }) refl (creates p args))
      ]

  pub cache_init-IsSound :
      Creates → (gc : CacheConf P I M) → IsSound gc → IsSound (cache_init so gc).0
  unfolding cache_init
  cache_init-IsSound creates gc h = elim (Bool-cases (is_some gc.session_cache)) [
    | inl e ↦ rw e h
    | inr e ↦ rw e (elim (Bool-cases (so.natcase_eq "none" gc.session_cache_spec)) [
      | inl off ↦ rw off (record { paired = refl; guarded = refl })
      | inr on ↦ rw on (
          use_spec-IsSound creates (
            if so.natcase_eq "default" gc.session_cache_spec
            then record gc { session_cache_spec = default_spec so }
            else gc))
    ])
  ]

  -- The configuration after the directives with these values, and `tls_cache_post_config`.
  unfoldable pub directives : List String → CacheConf P I M → CacheConf P I M
  directives [] gc = gc
  directives (v ∷ vs) gc = directives vs (set_session_cache so none v gc).0

  abbrev pub initial : CacheConf P I M
  initial = record {
    session_cache_spec = "default";
    session_cache_provider = none;
    session_cache = none;
    session_cache_mutex = none;
  }

  directives-IsSound :
      Creates → (vs : List String) (gc : CacheConf P I M) → IsSound gc → IsSound (directives vs gc)
  unfolding directives set_session_cache set_specification
  directives-IsSound creates [] gc h = h
  directives-IsSound creates (v ∷ vs) gc h =
      directives-IsSound creates vs (cache_init so (record gc { session_cache_spec = v })).0 (
        cache_init-IsSound creates (record gc { session_cache_spec = v })
          (record { paired = h.paired; guarded = h.guarded }))

  -- For providers that give an instance whenever they create one without an error: after any
  -- TLSSessionCache directives and `tls_cache_post_config`, there is a provider exactly when there
  -- is an instance, a provider that is not safe for several processes has its mutex, and
  -- `tls_cache_post_config` has made no call through a NULL provider.
  pub post_config-IsSound :
      Creates
      → (vs : List String)
      → IsSound (post_config so (directives vs initial)).0
        × (is_some (post_config so (directives vs initial)).1 ≡ true)
  unfolding post_config
  post_config-IsSound creates vs =
      let gc = directives vs initial in
      let h =
        cache_init-IsSound creates gc
          (directives-IsSound creates vs initial (record { paired = refl; guarded = refl })) in
      (h, ground (arith, h.paired))
