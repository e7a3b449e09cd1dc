-- ===== src/Hooks.antt =====
-- The hooks of src/mod_tls.c that decide something. The others call one function of another part
-- each: `tls_init_child`, `hook_connection` and `tls_pre_config`.
use mod_tls.Base.{
  ◌⊎◌, Bool-cases, inl, inr, ◌==◌, ℕ, Bool, true, false, not, ◌&&◌, ◌||◌, ◌≡◌, refl, Option, none,
  some, String, if◌then◌else◌, Status, success, failed, arith,
}
use mod_tls.Conf.{ConfStatus, init, incoming_done, outgoing_done, done, DirConf, ServerConf}
use mod_tls.Conn.{
  ConnState, Conn, ConnRec, conn_disable, conn_bind, setup_outgoing, check_ssl, rank,
}
use mod_tls.Conn.Lifecycle.{state_of}
use mod_tls.Filter.Setup.{Fresh, filter_pre_conn_init}
use mod_tls.Core.Start.{Phases, tls_core_init, incoming_phase, outgoing_phase, last_phase}

module _ {ℓ} {W : Type ℓ} (phases : Phases W) where
  -- The first call only notes that it was there, in the pool of the process; both go on. The flag
  -- is if there was a call before.
  unfoldable pub post_config : Bool × (W × ConfStatus) → (Bool × (W × ConfStatus)) × Status
  post_config (called, s) = let r = tls_core_init phases s in ((true, r.0), r.1)

  -- `set_done` sets `mod_proxy_post_config_done`.
  unfoldable pub post_proxy_config : (W → W) → W × ConfStatus → (W × ConfStatus) × Status
  post_proxy_config set_done (w, status) = tls_core_init phases (set_done w, status)

-- `true` is OK and `false` is DECLINED.
unfoldable pub ssl_outgoing : DirConf → Option DirConf → Bool → ConnRec → ConnRec × Bool
ssl_outgoing lookup_defaults dir_conf enable_ssl c =
    let bound = conn_bind c dir_conf in
    let r = setup_outgoing lookup_defaults bound in
    if enable_ssl
    then if r.1 then (r.0, true) else (conn_disable r.0, false)
    else (conn_disable bound, false)

-- For older servers; `module_ssl_engine_set` is the function of another module, if there is one, and
-- `none` is its absence.
unfoldable pub ssl_engine_set :
    Option (ConnRec → Bool → Bool → ConnRec × Bool)
    → DirConf
    → Option DirConf
    → Bool
    → Bool
    → ConnRec
    → ConnRec × Bool
ssl_engine_set other lookup_defaults dir_conf proxy enable c =
    let bound = conn_bind c dir_conf in
    let r = setup_outgoing lookup_defaults bound in
    let c1 = if enable then r.0 else bound in
    let c2 = if proxy || not enable then conn_disable c1 else c1 in
    if enable && r.1
    then elim other [ none ↦ (r.0, true) | some set ↦ ((set r.0 proxy false).0, true) ]
    else elim other [ none ↦ (c2, false) | some set ↦ set c2 proxy enable ]

-- `is_secondary` is `c->master`.
unfoldable pub pre_connection : Bool → (ℕ → ServerConf) → ConnRec → ConnRec × Option Fresh
pre_connection is_secondary servers c =
    if is_secondary then (c, none) else filter_pre_conn_init servers c

unfoldable pub http_scheme : Option Conn → Option String
http_scheme cc = if check_ssl cc then some "https" else none

unfoldable pub default_port : Option Conn → ℕ
default_port cc = if check_ssl cc then 443 else 0

abbrev pub is_undecided : ConnState → Bool
is_undecided ConnState.init = true
is_undecided _ = false

-- An outgoing connection that another module asks the TLS module about is decided afterwards: it is
-- disabled or enabled; and if the answer is no where TLS is asked for, and it was not decided
-- before, it is disabled.
pub ssl_outgoing_decides :
    (lookup_defaults : DirConf) (dir_conf : Option DirConf) (enable_ssl : Bool) (c : ConnRec)
    → let r = ssl_outgoing lookup_defaults dir_conf enable_ssl c in
      (is_undecided (state_of r.0) ≡ false)
      × ((is_undecided (state_of c) && not r.1 && not (rank (state_of r.0) == 1)) ≡ false)
unfolding ssl_outgoing conn_bind conn_disable setup_outgoing
ssl_outgoing_decides lookup_defaults dir_conf enable_ssl c = ground arith

module _ {ℓ} {W : Type ℓ} (phases : Phases W) where
  paired : (r : W × Status) → r.1 ≡ success → r ≡ (r.0, success)
  paired (w, success) h = refl
  paired (w, failed e) h = ground arith

  last_lem :
      (w : W)
      → (phases.prime_certs w).1 ≡ success
      → last_phase phases (w, outgoing_done)
        ≡ ((phases.clear (phases.prime_certs w).0, done), success)
  unfolding last_phase
  last_lem w h = rw (paired (phases.prime_certs w) h) refl

  -- From TLS_CONF_ST_INCOMING_DONE on, if mod_proxy is done.
  resumed :
      (w : W)
      → phases.mod_proxy_post_config_done w ≡ true
      → (phases.init_outgoing w).1 ≡ success
      → ((v : W) → (phases.prime_certs v).1 ≡ success)
      → (v : W) × (tls_core_init phases (w, incoming_done) ≡ ((v, done), success))
  unfolding tls_core_init incoming_phase outgoing_phase
  resumed w seen out_ok prime_ok =
      let v = (phases.init_outgoing w).0 in
      (
        phases.clear (phases.prime_certs v).0,
        rw (seen, paired (phases.init_outgoing w) out_ok) (last_lem v (prime_ok v)),
      )

  -- From the start on.
  begun :
      (w : W)
      → ((v : W) → (phases.init_incoming v).1 ≡ success)
      → ((v : W) → (phases.init_outgoing v).1 ≡ success)
      → ((v : W) → (phases.prime_certs v).1 ≡ success)
      → (v : W) × ((tls_core_init phases (w, init) ≡ ((v, incoming_done), success))
          ⊎ (tls_core_init phases (w, init) ≡ ((v, done), success)))
  unfolding tls_core_init incoming_phase outgoing_phase
  begun w in_ok out_ok prime_ok =
      let v = (phases.init_incoming w).0 in
      elim (Bool-cases (phases.mod_proxy_post_config_done v)) [
        | inl seen ↦
            let u = (phases.init_outgoing v).0 in
            (
              phases.clear (phases.prime_certs u).0,
              inr (
                  rw
                    (
                      paired (phases.init_incoming w) (in_ok w),
                      seen,
                      paired (phases.init_outgoing v) (out_ok v),
                    )
                    (last_lem u (prime_ok u))),
            )
        | inr waits ↦ (v, inl (rw (paired (phases.init_incoming w) (in_ok w), waits) refl))
      ]

  -- Where no phase fails, and the flag of mod_proxy is seen once it is set: the hook before mod_proxy
  -- and then the one after it bring the module from TLS_CONF_ST_INIT to its last status, with
  -- success, whether mod_proxy was done before or not.
  pub hooks_complete :
      (set_done : W → W) (called : Bool) (w : W)
      → ((v : W) → (phases.init_incoming v).1 ≡ success)
      → ((v : W) → (phases.init_outgoing v).1 ≡ success)
      → ((v : W) → (phases.prime_certs v).1 ≡ success)
      → ((v : W) → phases.mod_proxy_post_config_done (set_done v) ≡ true)
      → let first = post_config phases (called, (w, init)) in
        let second = post_proxy_config phases set_done first.0.1 in
        (second.0.1 ≡ done) × (first.1 ≡ success) × (second.1 ≡ success)
  unfolding post_config post_proxy_config
  hooks_complete set_done called w in_ok out_ok prime_ok seen =
      let (v, e) = begun w in_ok out_ok prime_ok in
      elim e [
        | inl waits ↦
            let (u, f) = resumed (set_done v) (seen v) (out_ok (set_done v)) prime_ok in
            rw (waits, f) (refl, refl, refl)
        | inr through ↦
            rw through
              (unfold tls_core_init incoming_phase outgoing_phase last_phase in (refl, refl, refl))
      ]
