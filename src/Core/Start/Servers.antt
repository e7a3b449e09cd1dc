-- ===== src/Core/Start/Servers.antt =====
-- What holds of the servers and of the module after a start.
use mod_tls.Base.{
  subst, ◌&&◌, ◌⊎◌, ℕ, ◌≤◌, ◌≡◌, refl, Bool, true, false, not, ◌&&◌, ◌||◌, Option, none, some,
  is_some, List, [], ◌∷◌, is_empty, all, String, ◌++◌, Status, success, failed, arith, Bool-cases,
  inl, inr, is_success,
}
use mod_tls.Proto.{ProtoConf}
use mod_tls.Cert.{CertEnv, Registry}
use mod_tls.Conf.{
  CertSpec, ConfStatus, init, incoming_done, outgoing_done, done, ServerConf, server_apply_defaults,
  is_on,
}
use mod_tls.Core.Start.{
  next_server, Setup, with_keys, add_server, CertSources, complete_cert_specs, add_file_specs,
  load_certified_keys, server_conf_setup, setup_servers, is_absent, Phases, tls_core_init,
  incoming_phase, outgoing_phase, last_phase,
}

-- If the server is enabled and wants client certificates, it has a CA for them.
abbrev pub has_ca : ServerConf → Bool
has_ca sc = not (is_on sc.enabled) || (is_absent sc.client_auth || is_some sc.client_ca)

-- If a set-up succeeds, `has_ca` holds of the server.
abbrev Served : Option Setup → Type 0
Served none = Unit
Served (some (reg, (sc, success))) = has_ca sc ≡ true
Served (some (reg, (sc, failed e))) = Unit

abbrev AllServed : Option (Registry × (List ServerConf × Status)) → Type 0
AllServed none = Unit
AllServed (some (reg, (scs, success))) = all has_ca scs ≡ true
AllServed (some (reg, (scs, failed e))) = Unit

complete_cert_specs-has_ca :
    (sources : CertSources) (sc : ServerConf)
    → has_ca sc ≡ true
    → has_ca (complete_cert_specs sources sc).1 ≡ true
unfolding complete_cert_specs
complete_cert_specs-has_ca sources sc h =
    let added = sources.added sc.server in
    let specs = sc.cert_specs ++ add_file_specs 0 added.0 added.1 in
    elim (Bool-cases (not (is_empty specs))) [
      | inl e ↦ rw (complete_cert_specs, e) h
      | inr e ↦ elim (Bool-cases (is_empty (added.0 ++ (sources.fallback sc.server).0))) [
        | inl f ↦ rw (complete_cert_specs, e, f) h
        | inr f ↦ rw (complete_cert_specs, e, f) h
      ]
    ]

with_keys-Served :
    (proto : ProtoConf ℕ) (sc : ServerConf) (o : Option (Registry × (List ℕ × Status)))
    → has_ca sc ≡ true
    → Served (with_keys proto sc o)
with_keys-Served proto sc none h = tt
with_keys-Served proto sc (some (reg, (keys, failed e))) h = tt
with_keys-Served proto sc (some (reg, (keys, success))) h = h

server_conf_setup-Served :
    (env : CertEnv) (sources : CertSources) (proto : ProtoConf ℕ) (reg : Registry) (sc : ServerConf)
    → Served (server_conf_setup env sources proto reg sc)
unfolding server_conf_setup
server_conf_setup-Served env sources proto reg sc =
    elim (Bool-cases (not (is_absent sc.client_auth) && not (is_some sc.client_ca))) [
      | inl refused ↦ rw (server_conf_setup, refused) tt
      | inr passed ↦
          rw (server_conf_setup, passed)
            (with_keys-Served proto (complete_cert_specs sources sc).1
              (load_certified_keys env reg (complete_cert_specs sources sc).1.server
                (complete_cert_specs sources sc).0)
              (complete_cert_specs-has_ca sources sc (ground arith)))
    ]

add_server-AllServed :
    (sc : ServerConf) (o : Option (Registry × (List ServerConf × Status)))
    → has_ca sc ≡ true
    → AllServed o
    → AllServed (add_server sc o)
add_server-AllServed sc none h k = tt
add_server-AllServed sc (some (reg, (scs, success))) h k = rw h k
add_server-AllServed sc (some (reg, (scs, failed e))) h k = tt

next_server-AllServed :
    (scs : List ServerConf) (o : Option Setup)
    (rest : Registry → Option (Registry × (List ServerConf × Status)))
    → Served o
    → ((reg : Registry) → AllServed (rest reg))
    → AllServed (next_server scs o rest)
next_server-AllServed scs none rest h k = tt
next_server-AllServed scs (some (reg, (sc, failed e))) rest h k = tt
next_server-AllServed scs (some (reg, (sc, success))) rest h k =
    add_server-AllServed sc (rest reg) h (k reg)

-- Of each server that is enabled and wants client certificates, if the loop succeeds: it has a CA.
setup_servers-AllServed :
    (env : CertEnv) (sources : CertSources) (proto : ProtoConf ℕ) (reg : Registry)
    (scs : List ServerConf)
    → AllServed (setup_servers env sources proto reg scs)
unfolding setup_servers
setup_servers-AllServed env sources proto reg [] = refl
setup_servers-AllServed env sources proto reg (sc ∷ scs) =
    let sc0 = server_apply_defaults sc in
    elim (Bool-cases (is_on sc0.enabled)) [
      | inl e ↦
          rw (setup_servers, e)
            (next_server-AllServed scs (server_conf_setup env sources proto reg sc0)
              (λ reg'. setup_servers env sources proto reg' scs)
              (server_conf_setup-Served env sources proto reg sc0)
              (λ reg'. setup_servers-AllServed env sources proto reg' scs))
      | inr e ↦
          rw (setup_servers, e)
            (add_server-AllServed sc0 (setup_servers env sources proto reg scs) (ground arith)
              (setup_servers-AllServed env sources proto reg scs))
    ]

-- When the second loop of `init_incoming` succeeds, each server that is enabled and asks its clients
-- for certificates, required or not, has the file of a CA to check them against.
pub setup_servers_client_ca :
    (env : CertEnv) (sources : CertSources) (proto : ProtoConf ℕ) (reg reg' : Registry)
    (scs scs' : List ServerConf)
    → setup_servers env sources proto reg scs ≡ some (reg', (scs', success))
    → all has_ca scs' ≡ true
setup_servers_client_ca env sources proto reg reg' scs scs' h =
    subst (λ o. AllServed o) h (setup_servers-AllServed env sources proto reg scs)

is_empty-append : (xs ys : List CertSpec) → is_empty (xs ++ ys) ≡ is_empty xs && is_empty ys
is_empty-append [] ys = refl
is_empty-append (x ∷ xs) ys = refl

is_empty-append_names : (xs ys : List String) → is_empty (xs ++ ys) ≡ is_empty xs && is_empty ys
is_empty-append_names [] ys = refl
is_empty-append_names (x ∷ xs) ys = refl

is_empty-add_file_specs :
    (i : ℕ) (certs keys : List String) → is_empty (add_file_specs i certs keys) ≡ is_empty certs
unfolding add_file_specs
is_empty-add_file_specs i [] keys = refl
is_empty-add_file_specs i (cert ∷ certs) keys = refl

-- A server is set to answer with 503 exactly if it was before, or has no certificate of its own and
-- none from other modules, but one as a fallback; it ends up without a certificate exactly if all
-- three have none.
pub complete_cert_specs_unavailable :
    (sources : CertSources) (sc : ServerConf)
    → let (specs, sc') = complete_cert_specs sources sc in
      let own = is_empty sc.cert_specs && is_empty (sources.added sc.server).0 in
      let fallback = is_empty (sources.fallback sc.server).0 in
      (sc'.service_unavailable ≡ sc.service_unavailable || (own && not fallback))
      × (is_empty specs ≡ own && fallback)
unfolding complete_cert_specs
complete_cert_specs_unavailable sources sc =
    let added = sources.added sc.server in
    let more = sources.fallback sc.server in
    let e1 = is_empty-append sc.cert_specs (add_file_specs 0 added.0 added.1) in
    let e2 = is_empty-add_file_specs 0 added.0 added.1 in
    let e3 = is_empty-append_names added.0 more.0 in
    let specs = sc.cert_specs ++ add_file_specs 0 added.0 added.1 in
    let e4 = is_empty-append specs (add_file_specs 0 (added.0 ++ more.0) (added.1 ++ more.1)) in
    let e5 = is_empty-add_file_specs 0 (added.0 ++ more.0) (added.1 ++ more.1) in ground arith

abbrev pub status_rank : ConfStatus → ℕ
status_rank init = 0
status_rank incoming_done = 1
status_rank outgoing_done = 2
status_rank done = 3

module _ {ℓ} {W : Type ℓ} (phases : Phases W) where
  -- Whatever the phases do, the status of the module never goes back; a start that returns success
  -- has come to its last status, or waits at TLS_CONF_ST_INCOMING_DONE for mod_proxy.
  pub tls_core_init_status :
      (w : W) (status : ConfStatus)
      → let r = tls_core_init phases (w, status) in
        (status_rank status ≤ status_rank r.0.1)
        × ((is_success r.1 ≡ false)
            ⊎ ((r.0.1 ≡ done)
                ⊎ ((r.0.1 ≡ incoming_done) × (phases.mod_proxy_post_config_done r.0.0 ≡ false))))
  unfolding tls_core_init incoming_phase outgoing_phase last_phase
  tls_core_init_status w init = ground arith
  tls_core_init_status w incoming_done = ground arith
  tls_core_init_status w outgoing_done = ground arith
  tls_core_init_status w done = ground arith
