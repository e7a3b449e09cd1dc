-- ===== src/Core/Start/Proxies.antt =====
-- `init_outgoing` of src/tls_core.c: the proxy configurations of the servers' directories join those
-- of the <Proxy> sections, and all of them are set up.
use mod_tls.Base.{
  inl, inr, ◌∙◌, append_assoc, Bool-cases, append-nil, sym, ◌++◌, ◌≡◌, ℕ, List, [], ◌∷◌, Option,
  none, some, Status, success, failed, if◌then◌else◌,
}
use mod_tls.Proto.{ProtoConf}
use mod_tls.Cert.{CertEnv, Registry}
use mod_tls.Conf.{
  proxy_make, GlobalConf, ProxyConf, DirConf, dir_apply_defaults, add_proxy_config, is_on,
}
use mod_tls.Core.Start.Outgoing.{proxy_conf_setup}

-- The first loop: each server with its directory configuration.
unfoldable pub collect_proxies : GlobalConf → List (ℕ × DirConf) → List (ℕ × DirConf) × GlobalConf
collect_proxies gc [] = ([], gc)
collect_proxies gc ((s, dc0) ∷ rest) =
    let dc = dir_apply_defaults dc0 in
    let added = add_proxy_config gc dc s in
    let skipped = collect_proxies gc rest in
    let collected = collect_proxies added.1 rest in
    if is_on dc.proxy_enabled
    then ((s, added.0) ∷ collected.0, collected.1)
    else ((s, dc) ∷ skipped.0, skipped.1)

-- The second loop, with the configurations as they are after it; `none` is a failed `assert`.
unfoldable pub setup_proxies :
    CertEnv
    → ProtoConf ℕ
    → Registry
    → List ProxyConf
    → Option (Registry × (List ProxyConf × Status))
setup_proxies env proto reg [] = some (reg, ([], success))
setup_proxies env proto reg (pc ∷ pcs) = elim (proxy_conf_setup env proto reg pc) [
  | none ↦ none
  | some (reg1, (pc', failed e)) ↦ some (reg1, (pc' ∷ pcs, failed e))
  | some (reg1, (pc', success)) ↦ elim (setup_proxies env proto reg1 pcs) [
    | none ↦ none
    | some (reg2, (pcs', rv)) ↦ some (reg2, (pc' ∷ pcs', rv))
  ]
]

-- What the start for outgoing connections leaves: the registry, the directories, the global
-- configuration, and the status.
pub record Outgoing : Type 0 where
  pub reg : Registry
  pub dirs : List (ℕ × DirConf)
  pub global : GlobalConf
  pub rv : Status

abbrev set_up :
    List (ℕ × DirConf) × GlobalConf
    → Option (Registry × (List ProxyConf × Status))
    → Option Outgoing
set_up (dirs, gc) none = none
set_up (dirs, gc) (some (reg, (pcs, rv))) =
    some (record { reg = reg; dirs = dirs; global = record gc { proxy_configs = pcs }; rv = rv })

unfoldable pub init_outgoing :
    CertEnv → ProtoConf ℕ → Registry → GlobalConf → List (ℕ × DirConf) → Option Outgoing
init_outgoing env proto reg gc dirs =
    let collected = collect_proxies gc dirs in
    let r = set_up collected (setup_proxies env proto reg collected.1.proxy_configs) in
    if gc.mod_proxy_post_config_done then r else none

-- The configurations that are new: one for each directory with the proxy engine on, in their order.
abbrev pub made : List (ℕ × DirConf) → List ProxyConf
made [] = []
made ((s, dc0) ∷ rest) =
    let dc = dir_apply_defaults dc0 in
    if is_on dc.proxy_enabled then proxy_make dc s ∷ made rest else made rest

-- The first loop keeps the configurations of the <Proxy> sections and adds the new ones behind them.
pub collect_proxies_lem :
    (gc : GlobalConf) (dirs : List (ℕ × DirConf))
    → (collect_proxies gc dirs).1.proxy_configs ≡ gc.proxy_configs ++ made dirs
unfolding collect_proxies add_proxy_config
collect_proxies_lem gc [] = sym (append-nil gc.proxy_configs)
collect_proxies_lem gc ((s, dc0) ∷ rest) =
    let dc = dir_apply_defaults dc0 in
    elim (Bool-cases (is_on dc.proxy_enabled)) [
      | inl on ↦ rw on (
          collect_proxies_lem (add_proxy_config gc dc s).1 rest
          ∙ append_assoc gc.proxy_configs (proxy_make dc s ∷ []) (made rest))
      | inr off ↦ rw off (collect_proxies_lem gc rest)
    ]
