-- ===== src/Conf/Merge.antt =====
-- Merging and completing configurations: inheritance, defaults, and what the merge of directory
-- configurations does to proxy settings.
use mod_tls.Base.{
  if◌then◌else◌, suc, zero, ℕ, ◌≡◌, ◌≢◌, refl, Bool, true, false, Option, none, some, arith,
  or_else, ℤ, pos, negsuc, is_some, ==_refl,
}
use mod_tls.Conf.{
  same_pointer, Flag, off, on, ClientAuth, ServerConf, DirConf, GlobalConf, merge_flag, int_unset,
  merge_svr, create_dir, dir_assign_merge, merge_dir, server_apply_defaults, dir_apply_defaults,
  default_flag, proxy_section_post_config, TextPtr,
}

-- What a setting comes to: the server's own value, else the inherited one, else the default.
abbrev pub resolved : Flag → Flag → Flag → Flag
resolved d base Flag.unset = default_flag d base
resolved d base off = off
resolved d base on = on

abbrev is_unset : ℤ → Bool
is_unset (pos n) = false
is_unset (negsuc zero) = true
is_unset (negsuc (suc n)) = false

abbrev pub resolved_int : ℤ → ℤ → ℤ → ℤ
resolved_int d base add = if is_unset add then (if is_unset base then d else base) else add

-- After merging and completing, each of these settings is the own one where it is set, else the
-- inherited one, else the default: TLS is off, the client's order is honoured, no minimum version.
pub apply_defaults-merge_svr :
    (base add : ServerConf)
    → let sc = server_apply_defaults (merge_svr base add) in
      (sc.enabled ≡ resolved off base.enabled add.enabled)
      × (sc.honor_client_order ≡ resolved on base.honor_client_order add.honor_client_order)
      × (sc.tls_protocol_min ≡ resolved_int (pos 0) base.tls_protocol_min add.tls_protocol_min)
unfolding merge_svr server_apply_defaults
apply_defaults-merge_svr base add = ground arith

-- No setting is left unset, and completing a second time changes nothing.
pub server_apply_defaults_complete :
    (sc : ServerConf)
    → let done = server_apply_defaults sc in
      (done.enabled ≢ Flag.unset)
      × (done.honor_client_order ≢ Flag.unset)
      × (done.strict_sni ≢ Flag.unset)
      × (done.client_auth ≢ ClientAuth.unset)
      × (done.tls_protocol_min ≢ int_unset)
      × (server_apply_defaults done ≡ done)
unfolding server_apply_defaults
server_apply_defaults_complete sc = ground arith

-- A directory that sets up no proxy of its own never gets the proxy configuration that it inherits,
-- though the code tests that it has one.
pub merge_dir_drops_proxy_config :
    (base add : DirConf) → add.proxy_config ≡ none → (merge_dir base add).proxy_config ≡ none
unfolding merge_dir dir_assign_merge
merge_dir_drops_proxy_config base add h = ground arith

-- A directory without options of its own inherits `StdEnvVars`, but never `ExportCertData`.
pub merge_dir-create_dir :
    (base : DirConf)
    → ((merge_dir base create_dir).std_env_vars ≡ base.std_env_vars)
      × ((merge_dir base create_dir).export_cert_vars ≡ off)
unfolding merge_dir dir_assign_merge create_dir
merge_dir-create_dir base = ground arith

same_pointer_refl : (p : Option TextPtr) → same_pointer p p ≡ true
same_pointer_refl none = refl
same_pointer_refl (some a) = ==_refl a.address

-- The merge into a section's own configuration keeps the proxy configuration that the section has,
-- if it was merged with the same server before.
pub dir_assign_merge_again :
    (server_dc dc : DirConf)
    → or_else dc.proxy_ca server_dc.proxy_ca ≡ dc.proxy_ca
    → dc.proxy_enabled ≡ on
    → (dir_assign_merge server_dc dc).proxy_config ≡ dc.proxy_config
unfolding dir_assign_merge
dir_assign_merge_again server_dc dc h e = rw (h, e) (ground (arith, same_pointer_refl dc.proxy_ca))

-- What a section's configuration is after a call for it.
record Settled (server_dc dc : DirConf) : Type 0 where
  ca : or_else dc.proxy_ca server_dc.proxy_ca ≡ dc.proxy_ca
  chosen : dc.proxy_enabled ≢ Flag.unset
  configured : dc.proxy_enabled ≡ on → is_some dc.proxy_config ≡ true

abbrev IsSettled : DirConf → Option DirConf → Type 0
IsSettled server_dc none = Unit
IsSettled server_dc (some dc) = Settled server_dc dc

first_settles :
    (gc : GlobalConf) (s : ℕ) (server_dc dc : DirConf)
    → IsSettled server_dc (proxy_section_post_config gc s server_dc (some dc)).0
unfolding proxy_section_post_config dir_apply_defaults dir_assign_merge
first_settles gc s server_dc dc = ground arith

proxy_enabled-dir_assign_merge :
    (base add : DirConf)
    → (dir_assign_merge base add).proxy_enabled ≡ merge_flag base.proxy_enabled add.proxy_enabled
unfolding dir_assign_merge
proxy_enabled-dir_assign_merge base add = refl

adds_nothing_again :
    (gc : GlobalConf) (s : ℕ) (server_dc dc : DirConf)
    → Settled server_dc dc
    → (proxy_section_post_config gc s server_dc (some dc)).1 ≡ gc
unfolding proxy_section_post_config dir_apply_defaults
adds_nothing_again gc s server_dc dc v =
    ground
      (arith, dir_assign_merge_again server_dc dc v.ca, proxy_enabled-dir_assign_merge server_dc dc)

again :
    (gc : GlobalConf) (s : ℕ) (server_dc : DirConf) (section : Option DirConf)
    → IsSettled server_dc section
    → (proxy_section_post_config gc s server_dc section).1 ≡ gc
unfolding proxy_section_post_config
again gc s server_dc none v = refl
again gc s server_dc (some dc) v = adds_nothing_again gc s server_dc dc v

-- A second call for the same section adds no second proxy configuration to the global array.
pub proxy_section_post_config_twice :
    (gc : GlobalConf) (s : ℕ) (server_dc dc : DirConf)
    → let first = proxy_section_post_config gc s server_dc (some dc) in
      (proxy_section_post_config first.1 s server_dc first.0).1 ≡ first.1
proxy_section_post_config_twice gc s server_dc dc =
    let first = proxy_section_post_config gc s server_dc (some dc) in
    again first.1 s server_dc first.0 (first_settles gc s server_dc dc)
