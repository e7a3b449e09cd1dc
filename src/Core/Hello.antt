-- ===== src/Core/Hello.antt =====
-- The choice of the server for a client hello, in `tls_core_conn_seen_client_hello`.
use mod_tls.Base.{
  ℕ, Bool, true, false, not, Option, none, some, String, ◌≡◌, inl, inr, Status, success, failed,
  notfound, if◌then◌else◌, arith, Option-cases,
}
use mod_tls.Conf.{ServerConf, is_off, merge_svr, server_apply_defaults}
use mod_tls.Conn.{Conn}
use mod_tls.Core.{NameTests, ServerRec, name_matches_server}

pub record HelloEnv : Type 0 where
  pub tests : NameTests
  pub server_rec : ℕ → Option ServerRec
  -- `tls_conf_server_get`
  pub server_conf : ℕ → ServerConf
  -- `ap_vhost_iterate_given_conn`: the server for which the callback answers 1, if there is one
  pub first_vhost : (ℕ → Bool) → Option ℕ
  -- httpd's own `ap_server_conf`, and `ap_server` of the global configuration
  pub ap_server_conf : ℕ
  pub ap_server : ℕ

-- `find_vhost` answers 1.
abbrev pub find_vhost : HelloEnv → String → ℕ → Bool
find_vhost env sni s = name_matches_server env.tests sni (env.server_rec s)

-- The connection with its server, the status, and `sni_match`.
unfoldable pub select_vhost : HelloEnv → Conn → Conn × Status × Bool
select_vhost env cc = elim cc.sni_hostname [
  | none ↦ (cc, success, false)
  | some sni ↦ elim (env.first_vhost (find_vhost env sni)) [
    | some s ↦ (record cc { server = s }, success, true)
    | none ↦
        if find_vhost env sni env.ap_server_conf
        then (record cc { server = env.ap_server_conf }, success, true)
        else if is_off (env.server_conf cc.server).strict_sni
        then (cc, success, false)
        else (record cc { server = env.ap_server }, failed notfound, false)
  ]
]

-- `build` is `build_server_connection`; `B` holds what it returns.
unfoldable pub seen_client_hello {ℓ} :
    {B : Type ℓ} → HelloEnv → (Conn → B) → (Conn → Status → B) → Conn → B
seen_client_hello env build leave cc =
    if not cc.client_hello_seen
    then leave cc success
    else (let (chosen, rv, sni_match) = select_vhost env cc in
        elim rv [
          | failed e ↦ leave chosen (failed e)
          | success ↦ build (record chosen {
            service_unavailable =
                if chosen.service_unavailable
                then true
                else if sni_match
                then (env.server_conf chosen.server).service_unavailable
                else false;
            rustls_server_config = none;
            rustls_connection = none;
          })
        ])

-- With strict names, a connection on which the client names a host goes on only with a server that
-- the name matches. What the iteration over the virtual hosts finds, the callback accepted.
pub select_vhost_strict :
    (env : HelloEnv) (cc : Conn) (sni : String)
    → ((p : ℕ → Bool) (s : ℕ) → env.first_vhost p ≡ some s → p s ≡ true)
    → cc.sni_hostname ≡ some sni
    → is_off (env.server_conf cc.server).strict_sni ≡ false
    → (select_vhost env cc).1 ≡ success
    → find_vhost env sni (select_vhost env cc).0.server ≡ true
unfolding select_vhost
select_vhost_strict env cc sni found e strict h =
    elim (Option-cases (env.first_vhost (find_vhost env sni))) [
      | inl k ↦ ground arith
      | inr (s, k) ↦ ground (arith, found (find_vhost env sni) s k)
    ]

-- The configuration of a server that is merged from two levels and completed never makes this check
-- strict: an unknown name is not refused.
pub select_vhost_merged :
    (env : HelloEnv) (cc : Conn) (base add : ServerConf)
    → env.server_conf cc.server ≡ server_apply_defaults (merge_svr base add)
    → (select_vhost env cc).1 ≡ success
unfolding select_vhost server_apply_defaults merge_svr
select_vhost_merged env cc base add h =
    let relaxed : is_off (env.server_conf cc.server).strict_sni ≡ true = ground arith in
    elim (Option-cases cc.sni_hostname) [
      | inl k ↦ ground arith
      | inr (sni, k) ↦ rw k (elim (Option-cases (env.first_vhost (find_vhost env sni))) [
        | inl n ↦ ground arith
        | inr (s, n) ↦ ground arith
      ])
    ]
