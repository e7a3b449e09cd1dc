-- ===== src/Core/Callbacks.antt =====
-- The two callbacks of src/tls_core.c that rustls calls at a client hello: `extract_client_hello_values`
-- on the first session of a connection, and `select_certified_key` on the session of its server.
use mod_tls.Base.{
  refl, ◌≡◌, get_or_else, Status, success, failed, Option-cases, Bool-cases, ◌≡◌, ℕ, true, false,
  Option, none, some, List, [], ◌∷◌, String, is_empty, if◌then◌else◌, Result, ok, fail, ◌⊎◌, inl,
  inr,
}
use mod_tls.Cert.{Registry, reg_get_id}
use mod_tls.Ocsp.{ocsp_clone_key, responded, ocsp_clone_key, OcspEnv, update_key}
use mod_tls.Conn.{Conn, conn_free}

-- What the code reads of a client hello: an empty server name is none.
pub record ClientHello : Type 0 where
  pub server_name : String
  pub alpn : List String

abbrev name_of : String → Option String
name_of String.[] = none
name_of (String.◌∷◌ c s) = some (String.◌∷◌ c s)

-- Without proposed protocols, those that the connection had stay.
unfoldable pub extract_client_hello_values : ClientHello → Conn → Conn
extract_client_hello_values hello cc = record cc {
  client_hello_seen = true;
  sni_hostname = name_of hello.server_name;
  alpn = if is_empty hello.alpn then cc.alpn else some hello.alpn;
}

-- The keys among which rustls selects.
unfoldable pub candidates : Option (List ℕ) → List ℕ → List ℕ
candidates none keys = keys
candidates (some []) keys = keys
candidates (some (k ∷ ks)) keys = k ∷ ks

-- After the selection: with success of the update, the key is what that gave, NULL included.
abbrev updated : Conn → ℕ → Result (Option ℕ) → Conn
updated cc key (fail e) = record cc { key = some key; key_cloned = false }
updated cc key (ok clone) = record cc { key = clone; key_cloned = true }

-- `select` is `rustls_client_hello_select_certified_key`, `keys` are those of the server; the key of
-- the connection is the result.
unfoldable pub select_certified_key : OcspEnv → Registry → (List ℕ → ℕ ⊎ ℕ) → List ℕ → Conn → Conn
select_certified_key env reg select keys cc =
    let reset = record cc { key = none; key_cloned = false } in
    let from = candidates cc.local_keys keys in
    if is_empty from then reset else elim (select from) [
      | inl rr ↦ reset
      | inr key ↦ updated reset key (update_key env reg cc.server key)
    ]

-- A key that rustls made from another one and an OCSP response.
abbrev pub IsClone : OcspEnv → ℕ → Type 0
IsClone env k = (key : ℕ) × (der : Option (List ℕ)) × (env.clone_with_ocsp key der ≡ inr k)

sum_cases : (s : ℕ ⊎ ℕ) → ((a : ℕ) × (s ≡ inl a)) ⊎ ((b : ℕ) × (s ≡ inr b))
sum_cases (inl a) = inl (a, refl)
sum_cases (inr b) = inr (b, refl)

-- If there is a key in the result, it is a clone.
abbrev Cloned : OcspEnv → Result (Option ℕ) → Type 0
Cloned env (fail e) = Unit
Cloned env (ok none) = Unit
Cloned env (ok (some k)) = IsClone env k

made :
    (env : OcspEnv) (key : ℕ) (der : Option (List ℕ)) (r : ℕ ⊎ ℕ)
    → env.clone_with_ocsp key der ≡ r
    → Cloned env (ok (elim r [ inl rr ↦ none | inr k ↦ some k ]))
made env key der (inl rr) h = tt
made env key der (inr k) h = (key, der, h)

responded-Cloned :
    (env : OcspEnv) (key : ℕ) (r : Status × Option (List ℕ)) → Cloned env (responded env key r)
unfolding ocsp_clone_key
responded-Cloned env key (failed e, der) = tt
responded-Cloned env key (success, none) = tt
responded-Cloned env key (success, some der) =
    let d = if is_empty der then none else some der in
    made env key d (env.clone_with_ocsp key d) refl

update_key-Cloned :
    (env : OcspEnv) (reg : Registry) (server key : ℕ) → Cloned env (update_key env reg server key)
unfolding update_key
update_key-Cloned env reg server key = elim (Option-cases (reg_get_id reg key)) [
  | inl e ↦ rw (update_key, e) tt
  | inr (id, e) ↦ rw (update_key, e) (responded-Cloned env key (env.get_resp server id))
]

-- What `tls_core_conn_free` frees of the keys: those of the connection itself, and a clone.
abbrev pub FreesOwn : OcspEnv → List ℕ → Conn → Type 0
FreesOwn env locals cc =
    ((conn_free cc).1.keys ≡ locals)
    ⊎ ((k : ℕ) × IsClone env k × ((conn_free cc).1.keys ≡ k ∷ locals))

updated-FreesOwn :
    (env : OcspEnv) (cc : Conn) (key : ℕ) (r : Result (Option ℕ))
    → Cloned env r
    → FreesOwn env (get_or_else cc.local_keys []) (updated cc key r)
unfolding conn_free
updated-FreesOwn env cc key (fail e) h = inl refl
updated-FreesOwn env cc key (ok none) h = inl refl
updated-FreesOwn env cc key (ok (some k)) h = inr (k, h, refl)

-- Whatever rustls selects and other modules answer about OCSP: when a connection is freed after
-- `select_certified_key`, no key of the servers' registry is freed with it, but only the keys that
-- the connection had of its own, and a clone that rustls made.
pub select_certified_key_frees :
    (env : OcspEnv) (reg : Registry) (select : List ℕ → ℕ ⊎ ℕ) (keys : List ℕ) (cc : Conn)
    → FreesOwn env (get_or_else cc.local_keys []) (select_certified_key env reg select keys cc)
unfolding select_certified_key
select_certified_key_frees env reg select keys cc =
    let reset = record cc { key = none; key_cloned = false } in
    let from = candidates cc.local_keys keys in
    let none_freed : FreesOwn env (get_or_else cc.local_keys []) reset =
      unfold conn_free in inl refl in
    elim (Bool-cases (is_empty from)) [
      | inl e ↦ rw (select_certified_key, e) none_freed
      | inr e ↦ elim (sum_cases (select from)) [
        | inl (rr, f) ↦ rw (select_certified_key, e, f) none_freed
        | inr (key, f) ↦
            rw (select_certified_key, e, f)
              (updated-FreesOwn env reset key (update_key env reg cc.server key)
                (update_key-Cloned env reg cc.server key))
      ]
    ]
