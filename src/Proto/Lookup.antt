-- ===== src/Proto/Lookup.antt =====
-- The two tables of known ciphers, and the round trip of cipher ids through their names.
use mod_tls.Proto.Hex.{AprLaws}
use mod_tls.Proto.Names.{get_uint16_from-format_x4}
use mod_tls.Base.{
  zero, suc, suc, is_some, ap, ◌<◌, ◌&&◌, inl, inr, take, Option-cases, all, codes, not, ℕ, text_eq,
  text_eq_iff, ◌≡◌, refl, ◌∙◌, Bool, true, false, Option, none, some, List, [], ◌∷◌, ◌==◌,
  if◌then◌else◌, String, arith, ==_iff,
}
use mod_tls.Hash.{hash_get, hash_set, hash_get-hash_set}
use mod_tls.Proto.Table.{Cipher, known_ciphers}
use mod_tls.Proto.{
  ProtoConf, get_uint16_from, tls_proto_init, get_cipher_name, get_cipher_by_name, Apr, bytes_eq,
  register_by_name, register_by_id, add_alias,
}

named : Cipher → String → Bool
named c k = if text_eq c.name k then true else elim c.alias [ none ↦ false | some a ↦ text_eq a k ]

-- The last cipher with the given name or alias, and the last with the given id.
last_named : List Cipher → String → Option Cipher
last_named [] k = none
last_named (c ∷ cs) k =
    let rest = last_named cs k in
    elim rest [ some d ↦ some d | none ↦ (if named c k then some c else none) ]

last_with_id : List Cipher → ℕ → Option Cipher
last_with_id [] k = none
last_with_id (c ∷ cs) k =
    let rest = last_with_id cs k in
    elim rest [ some d ↦ some d | none ↦ (if c.id == k then some c else none) ]

abbrev over {ℓ} : {A : Type ℓ} → Option A → Option A → Option A
over none b = b
over (some a) b = some a

hash_get-add_alias :
    (m : List (String × Cipher)) (c : Cipher) (o : Option String) (k : String)
    → hash_get text_eq (add_alias (hash_set text_eq m c.name c) c o) k ≡ (
        if text_eq c.name k
        then some c
        else if elim o [ none ↦ false | some a ↦ text_eq a k ]
        then some c
        else hash_get text_eq m k)
unfolding add_alias
hash_get-add_alias m c none k = hash_get-hash_set text_eq text_eq_iff m c.name k c
hash_get-add_alias m c (some a) k = ground (
  arith,
  hash_get-hash_set text_eq text_eq_iff (hash_set text_eq m c.name c) a k c,
  hash_get-hash_set text_eq text_eq_iff m c.name k c,
)

hash_get-register_by_name :
    (cs : List Cipher) (m : List (String × Cipher)) (k : String)
    → hash_get text_eq (register_by_name m cs) k ≡ over (last_named cs k) (hash_get text_eq m k)
unfolding register_by_name last_named named
hash_get-register_by_name [] m k = refl
hash_get-register_by_name (c ∷ cs) m k =
    hash_get-register_by_name cs (add_alias (hash_set text_eq m c.name c) c c.alias) k
    ∙ ground (arith, hash_get-add_alias m c c.alias k)

hash_get-register_by_id :
    (cs : List Cipher) (m : List (ℕ × Cipher)) (k : ℕ)
    → hash_get ◌==◌ (register_by_id m cs) k ≡ over (last_with_id cs k) (hash_get ◌==◌ m k)
unfolding register_by_id last_with_id
hash_get-register_by_id [] m k = refl
hash_get-register_by_id (c ∷ cs) m k =
    hash_get-register_by_id cs (hash_set ◌==◌ m c.id c) k
    ∙ ground (arith, hash_get-hash_set ◌==◌ ==_iff m c.id k c)

over-none : (o : Option Cipher) → over o none ≡ o
over-none none = refl
over-none (some c) = refl

lookup_by_name :
    (cs : List Cipher) (k : String) → hash_get text_eq (register_by_name [] cs) k ≡ last_named cs k
unfolding hash_get
lookup_by_name cs k = hash_get-register_by_name cs [] k ∙ over-none (last_named cs k)

lookup_by_id :
    (cs : List Cipher) (k : ℕ) → hash_get ◌==◌ (register_by_id [] cs) k ≡ last_with_id cs k
unfolding hash_get
lookup_by_id cs k = hash_get-register_by_id cs [] k ∙ over-none (last_with_id cs k)

same_id : ℕ → Option Cipher → Bool
same_id id none = false
same_id id (some c) = c.id == id

-- The name of each entry leads to an entry with its id.
names_checked : all (λ c. same_id c.id (last_named known_ciphers c.name)) known_ciphers ≡ true
unfolding known_ciphers last_named named same_id text_eq
names_checked = refl

last_with_id-all :
    (p : Cipher → Bool) (cs : List Cipher) (k : ℕ) {c : Cipher}
    → all p cs ≡ true
    → last_with_id cs k ≡ some c
    → (p c ≡ true) × (c.id ≡ k)
unfolding last_with_id
last_with_id-all p [] k h e = cc
last_with_id-all p (d ∷ cs) k {c = c} h e = ground (arith, last_with_id-all p cs k {c = c})

abbrev unknown_prefix : List ℕ
unknown_prefix = codes "TLS_CIPHER_0x"

starts : String → Bool
starts s = bytes_eq (take 13 (codes s)) unknown_prefix

-- No entry has a name or an alias of the form that stands for unknown ids.
unknown_checked :
    all
      (λ c. not (starts c.name) && elim c.alias [ none ↦ true | some a ↦ not (starts a) ])
      known_ciphers
    ≡ true
unfolding known_ciphers starts
unknown_checked = refl

last_named-starts :
    (c : Cipher) (k : String)
    → starts k ≡ true
    → (not (starts c.name) && elim c.alias [ none ↦ true | some a ↦ not (starts a) ]) ≡ true
    → named c k ≡ false
unfolding named
last_named-starts c k s h = go c.alias h
  where
    go :
        (o : Option String)
        → (not (starts c.name) && elim o [ none ↦ true | some a ↦ not (starts a) ]) ≡ true
        → (if text_eq c.name k then true else elim o [ none ↦ false | some a ↦ text_eq a k ])
          ≡ false
    go none x = ground (arith, text_eq_iff c.name k)
    go (some a) x = ground (arith, text_eq_iff c.name k, text_eq_iff a k)

last_named_unknown :
    (cs : List Cipher) (k : String)
    → starts k ≡ true
    → all (λ c. not (starts c.name) && elim c.alias [ none ↦ true | some a ↦ not (starts a) ]) cs
      ≡ true
    → last_named cs k ≡ none
unfolding last_named
last_named_unknown [] k s h = refl
last_named_unknown (c ∷ cs) k s h =
    ground (arith, last_named_unknown cs k s, last_named-starts c k s)

id_0_known : (id : ℕ) → last_with_id known_ciphers id ≡ none → 0 < id
unfolding last_with_id known_ciphers
id_0_known zero e = let h : true ≡ false = ap is_some e in cc h
id_0_known (suc id) e = omega arith

starts-format_x4 :
    (apr : Apr)
    → AprLaws apr
    → (id : ℕ) → id < 65536
    → starts (apr.format_x4 "TLS_CIPHER_0x" id) ≡ true
unfolding starts
starts-format_x4 apr laws id h = rw (laws.codes_format_x4 "TLS_CIPHER_0x" id h)

module _ {Suite : Type 0} (suite_id : Suite → ℕ) (suites : List Suite) (apr : Apr) where
  abbrev conf : ProtoConf Suite
  conf = tls_proto_init suite_id suites

  get_cipher_by_name_known :
      (name : String) {c : Cipher}
      → last_named known_ciphers name ≡ some c
      → get_cipher_by_name apr conf name ≡ some c.id
  unfolding get_cipher_by_name tls_proto_init
  get_cipher_by_name_known name e = rw (lookup_by_name known_ciphers name ∙ e, get_cipher_by_name)

  get_cipher_by_name_unknown :
      (name : String)
      → last_named known_ciphers name ≡ none
      → get_cipher_by_name apr conf name ≡ get_uint16_from apr name "TLS_CIPHER_0x"
  unfolding get_cipher_by_name tls_proto_init hash_get
  get_cipher_by_name_unknown name e = rw (lookup_by_name known_ciphers name ∙ e, get_cipher_by_name)

  get_cipher_name_known :
      (id : ℕ) {c : Cipher}
      → last_with_id known_ciphers id ≡ some c
      → get_cipher_name apr conf id ≡ c.name
  unfolding get_cipher_name tls_proto_init
  get_cipher_name_known id e = rw (lookup_by_id known_ciphers id ∙ e, get_cipher_name)

  get_cipher_name_unknown :
      (id : ℕ)
      → last_with_id known_ciphers id ≡ none
      → get_cipher_name apr conf id ≡ apr.format_x4 "TLS_CIPHER_0x" id
  unfolding get_cipher_name tls_proto_init hash_get
  get_cipher_name_unknown id e = rw (lookup_by_id known_ciphers id ∙ e, get_cipher_name)

  known_trip :
      (c : Cipher)
      → same_id c.id (last_named known_ciphers c.name) ≡ true
      → get_cipher_by_name apr conf c.name ≡ some c.id
  unfolding same_id
  known_trip c h = elim (Option-cases (last_named known_ciphers c.name)) [
    | inl e ↦ ground (arith, e)
    | inr (d, e) ↦ get_cipher_by_name_known c.name e ∙ ground (arith, e)
  ]

  -- With the tables as `tls_proto_init` fills them, each 16-bit cipher id is found again by the
  -- name that the module prints for it, known or not.
  pub get_cipher_by_name-get_cipher_name :
      AprLaws apr
      → (id : ℕ) → id < 65536
      → get_cipher_by_name apr
          (tls_proto_init suite_id suites)
          (get_cipher_name apr (tls_proto_init suite_id suites) id)
        ≡ some id
  get_cipher_by_name-get_cipher_name laws id h =
      elim (Option-cases (last_with_id known_ciphers id)) [
        | inl e ↦ rw (get_cipher_name_unknown id e) (
            get_cipher_by_name_unknown _
              (last_named_unknown known_ciphers _ (starts-format_x4 apr laws id h) unknown_checked)
            ∙ get_uint16_from-format_x4 apr laws "TLS_CIPHER_0x" id (id_0_known id e) h)
        | inr (c, e) ↦
            let (p, q) = last_with_id-all _ known_ciphers id names_checked e in
            rw (get_cipher_name_known id e) (known_trip c p ∙ ap some q)
      ]
