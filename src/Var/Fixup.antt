-- ===== src/Var/Fixup.antt =====
-- What a request inherits of the variables of its connection.
use mod_tls.Base.{
  Bool-cases, success, ==_refl, not, Bool, true, false, Option, none, some, List, [], ◌∷◌, String,
  ◌≡◌, refl, inl, inr, all, arith, Option-cases, is_some,
}
use mod_tls.Hash.{hash_get, hash_unset}
use mod_tls.Conf.{ServerConf, is_on, DirConf}
use mod_tls.Conn.{Conn, is_enabled}
use mod_tls.Var.{
  handshake_done, base_vars, Table, VarEnv, add_vars, add_group, overlap_set, unset_vars,
  request_fixup,
}
use mod_tls.Var.Names.{VarDef, std_env_vars, export_cert_vars}

hash_get-hash_unset-none :
    (eq : String → String → Bool) (table : Table) (k j : String)
    → hash_get eq table j ≡ none
    → hash_get eq (hash_unset eq table k) j ≡ none
unfolding hash_get hash_unset
hash_get-hash_unset-none eq [] k j h = refl
hash_get-hash_unset-none eq ((i, w) ∷ table) k j h =
    ground (arith, hash_get-hash_unset-none eq table k j)

hash_get-hash_unset_same :
    (eq : String → String → Bool) (table : Table) (k : String)
    → hash_get eq (hash_unset eq table k) k ≡ none
unfolding hash_get hash_unset
hash_get-hash_unset_same eq [] k = refl
hash_get-hash_unset_same eq ((i, w) ∷ table) k = ground (arith, hash_get-hash_unset_same eq table k)

pub unset_vars-none :
    (env : VarEnv) (table : Table) (names : List String) (j : String)
    → hash_get env.key_eq table j ≡ none
    → hash_get env.key_eq (unset_vars env table names) j ≡ none
unfolding unset_vars
unset_vars-none env table [] j h = h
unset_vars-none env table (name ∷ names) j h =
    unset_vars-none env (hash_unset env.key_eq table name) names j
      (hash_get-hash_unset-none env.key_eq table name j h)

-- No entry for this name.
abbrev pub absent_in : VarEnv → Table → String → Bool
absent_in env table name = not (is_some (hash_get env.key_eq table name))

unset_vars-all :
    (env : VarEnv) (table : Table) (names : List String)
    → all (absent_in env (unset_vars env table names)) names ≡ true
unfolding unset_vars
unset_vars-all env table [] = refl
unset_vars-all env table (name ∷ names) =
    rw
      (unset_vars-none env (hash_unset env.key_eq table name) names name
        (hash_get-hash_unset_same env.key_eq table name))
      (unset_vars-all env (hash_unset env.key_eq table name) names)

-- Removing more keeps the absent ones absent.
unset_vars_still :
    (env : VarEnv) (table : Table) (more names : List String)
    → all (absent_in env table) names ≡ true
    → all (absent_in env (unset_vars env table more)) names ≡ true
unset_vars_still env table more [] h = refl
unset_vars_still env table more (name ∷ names) h =
    elim (Option-cases (hash_get env.key_eq table name)) [
      | inr (v, k) ↦ ground arith
      | inl k ↦
          rw (unset_vars-none env table more name k)
            (unset_vars_still env table more names (ground arith))
    ]

removes_both :
    (env : VarEnv) (lookups : List (String × VarDef)) (cc : Conn) (dc sdc : DirConf)
    (user : Option String) (table computed : Table)
    → is_enabled cc ≡ true
    → cc.subprocess_env ≡ some computed
    → is_on sdc.std_env_vars ≡ true
    → is_on dc.std_env_vars ≡ false
    → is_on dc.export_cert_vars ≡ false
    → (request_fixup env lookups (some cc) cc.server dc sdc user table).1
      ≡ unset_vars env
          (unset_vars env (overlap_set env table computed) std_env_vars)
          export_cert_vars
unfolding request_fixup add_vars add_group base_vars
removes_both env lookups cc dc sdc user table computed e s o d x = ground (arith, ==_refl cc.server)

-- Where the connection had the standard variables and the request's directory wants neither group,
-- the request ends up without any of them, whatever it had before.
pub request_fixup_removes :
    (env : VarEnv) (lookups : List (String × VarDef)) (cc : Conn) (dc sdc : DirConf)
    (user : Option String) (table computed : Table)
    → is_enabled cc ≡ true
    → cc.subprocess_env ≡ some computed
    → is_on sdc.std_env_vars ≡ true
    → is_on dc.std_env_vars ≡ false
    → is_on dc.export_cert_vars ≡ false
    → let env' = (request_fixup env lookups (some cc) cc.server dc sdc user table).1 in
      (all (absent_in env env') std_env_vars ≡ true)
      × (all (absent_in env env') export_cert_vars ≡ true)
request_fixup_removes env lookups cc dc sdc user table computed e s o d x =
    let both =
      unset_vars env (unset_vars env (overlap_set env table computed) std_env_vars)
        export_cert_vars in
    let same : (request_fixup env lookups (some cc) cc.server dc sdc user table).1 ≡ both =
      removes_both env lookups cc dc sdc user table computed e s o d x in
    let gone = unset_vars-all env (overlap_set env table computed) std_env_vars in
    rw same (
      unset_vars_still env (unset_vars env (overlap_set env table computed) std_env_vars)
          export_cert_vars std_env_vars gone,
      unset_vars-all env (unset_vars env (overlap_set env table computed) std_env_vars)
          export_cert_vars,
    )

-- The call always succeeds, and of the connection it changes at most the user and the table.
pub handshake_done_keeps :
    (env : VarEnv) (lookups : List (String × VarDef)) (sc : ServerConf) (dc : DirConf) (cc : Conn)
    → let r = handshake_done env lookups sc dc cc in
      (r.1 ≡ success)
      × (r.0 ≡ record cc { user_name = r.0.user_name; subprocess_env = r.0.subprocess_env })
unfolding handshake_done
handshake_done_keeps env lookups sc dc cc = elim (Bool-cases (is_enabled cc)) [
  | inl e ↦ rw e (refl, refl)
  | inr e ↦ rw e (refl, refl)
]
