-- ===== src/Hash.antt =====
-- Tables of APR (apr_hash_t, apr_table_t) as association lists, for the other modules.
use mod_tls.Base.{
  ◌≡◌, refl, ◌↔◌, Bool, true, Option, none, some, List, [], ◌∷◌, if◌then◌else◌, arith,
}

-- apr_hash_t with `apr_hash_get` and `apr_hash_set`, keyed by a test of equality.
module _ {ℓ κ} {K : Type ℓ} {V : Type κ} (eq : K → K → Bool) where
  unfoldable pub hash_get : List (K × V) → K → Option V
  hash_get [] k = none
  hash_get ((j, v) ∷ m) k = if eq j k then some v else hash_get m k

  unfoldable pub hash_set : List (K × V) → K → V → List (K × V)
  hash_set [] k v = (k, v) ∷ []
  hash_set ((j, w) ∷ m) k v = if eq j k then (k, v) ∷ m else (j, w) ∷ hash_set m k v

  unfoldable pub hash_unset : List (K × V) → K → List (K × V)
  hash_unset [] k = []
  hash_unset ((j, w) ∷ m) k = if eq j k then hash_unset m k else (j, w) ∷ hash_unset m k

module _ {ℓ κ} {K : Type ℓ} {V : Type κ} (eq : K → K → Bool)
    (eq_iff : (a b : K) → (eq a b ≡ true) ↔ (a ≡ b)) where
  pub hash_get-hash_set :
      (m : List (K × V)) (k j : K) (v : V)
      → hash_get eq (hash_set eq m k v) j ≡ (if eq k j then some v else hash_get eq m j)
  unfolding hash_get hash_set
  hash_get-hash_set [] k j v = refl
  hash_get-hash_set ((i, w) ∷ m) k j v =
      ground (arith, eq_iff k j, eq_iff i k, eq_iff i j, hash_get-hash_set m k j v)

  pub hash_get-hash_unset :
      (m : List (K × V)) (k j : K)
      → hash_get eq (hash_unset eq m k) j ≡ (if eq k j then none else hash_get eq m j)
  unfolding hash_get hash_unset
  hash_get-hash_unset [] k j = ground (arith, eq_iff k j)
  hash_get-hash_unset ((i, w) ∷ m) k j =
      ground (arith, eq_iff k j, eq_iff i k, eq_iff i j, hash_get-hash_unset m k j)
