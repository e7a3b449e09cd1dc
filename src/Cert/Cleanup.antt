-- ===== src/Cert/Cleanup.antt =====
-- What the tables of src/tls_cert.c free: the registry with its pool, root stores and verifiers after
-- the start (`tls_cert_root_stores_clear`, `tls_cert_verifiers_clear`).
use mod_tls.Base.{ℕ, Option, none, some, List, [], ◌∷◌, ◌++◌, String}
use mod_tls.Cert.{Registry, Entry, VerifierEntry, Verifiers}

abbrev to_list : Option ℕ → List ℕ
to_list none = []
to_list (some x) = x ∷ []

-- `reg_entry_cleanup` over all entries, and the tables cleared.
unfoldable pub entry_keys : List (String × Entry) → List ℕ
entry_keys [] = []
entry_keys ((id, entry) ∷ entries) = entry.certified_key ∷ entry_keys entries

unfoldable pub reg_cleanup : Registry → Registry × List ℕ
reg_cleanup reg = (record { id2entry = []; key2entry = [] }, entry_keys reg.id2entry)

unfoldable pub store_values : List (String × ℕ) → List ℕ
store_values [] = []
store_values ((file, store) ∷ stores) = store ∷ store_values stores

unfoldable pub root_stores_clear : List (String × ℕ) → List (String × ℕ) × List ℕ
root_stores_clear stores = ([], store_values stores)

unfoldable pub verifier_values : List (String × VerifierEntry) → List ℕ
verifier_values [] = []
verifier_values ((file, entry) ∷ entries) =
    to_list entry.client_verifier ++ to_list entry.client_verifier_opt ++ verifier_values entries

unfoldable pub verifiers_clear : Verifiers → Verifiers × List ℕ
verifiers_clear v = (record v { file2verifier = [] }, verifier_values v.file2verifier)
