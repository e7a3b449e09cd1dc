-- ===== src/Filter/Output/Views.antt =====
-- What the output filter needs of rustls, of the filters below and of the files (`Works`), and the
-- plain bytes it has got so far (`sent`).
use mod_tls.Base.{
  ℕ, suc, ◌+◌, ◌≤◌, ◌<◌, ◌≡◌, List, [], ◌∷◌, ◌++◌, length, take, success, ok, true, false, inr,
}
use mod_tls.Brigade
use mod_tls.Brigade.{Source, end, chunk, broken}
use mod_tls.Filter.{Ctx}
use mod_tls.Filter.Output.{
  Item, metadata, bytes, pipe, file, Io, Out, Outcome, returned, then_do, total,
}

-- `accepted` is the plain bytes that a session has taken, `pending` bounds the calls that it takes
-- to write out its TLS data, and `part` is what stands in a file.
pub record Works {ℓ} {S N : Type ℓ} (io : Io S N) : Type ℓ where
  pub accepted : S → List ℕ
  pub pending : S → ℕ
  pub part : ℕ → ℕ → ℕ → List ℕ
  -- rustls takes at least a byte of what it is given
  pub write_taken : S → List ℕ → ℕ
  pub write_positive : (s : S) (x : ℕ) (d : List ℕ) → 0 < write_taken s (x ∷ d)
  pub write_le : (s : S) (d : List ℕ) → write_taken s d ≤ length d
  pub write_ok : (s : S) (d : List ℕ) → (io.write s d).1 ≡ inr (write_taken s d)
  pub write_accepts :
      (s : S) (d : List ℕ) → accepted (io.write s d).0 ≡ accepted s ++ take (write_taken s d) d
  pub pending_bound : (s : S) → pending s ≤ io.rounds
  pub pending_positive : (s : S) → io.wants_write s ≡ true → 0 < pending s
  -- a session whose TLS data the callback took
  pub wrote_ok : (s : S) → (io.wrote s success (total (io.slices s))).1 ≡ success
  pub wrote_pending :
      (s : S)
      → io.wants_write s ≡ true
      → pending (io.wrote s success (total (io.slices s))).0 < pending s
  pub wrote_accepts : (s : S) → accepted (io.wrote s success (total (io.slices s))).0 ≡ accepted s
  pub close_accepts : (s : S) → accepted (io.send_close_notify s) ≡ accepted s
  -- the filters below take everything
  pub pass_ok : (n : N) (bb : List Brigade.Bucket) → (io.pass_brigade n bb).1 ≡ (false, success)
  -- files are as long as the buckets say
  pub part_length : (fd start n : ℕ) → length (part fd start n) ≡ n
  pub part_append :
      (fd start n m : ℕ) → part fd start (n + m) ≡ part fd start n ++ part fd (start + n) m
  pub bucket_read_taken : ℕ → ℕ → ℕ → ℕ
  pub bucket_read_positive : (fd start n : ℕ) → 0 < n → 0 < bucket_read_taken fd start n
  pub bucket_read_le : (fd start n : ℕ) → bucket_read_taken fd start n ≤ n
  pub bucket_read_ok :
      (fd start n : ℕ)
      → io.bucket_read fd start n ≡ ok (part fd start (bucket_read_taken fd start n))
  pub seek_ok : (fd start : ℕ) → io.file_seek fd start ≡ success
  pub file_read_ok : (fd start n : ℕ) → io.file_read fd start n ≡ ok (part fd start n)

-- The bytes that a source gives, and that it does not fail.
unfoldable pub source_bytes : Source → List ℕ
source_bytes end = []
source_bytes (chunk x xs s) = (x ∷ xs) ++ source_bytes s
source_bytes (broken e) = []

unfoldable pub Unbroken : Source → Type 0
Unbroken end = Unit
Unbroken (chunk x xs s) = Unbroken s
Unbroken (broken e) = ⊥

unfoldable pub Readable : List Item → Type 0
Readable [] = Unit
Readable (metadata m ∷ bb) = Readable bb
Readable (bytes d ∷ bb) = Readable bb
Readable (file fd start n ∷ bb) = Readable bb
Readable (pipe s ∷ bb) = Unbroken s × Readable bb

module _ {ℓ} {S N : Type ℓ} {io : Io S N} (works : Works io) where
  -- The plain bytes of a brigade, in order.
  unfoldable pub plain_bytes : List Item → List ℕ
  plain_bytes [] = []
  plain_bytes (metadata m ∷ bb) = plain_bytes bb
  plain_bytes (bytes d ∷ bb) = d ++ plain_bytes bb
  plain_bytes (file fd start n ∷ bb) = works.part fd start n ++ plain_bytes bb
  plain_bytes (pipe s ∷ bb) = source_bytes s ++ plain_bytes bb

  -- What the filter was given so far: what rustls has, and what waits in the buffer.
  abbrev pub sent : Ctx (Out S N) → List ℕ
  sent c = works.accepted c.world.session ++ c.world.buf_plain

-- The rounds of the loop of `filter_conn_output`.
unfoldable pub source_rounds : Source → ℕ
source_rounds end = 1
source_rounds (chunk x xs s) = suc (suc (length xs)) + source_rounds s
source_rounds (broken e) = 1

unfoldable pub rounds : List Item → ℕ
rounds [] = 0
rounds (metadata m ∷ bb) = suc (rounds bb)
rounds (bytes d ∷ bb) = suc (length d + rounds bb)
rounds (file fd start n ∷ bb) = suc (n + n + rounds bb)
rounds (pipe s ∷ bb) = source_rounds s + rounds bb

module _ {ℓ} {W : Type ℓ} where
  -- The outcome is a return with success, in a state of which `P` holds.
  abbrev pub Done {κ} : (Ctx W → Type κ) → Outcome W → Type (ℓ ⊔ κ)
  Done P o = (c : Ctx W) × (o ≡ returned c success) × P c

  pub then_do-Done {κ ι} :
      {P : Ctx W → Type κ} {Q : Ctx W → Type ι} (o : Outcome W) (next : Ctx W → Outcome W)
      → Done P o
      → ((c : Ctx W) → P c → Done Q (next c))
      → Done Q (then_do o next)
  then_do-Done o next (c, e, p) h = rw e (h c p)
