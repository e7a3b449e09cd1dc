-- ===== src/Filter/Input/Plain.antt =====
-- `filter_conn_input` of src/tls_filter.c: decrypted data for the filters above. `tls_util_brigade_copy`
-- and `tls_util_brigade_transfer` are those of Brigade; `SplitLine` stands for `apr_brigade_split_line`.
use mod_tls.Base.{
  inr, inl, ◌⊎◌, ℕ, zero, suc, ◌-◌, Bool, true, false, not, Option, none, some, List, [], ◌∷◌, ◌++◌,
  ◌==◌, ltb, is_some, is_empty, is_success, if◌then◌else◌, Status, success, failed, enotimpl,
}
use mod_tls.Brigade.{Bucket, bytes, Moved, transfer}
use mod_tls.Brigade.Contents.{size}
use mod_tls.Brigade.Copy.{copy}
use mod_tls.Filter.{Ctx}
use mod_tls.Filter.Output.{Outcome, returned, assertion, hangs, then_do}
use mod_tls.Filter.Input.{In, InIo, max_in_rustls, read_tls_to_rustls}

pub data Mode : Type 0 where
  init getline read_bytes speculative exhaustive eat_crlf : Mode

-- Both brigades after `apr_brigade_split_line`, given both, if it may not block, and the length.
abbrev pub SplitLine : Type 0
SplitLine = List Bucket → List Bucket → Bool → ℕ → List Bucket × (List Bucket × Status)

-- An empty bucket at the start of a brigade is removed.
abbrev without_empty : List Bucket → List Bucket
without_empty [] = []
without_empty (bytes [] ∷ bb) = bb
without_empty (b ∷ bb) = b ∷ bb

-- `tls_util_brigade_split_line` of src/tls_util.c.
unfoldable pub split_line : SplitLine → List Bucket → List Bucket → Bool → ℕ → Moved
split_line apr dest src nonblock len =
    let r = apr dest src nonblock len in
    record {
      dest = r.0;
      src = if is_success r.1.1 then without_empty r.1.0 else r.1.0;
      rv = r.1.1;
      nout = if is_success r.1.1 then size r.0 - size dest else 0;
    }

-- HUGE_STRING_LEN
abbrev huge : ℕ
huge = 8192

-- What `filter_conn_input` leaves, with the brigade of the caller and the status.
pub data Answer {ℓ} (W : Type ℓ) : Type ℓ where
  answered : Ctx W → List Bucket → Status → Answer W
  failed_assertion : Answer W
  loops : Answer W

-- `decrypt` is `rustls_connection_read`, which asks for 8000 bytes: an error, or the bytes, none if
-- rustls has none (RUSTLS_RESULT_PLAINTEXT_EMPTY).
module _ {ℓ} {S N X : Type ℓ} (io : InIo S N) (decrypt : S → S × (ℕ ⊎ List ℕ)) where
  abbrev from_net :
      Bool → (Ctx (In S N X) → Outcome (In S N X)) → Ctx (In S N X) → Outcome (In S N X)
  from_net nonblock next c =
      then_do
        (read_tls_to_rustls io max_in_rustls nonblock false
          (record c { world = record c.world { bytes_in_rustls = 0 } }))
        next

  -- After `rustls_connection_read`.
  unfoldable pub decrypted :
      Bool
      → (Ctx (In S N X) → Outcome (In S N X))
      → Ctx (In S N X)
      → S × (ℕ ⊎ List ℕ)
      → Outcome (In S N X)
  decrypted nonblock next c (s, inl rr) =
      returned
        (record c {
          cc = record c.cc { last_error = some rr };
          world = record c.world { session = s };
        })
        (failed (io.rustls_error rr))
  decrypted nonblock next c (s, inr []) =
      from_net nonblock next (record c { world = record c.world { session = s } })
  decrypted nonblock next c (s, inr (x ∷ d)) = next (record c {
    world = record c.world { session = s; plain_bb = c.world.plain_bb ++ bytes (x ∷ d) ∷ [] };
  })

  -- The loop that ends once there is plain data.
  unfoldable pub fill_plain : ℕ → Bool → Ctx (In S N X) → Outcome (In S N X)
  fill_plain zero nonblock c = hangs
  fill_plain (suc n) nonblock c =
      let round =
        if ltb 0 c.world.bytes_in_rustls
        then decrypted nonblock (fill_plain n nonblock) c (decrypt c.world.session)
        else from_net nonblock (fill_plain n nonblock) c in
      if is_empty c.world.plain_bb then round else returned c success

module _ {ℓ} {S N X : Type ℓ} where
  abbrev moved : Ctx (In S N X) → Moved → Ctx (In S N X) × (List Bucket × Status)
  moved c m = (record c { world = record c.world { plain_bb = m.src } }, (m.dest, m.rv))

  -- What is moved to the brigade `bb` of the caller, in each mode; `none` is a failing assertion.
  -- `readbytes` is 0 also where the code has a negative number.
  unfoldable pub serve :
      SplitLine
      → Mode
      → Bool
      → ℕ
      → List Bucket
      → Ctx (In S N X)
      → Option (Ctx (In S N X) × (List Bucket × Status))
  serve apr getline nonblock readbytes bb c = some (
      moved c
        (split_line apr bb c.world.plain_bb nonblock (if readbytes == 0 then huge else readbytes)))
  serve apr read_bytes nonblock readbytes bb c =
      if ltb 0 readbytes then some (moved c (transfer bb c.world.plain_bb readbytes)) else none
  serve apr speculative nonblock readbytes bb c =
      if ltb 0 readbytes then some (moved c (copy bb c.world.plain_bb readbytes)) else none
  serve apr exhaustive nonblock readbytes bb c =
      some
        (record c { world = record c.world { plain_bb = [] } }, (bb ++ c.world.plain_bb, success))
  serve apr init nonblock readbytes bb c = some (c, (bb, failed enotimpl))
  serve apr eat_crlf nonblock readbytes bb c = some (c, (bb, failed enotimpl))

-- The other calls of the filter: `progress_tls_atleast_to` to TLS_CONN_ST_TRAFFIC, `filter_abort`,
-- `ap_get_brigade` of the filter below, and `fout_pass_all_to_net` without a flush, whose status is
-- not looked at.
pub record Calls {ℓ} (W : Type ℓ) : Type ℓ where
  pub progress : Ctx W → Ctx W × Status
  pub abort : Ctx W → Ctx W × Status
  pub get_below : Mode → Bool → ℕ → List Bucket → Ctx W → Ctx W × (List Bucket × Status)
  pub pass_all_to_net : Ctx W → Ctx W

abbrev pub is_init : Mode → Bool
is_init init = true
is_init _ = false

module _ {ℓ} {S N X : Type ℓ} (io : InIo S N) (decrypt : S → S × (ℕ ⊎ List ℕ))
    (calls : Calls (In S N X)) where
  abbrev answer : Ctx (In S N X) × (List Bucket × Status) → Answer (In S N X)
  answer (c, (bb, rv)) = answered c bb rv

  -- After `tls_util_brigade_transfer` and the like.
  unfoldable pub after_serve : Option (Ctx (In S N X) × (List Bucket × Status)) → Answer (In S N X)
  after_serve none = failed_assertion
  after_serve (some (c, (bb, failed e))) = answered c bb (failed e)
  after_serve (some (c, (bb, success))) = answered (calls.pass_all_to_net c) bb success

  abbrev served : SplitLine → Mode → Bool → ℕ → List Bucket → Outcome (In S N X) → Answer (In S N X)
  served apr mode nonblock readbytes bb (returned c success) =
      after_serve (serve apr mode nonblock readbytes bb c)
  served apr mode nonblock readbytes bb (returned c (failed e)) = answered c bb (failed e)
  served apr mode nonblock readbytes bb assertion = failed_assertion
  served apr mode nonblock readbytes bb hangs = loops

  abbrev progressed :
      SplitLine → ℕ → Mode → Bool → ℕ → List Bucket → Ctx (In S N X) × Status → Answer (In S N X)
  progressed apr fuel mode nonblock readbytes bb (c, failed e) = answered c bb (failed e)
  progressed apr fuel mode nonblock readbytes bb (c, success) =
      if not (is_some c.cc.rustls_connection)
      then answer (calls.get_below mode nonblock readbytes bb c)
      else if is_init mode
      then answered c bb success
      else served apr mode nonblock readbytes bb (fill_plain io decrypt fuel nonblock c)

  -- `fuel` is the rounds of the loop that waits for plain data.
  unfoldable pub filter_conn_input :
      SplitLine → ℕ → Mode → Bool → ℕ → List Bucket → Ctx (In S N X) → Answer (In S N X)
  filter_conn_input apr fuel mode nonblock readbytes bb c =
      let c0 = record c { world = record c.world { nonblock = nonblock } } in
      if c.aborted
      then answered (calls.abort c0).0 bb (calls.abort c0).1
      else progressed apr fuel mode nonblock readbytes bb (calls.progress c0)
