-- ===== src/Filter/Output.antt =====
-- The output filter of src/tls_filter.c, `filter_conn_output`: plain bytes wait in a buffer, go to
-- the session of rustls, and come back as TLS data, which the filters below get. `fout_` is left
-- away in the names. rustls, the filters below (`ap_pass_brigade`) and the files are the record `Io`.
pub mod Views
pub mod Sends
pub mod Flushes
pub mod Buckets
pub mod Splits
pub mod Appends
pub mod Rounds
pub mod Firsts
pub mod Runs
use mod_tls.Base.{
  ◌⊎◌, inl, inr, some, ℕ, zero, suc, ◌+◌, ◌-◌, ◌*◌, Bool, true, false, ◌||◌, ◌&&◌, List, [], ◌∷◌,
  ◌++◌, map, ◌==◌, ltb, length, take, drop, is_empty, is_success, if◌then◌else◌, Status, success,
  failed, Failure, Result, ok, fail, eof, eagain, econnreset, econnaborted,
}
use mod_tls.Brigade.{Meta, eoc, flush, Source, end, chunk, broken}
use mod_tls.Brigade
use mod_tls.Conn.{ConnState, traffic, notified}
use mod_tls.Filter.{Ctx, set_state, is_done}

-- A bucket to send. A `pipe` has an unknown length; a `file` is a part of a file, by its number,
-- the offset and the length.
pub data Item : Type 0 where
  metadata : Meta → Item
  bytes : List ℕ → Item
  pipe : Source → Item
  file : ℕ → ℕ → ℕ → Item

pub record Io {ℓ} (S N : Type ℓ) : Type ℓ where
  pub wants_write : S → Bool
  -- `rustls_connection_write`: a `rustls_result`, or the number of bytes it took
  pub write : S → List ℕ → S × (ℕ ⊎ ℕ)
  -- `tls_util_rustls_error`
  pub rustls_error : ℕ → Failure
  -- What `rustls_connection_write_tls_vectored` calls its callback with, and the session and the
  -- status after the callback's status and `*out_n`.
  pub slices : S → List (List ℕ)
  pub wrote : S → Status → ℕ → S × Status
  pub send_close_notify : S → S
  -- `ap_pass_brigade`: also if the connection is aborted after it
  pub pass_brigade : N → List Brigade.Bucket → N × (Bool × Status)
  -- `ap_pass_brigade` of the brigade with plain data
  pub pass_plain : N → List Item → N × (Bool × Status)
  -- `apr_bucket_read` of a file bucket
  pub bucket_read : ℕ → ℕ → ℕ → Result (List ℕ)
  -- if `malloc` gives memory for so many bytes
  pub malloc : ℕ → Bool
  -- `apr_file_seek` and `apr_file_read`
  pub file_seek : ℕ → ℕ → Status
  pub file_read : ℕ → ℕ → ℕ → Result (List ℕ)
  -- the rounds that the loop on `rustls_connection_wants_write` may take
  pub rounds : ℕ

-- The fields of tls_filter_ctx_t for the output, with the session, the filters below, and the
-- brigade that is to be sent.
pub record Out {ℓ} (S N : Type ℓ) : Type ℓ where
  pub session : S
  pub net : N
  pub buf_plain : List ℕ
  pub tls_bb : List Brigade.Bucket
  pub bytes_in_tls_bb : ℕ
  pub bytes_in_rustls : ℕ
  pub bb : List Item

-- `assertion` is a failing `ap_assert`, and `hangs` a loop that used up its rounds.
pub data Outcome {ℓ} (W : Type ℓ) : Type ℓ where
  returned : Ctx W → Status → Outcome W
  assertion : Outcome W
  hangs : Outcome W

-- APR_BUCKET_BUFF_SIZE; TLS_PREF_PLAIN_CHUNK_SIZE, and TLS_REC_MAX_SIZE with the header of a record
abbrev pub buf_plain_size : ℕ
buf_plain_size = 8000

abbrev pub chunk_size : ℕ
chunk_size = 16384

abbrev pub max_in_rustls : ℕ
max_in_rustls = 4 * chunk_size

-- TLS_FILE_CHUNK_SIZE
abbrev pub file_chunk_size : ℕ
file_chunk_size = 4 * chunk_size

abbrev pub total : List (List ℕ) → ℕ
total [] = 0
total (x ∷ xs) = length x + total xs

module _ {ℓ} {W : Type ℓ} where
  -- What follows a call unless that went to `cleanup`.
  abbrev pub then_do : Outcome W → (Ctx W → Outcome W) → Outcome W
  then_do (returned c success) next = next c
  then_do (returned c (failed e)) next = returned c (failed e)
  then_do assertion next = assertion
  then_do hangs next = hangs

  abbrev pub result : Ctx W × Status → Outcome W
  result (c, rv) = returned c rv

module _ {ℓ} {S N : Type ℓ} where
  abbrev pub with_world : Ctx (Out S N) → Out S N → Ctx (Out S N)
  with_world c w = record c { world = w }

  abbrev pub with_bb : Ctx (Out S N) → List Item → Ctx (Out S N)
  with_bb c bb = record c { world = record c.world { bb = bb } }

  abbrev pub with_session : Ctx (Out S N) → S → Ctx (Out S N)
  with_session c s = record c { world = record c.world { session = s } }

  -- `tls_core_error`
  abbrev pub core_error : ℕ → Ctx (Out S N) → Ctx (Out S N)
  core_error rr c = record c { cc = record c.cc { last_error = some rr } }

module _ {ℓ} {S N : Type ℓ} (io : Io S N) where
  unfoldable pub pass_tls_to_net : Ctx (Out S N) → Ctx (Out S N) × Status
  pass_tls_to_net c =
      let p = io.pass_brigade c.world.net c.world.tls_bb in
      let aborted = c.aborted || p.1.0 in
      if is_empty c.world.tls_bb then (c, success) else (
        record c {
          aborted = aborted;
          world = record c.world { net = p.0; tls_bb = []; bytes_in_tls_bb = 0 };
        },
        if is_success p.1.1 && aborted then failed econnreset else p.1.1,
      )

  -- The status; `*out_n` is the total of the slices.
  unfoldable pub tls_write_vectored_callback :
      List (List ℕ) → Ctx (Out S N) → Ctx (Out S N) × Status
  tls_write_vectored_callback iov c = pass_tls_to_net (
      with_world c record c.world {
        tls_bb = c.world.tls_bb ++ map Brigade.bytes iov;
        bytes_in_tls_bb = c.world.bytes_in_tls_bb + total iov;
      })

  unfoldable pub write_tls_loop : ℕ → Ctx (Out S N) → Outcome (Out S N)
  write_tls_loop zero c = hangs
  write_tls_loop (suc n) c =
      let iov = io.slices c.world.session in
      let called = tls_write_vectored_callback iov c in
      let w = io.wrote called.0.world.session called.1 (total iov) in
      let rest = write_tls_loop n (with_session called.0 w.0) in
      if is_success w.1 && io.wants_write w.0
      then rest
      else returned (with_session called.0 w.0) w.1

  -- TLS_WRITE_VECTORED is 1, so `fout_bytes_in_rustls` is never set back.
  unfoldable pub pass_rustls_to_tls : Ctx (Out S N) → Outcome (Out S N)
  pass_rustls_to_tls c =
      if io.wants_write c.world.session then write_tls_loop io.rounds c else returned c success

  unfoldable pub after_write :
      (List ℕ → Ctx (Out S N) → Outcome (Out S N))
      → List ℕ
      → Ctx (Out S N)
      → S × (ℕ ⊎ ℕ)
      → Outcome (Out S N)
  after_write next buf c (s, inl rr) =
      returned (core_error rr (with_session c s)) (failed (io.rustls_error rr))
  after_write next buf c (s, inr written) =
      let c' =
        with_world c
          record c.world { session = s; bytes_in_rustls = c.world.bytes_in_rustls + written } in
      let rest = next (drop written buf) c' in
      if ltb (length buf) written
      then assertion
      else if written == 0
      then returned c' (failed eagain)
      else rest

  -- Each round takes a byte or returns, so the length is fuel enough.
  unfoldable pub write_loop : ℕ → List ℕ → Ctx (Out S N) → Outcome (Out S N)
  write_loop n [] c = returned c success
  write_loop zero (x ∷ buf) c = hangs
  write_loop (suc n) (x ∷ buf) c =
      then_do
        (if ltb max_in_rustls (c.world.bytes_in_rustls + suc (length buf))
          then pass_rustls_to_tls c
          else returned c success)
        (λ c'. after_write (write_loop n) (x ∷ buf) c' (io.write c'.world.session (x ∷ buf)))

  unfoldable pub pass_buf_to_rustls : List ℕ → Ctx (Out S N) → Outcome (Out S N)
  pass_buf_to_rustls buf c = write_loop (length buf) buf c

  unfoldable pub pass_all_to_tls : Ctx (Out S N) → Outcome (Out S N)
  pass_all_to_tls c =
      then_do
        (if is_empty c.world.buf_plain
          then returned c success
          else then_do (pass_buf_to_rustls c.world.buf_plain c)
              (λ c'. returned (with_world c' record c'.world { buf_plain = [] }) success))
        pass_rustls_to_tls

  unfoldable pub pass_all_to_net : Bool → Ctx (Out S N) → Outcome (Out S N)
  pass_all_to_net flushes c = then_do (pass_all_to_tls c) λ c'. result (
      pass_tls_to_net (
        if flushes
        then with_world c'
            record c'.world { tls_bb = c'.world.tls_bb ++ Brigade.metadata flush ∷ [] }
        else c'))

  -- Both functions that fill the buffer empty a full one first.
  unfoldable pub make_room : Ctx (Out S N) → Outcome (Out S N)
  make_room c =
      if buf_plain_size - length c.world.buf_plain == 0
      then then_do (pass_all_to_tls c) (λ c'.
        if buf_plain_size - length c'.world.buf_plain == 0 then assertion else returned c' success)
      else returned c success
