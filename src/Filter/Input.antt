-- ===== src/Filter/Input.antt =====
-- The input filter of src/tls_filter.c: TLS data comes from the filters below as buckets and goes to
-- the session of rustls. `fin_` is left away in the names. `Hello` has the handshake on top of it,
-- and `Plain` the filter itself. `X` is what the functions here do not look at, such as the output.
pub mod Reads
pub mod Hello
pub mod Rounds
pub mod Replay
pub mod Receive
pub mod Plain
use mod_tls.Base.{
  is_empty, ℕ, zero, suc, ◌+◌, ◌-◌, Bool, true, false, ◌&&◌, ◌||◌, not, Option, none, some, List,
  [], ◌∷◌, ◌++◌, ◌==◌, ltb, leb, length, take, drop, is_success, if◌then◌else◌, Status, success,
  failed, Failure, eof, eagain, econnreset,
}
use mod_tls.Brigade.{Meta, eos, Source, end, chunk, broken, Bucket, metadata, bytes, pipe}
use mod_tls.Conn.{Conn}
use mod_tls.Filter.{Ctx}
use mod_tls.Filter.Output.{Outcome, returned, hangs, assertion, then_do}

-- The fields of tls_filter_ctx_t for the input, with the session and the filters below.
pub record In {ℓ} (S N X : Type ℓ) : Type ℓ where
  pub session : S
  pub net : N
  pub tls_bb : List Bucket
  -- `fin_tls_buffer_bb`, or NULL
  pub tls_buffer_bb : Option (List ℕ)
  pub plain_bb : List Bucket
  pub bytes_in_rustls : ℕ
  -- `fin_block` is APR_NONBLOCK_READ
  pub nonblock : Bool
  pub rest : X

pub record InIo {ℓ} (S N : Type ℓ) : Type ℓ where
  pub is_handshaking : S → Bool
  pub wants_read : S → Bool
  pub wants_write : S → Bool
  -- `ap_get_brigade` with AP_MODE_READBYTES: if it may not block, and the length
  pub get_brigade : N → Bool → ℕ → N × (Status × List Bucket)
  -- How many bytes `rustls_connection_read_tls` asks of its callback, and the session and the
  -- status after the callback gave its bytes.
  pub read_size : S → ℕ
  pub read : S → List ℕ → S × Status
  -- `rustls_connection_process_new_packets`, which may call back into the module: an error of
  -- rustls, if there is one
  pub process : S → Conn → S × (Conn × Option ℕ)
  -- `tls_util_rustls_error`
  pub rustls_error : ℕ → Failure

-- 4 * TLS_REC_MAX_SIZE
abbrev pub max_in_rustls : ℕ
max_in_rustls = 69632

-- What `tls_read_callback` copies of `d` if it is asked for `n` bytes.
abbrev pub tls_read_callback : List ℕ → ℕ → List ℕ
tls_read_callback d n = take (if ltb n (length d) then n else length d) d

abbrev pub is_eof : Failure → Bool
is_eof eof = true
is_eof _ = false

abbrev pub buffer_more : List ℕ → Option (List ℕ) → Option (List ℕ)
buffer_more d none = none
buffer_more d (some buffer) = some (buffer ++ d)

abbrev pub emptied : Option (List ℕ) → Option (List ℕ)
emptied none = none
emptied (some buffer) = some []

module _ {ℓ} {S N X : Type ℓ} where
  abbrev pub with_bb : Ctx (In S N X) → List Bucket → Ctx (In S N X)
  with_bb c bb = record c { world = record c.world { tls_bb = bb } }

-- From the label `cleanup` on, where rustls has reported no error.
abbrev pub read_status : Bool → Status → ℕ → Status
read_status nonblock success passed = if passed == 0 && nonblock then failed eagain else success
read_status nonblock (failed e) passed = if is_eof e && ltb 0 passed then success else failed e

-- The rounds that the loop may take: each of them ends at a bucket or takes a byte.
abbrev pub source_load : Source → ℕ
source_load end = 1
source_load (chunk x xs s) = suc (suc (length xs)) + source_load s
source_load (broken e) = 1

abbrev pub load : List Bucket → ℕ
load [] = 0
load (metadata m ∷ bb) = suc (load bb)
load (bytes d ∷ bb) = suc (length d + load bb)
load (pipe s ∷ bb) = source_load s + load bb

-- How the loop ended, with `rv` and `passed`: by `goto cleanup`, by its test, or not in its rounds.
pub data Loop {ℓ} (W : Type ℓ) : Type ℓ where
  left ended : Ctx W → Status → ℕ → Loop W
  runs_on : Loop W

module _ {ℓ} {S N X : Type ℓ} (io : InIo S N) where
  -- The bytes `d` of the first bucket, which is not empty; `rest` is behind it.
  unfoldable pub feed :
      (Status → ℕ → Ctx (In S N X) → Loop (In S N X))
      → List ℕ
      → List Bucket
      → ℕ
      → Ctx (In S N X)
      → Loop (In S N X)
  feed next d rest passed c =
      let w = c.world in
      let given = tls_read_callback d (io.read_size w.session) in
      let r = io.read w.session given in
      let behind =
        if leb (length d) (length given) then rest else bytes (drop (length given) d) ∷ rest in
      let goes_on = next success (passed + length given) (record c {
        world = record w {
          session = r.0;
          tls_bb = behind;
          tls_buffer_bb = buffer_more given w.tls_buffer_bb;
          bytes_in_rustls = w.bytes_in_rustls + length d;
        };
      }) in
      elim r.1 [
        | failed e ↦
            left (record c { world = record w { session = r.0; tls_bb = bytes d ∷ rest } })
              (failed e) passed
        | success ↦ goes_on
      ]

  -- One round at the buckets given, if `passed` is below the length.
  unfoldable pub read_round :
      (Status → ℕ → Ctx (In S N X) → Loop (In S N X))
      → List Bucket
      → Status
      → ℕ
      → Ctx (In S N X)
      → Loop (In S N X)
  read_round next [] rv passed c = ended c rv passed
  read_round next (metadata eos ∷ bb) rv passed c =
      left (record c { world = record c.world { tls_buffer_bb = emptied c.world.tls_buffer_bb } })
        (failed eof) passed
  read_round next (metadata m ∷ bb) rv passed c = next success passed (with_bb c bb)
  read_round next (pipe end ∷ bb) rv passed c = next success passed (with_bb c bb)
  read_round next (pipe (broken e) ∷ bb) rv passed c =
      let skipped = next (failed e) passed (with_bb c bb) in
      if is_eof e then skipped else left c (failed e) passed
  read_round next (pipe (chunk x xs s) ∷ bb) rv passed c = feed next (x ∷ xs) (pipe s ∷ bb) passed c
  read_round next (bytes [] ∷ bb) rv passed c = next success passed (with_bb c bb)
  read_round next (bytes (x ∷ d) ∷ bb) rv passed c = feed next (x ∷ d) bb passed c

  unfoldable pub read_loop : ℕ → ℕ → Status → ℕ → Ctx (In S N X) → Loop (In S N X)
  read_loop zero len rv passed c = runs_on
  read_loop (suc n) len rv passed c =
      let round = read_round (read_loop n len) c.world.tls_bb rv passed c in
      if ltb passed len then round else ended c rv passed

  -- With an error of rustls; `tls_core_error` notes it.
  abbrev read_error : Bool → ℕ → Ctx (In S N X) → Outcome (In S N X)
  read_error errors_expected rr c =
      if errors_expected
      then returned c (failed econnreset)
      else returned (record c { cc = record c.cc { last_error = some rr } })
          (failed (io.rustls_error rr))

  unfoldable pub process_packets : Bool → Status → ℕ → Ctx (In S N X) → Outcome (In S N X)
  process_packets errors_expected rv passed c =
      let p = io.process c.world.session c.cc in
      let after = record c { cc = p.1.0; world = record c.world { session = p.0 } } in
      if ltb 0 passed
      then elim p.1.1 [
        | none ↦ returned after (read_status c.world.nonblock rv passed)
        | some rr ↦ read_error errors_expected rr after
      ]
      else returned c (read_status c.world.nonblock rv passed)

  unfoldable pub after_loop : Bool → Loop (In S N X) → Outcome (In S N X)
  after_loop errors_expected (left c rv passed) =
      returned c (read_status c.world.nonblock rv passed)
  after_loop errors_expected (ended c rv passed) = process_packets errors_expected rv passed c
  after_loop errors_expected runs_on = hangs

  abbrev loaded : ℕ → Bool → Ctx (In S N X) → Outcome (In S N X)
  loaded len errors_expected c =
      after_loop errors_expected (read_loop (suc (load c.world.tls_bb)) len success 0 c)

  -- After `ap_get_brigade`.
  abbrev from_net : ℕ → Bool → Status → Ctx (In S N X) → Outcome (In S N X)
  from_net len errors_expected success c = loaded len errors_expected c
  from_net len errors_expected (failed e) c = returned c (read_status c.world.nonblock (failed e) 0)

  -- `nonblock` is the argument `block`.
  unfoldable pub read_tls_to_rustls : ℕ → Bool → Bool → Ctx (In S N X) → Outcome (In S N X)
  read_tls_to_rustls len nonblock errors_expected c =
      let g = io.get_brigade c.world.net nonblock len in
      let c' = record c {
        world = record c.world { net = g.0; tls_bb = c.world.tls_bb ++ g.1.1 };
      } in
      let rest = from_net len errors_expected g.1.0 c' in
      if is_empty c.world.tls_bb then rest else loaded len errors_expected c
