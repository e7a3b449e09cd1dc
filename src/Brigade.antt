-- ===== src/Brigade.antt =====
-- `tls_util_brigade_transfer` of src/tls_util.c, over bucket brigades; `Copy` has
-- `tls_util_brigade_copy`. A bucket holds metadata, or bytes, or is of unknown length (`length ==
-- (apr_size_t)-1`): then it is a `pipe`, with what the reads from it will give. `apr_bucket_read`
-- turns a pipe into its next chunk, followed by the rest of the pipe; at the end it turns into an
-- empty bucket.
pub mod Contents
pub mod Transfer
pub mod Copy
use mod_tls.Base.{
  ℕ, suc, ◌+◌, ◌-◌, Bool, true, false, ◌&&◌, ◌||◌, not, List, [], ◌∷◌, ◌++◌, ◌==◌, ltb, length,
  take, drop, if◌then◌else◌, Status, success, Failure, failed,
}

pub data Meta : Type 0 where
  eos flush eoc : Meta
  other : ℕ → Meta

-- What the reads from a pipe give. A chunk is not empty (it is its first byte and the others).
pub data Source : Type 0 where
  end : Source
  chunk : ℕ → List ℕ → Source → Source
  broken : Failure → Source

pub data Bucket : Type 0 where
  metadata : Meta → Bucket
  bytes : List ℕ → Bucket
  pipe : Source → Bucket

-- `*pnout` and the status, with both brigades.
pub record Moved : Type 0 where
  pub dest : List Bucket
  pub src : List Bucket
  pub rv : Status
  pub nout : ℕ

-- Rounds at a pipe with `remain > 0`; `done` is the loop on the buckets behind it.
transfer_pipe : (List Bucket → ℕ → ℕ → Moved) → List Bucket → Source → List Bucket → ℕ → ℕ → Moved
transfer_pipe done dest end src remain n = done (dest ++ bytes [] ∷ []) remain n
transfer_pipe done dest (broken e) src remain n = record {
  dest = dest;
  src = pipe (broken e) ∷ src;
  rv = failed e;
  nout = n;
}
transfer_pipe done dest (chunk c cs s) src remain n =
    let l = suc (length cs) in
    let rest = transfer_pipe done (dest ++ bytes (c ∷ cs) ∷ []) s src (remain - l) (n + l) in
    if ltb remain l
    then record {
      dest = dest ++ bytes (take remain (c ∷ cs)) ∷ [];
      src = bytes (drop remain (c ∷ cs)) ∷ pipe s ∷ src;
      rv = success;
      nout = n + remain;
    }
    else if remain == l
    then record {
      dest = dest ++ bytes (c ∷ cs) ∷ [];
      src = pipe s ∷ src;
      rv = success;
      nout = n + l;
    }
    else rest

-- `remain` is what is left of `length`, which is not negative, and `n` is `*pnout` so far. After a
-- split nothing remains, and the next round stops at the second half, which is not empty.
transfer_loop : List Bucket → List Bucket → ℕ → ℕ → Moved
transfer_loop dest [] remain n = record { dest = dest; src = []; rv = success; nout = n }
transfer_loop dest (metadata m ∷ src) remain n =
    transfer_loop (dest ++ metadata m ∷ []) src remain n
transfer_loop dest (pipe s ∷ src) remain n =
    let rest = transfer_pipe (λ d r k. transfer_loop d src r k) dest s src remain n in
    if remain == 0 then record { dest = dest; src = pipe s ∷ src; rv = success; nout = n } else rest
transfer_loop dest (bytes d ∷ src) remain n =
    let rest = transfer_loop (dest ++ bytes d ∷ []) src (remain - length d) (n + length d) in
    if remain == length d
    then rest
    else if remain == 0
    then record { dest = dest; src = bytes d ∷ src; rv = success; nout = n }
    else if ltb remain (length d)
    then record {
      dest = dest ++ bytes (take remain d) ∷ [];
      src = bytes (drop remain d) ∷ src;
      rv = success;
      nout = n + remain;
    }
    else rest

pub transfer : List Bucket → List Bucket → ℕ → Moved
transfer dest src len = transfer_loop dest src len 0
