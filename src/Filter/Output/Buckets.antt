-- ===== src/Filter/Output/Buckets.antt =====
-- What src/tls_filter.c does with one bucket to send, the first of the brigade (`fout_append_plain`
-- and what it calls), and the loop of `filter_conn_output` on all of them.
use mod_tls.Base.{
  ℕ, zero, suc, ◌+◌, ◌-◌, Bool, true, false, ◌||◌, List, [], ◌∷◌, ◌++◌, ◌==◌, ltb, length, take,
  drop, is_empty, if◌then◌else◌, Status, success, failed, Failure, Result, ok, fail, eof,
  econnaborted,
}
use mod_tls.Brigade.{Meta, eoc, Source, end, chunk, broken}
use mod_tls.Brigade
use mod_tls.Conn.{notified}
use mod_tls.Filter.{Ctx, set_state, is_done}
use mod_tls.Filter.Output.{
  Item, metadata, bytes, pipe, file, Io, Out, Outcome, returned, assertion, hangs, then_do, result,
  with_world, with_bb, with_session, buf_plain_size, file_chunk_size, pass_rustls_to_tls,
  pass_buf_to_rustls, pass_all_to_tls, pass_all_to_net, make_room,
}

abbrev pub is_eoc : Meta → Bool
is_eoc eoc = true
is_eoc _ = false

abbrev pub is_eof : Failure → Bool
is_eof eof = true
is_eof _ = false

module _ {ℓ} {S N : Type ℓ} where
  -- `memcpy` into the buffer, and the bucket deleted
  abbrev pub store : List ℕ → List Item → Ctx (Out S N) → Ctx (Out S N)
  store d rest c = with_world c record c.world { buf_plain = c.world.buf_plain ++ d; bb = rest }

module _ {ℓ} {S N : Type ℓ} (io : Io S N) where
  abbrev room : Ctx (Out S N) → ℕ
  room c = buf_plain_size - length c.world.buf_plain

  -- What is left of a file bucket after a read of its first bytes gave `d`.
  abbrev pub file_rest : ℕ → ℕ → ℕ → List ℕ → List Item → List Item
  file_rest fd start len d rest =
      if ltb (length d) len then file fd (start + length d) (len - length d) ∷ rest else rest

  -- The buffer gets the first `n` bytes of a file bucket, which is split off before.
  unfoldable pub add_file :
      ℕ → ℕ → ℕ → List Item → Result (List ℕ) → ℕ → Ctx (Out S N) → Outcome (Out S N)
  add_file fd start n rest (fail e) remain c =
      returned (with_bb c (file fd start n ∷ rest)) (failed e)
  add_file fd start n rest (ok d) remain c =
      if ltb remain (length d)
      then assertion
      else returned (store d (file_rest fd start n d rest) c) success

  unfoldable pub add_bucket_to_plain : List Item → Ctx (Out S N) → Outcome (Out S N)
  add_bucket_to_plain [] c = returned c success
  add_bucket_to_plain (metadata m ∷ rest) c = returned (with_bb c rest) success
  add_bucket_to_plain (pipe s ∷ rest) c = assertion
  add_bucket_to_plain (bytes d ∷ rest) c =
      if is_empty d
      then returned (with_bb c rest) success
      else then_do (make_room io c) λ c'.
        returned
          (store (take (room c') d)
            (if ltb (room c') (length d) then bytes (drop (room c') d) ∷ rest else rest) c')
          success
  add_bucket_to_plain (file fd start len ∷ rest) c =
      if len == 0
      then returned (with_bb c rest) success
      else then_do (make_room io c) λ c'.
        let n = if ltb (room c') len then room c' else len in
        let behind =
          if ltb (room c') len then file fd (start + room c') (len - room c') ∷ rest else rest in
        add_file fd start n behind (io.bucket_read fd start n) (room c') c'

  unfoldable pub add_bucket_to_tls : Meta → List Item → Ctx (Out S N) → Outcome (Out S N)
  add_bucket_to_tls m rest c = then_do (pass_all_to_tls io c) λ c'.
      let moved =
        with_world c'
          record c'.world { tls_bb = c'.world.tls_bb ++ Brigade.metadata m ∷ []; bb = rest } in
      if is_eoc m
      then pass_rustls_to_tls io
          (set_state notified (with_session moved (io.send_close_notify moved.world.session)))
      else returned moved success

  -- The label `maybe_flush` after a metadata bucket: the status before it is lost.
  unfoldable pub then_flush : Outcome (Out S N) → Outcome (Out S N)
  then_flush (returned c rv) = pass_all_to_net io true c
  then_flush assertion = assertion
  then_flush hangs = hangs

  abbrev written : List Item → List ℕ → Ctx (Out S N) → Outcome (Out S N)
  written rest d c = then_do (pass_buf_to_rustls io d c) (λ c'. returned (with_bb c' rest) success)

  -- A large chunk of a file is read at once; a short read is not noticed.
  unfoldable pub write_file : ℕ → ℕ → ℕ → List Item → Status → Ctx (Out S N) → Outcome (Out S N)
  write_file fd start n rest (failed e) c = returned (with_bb c (file fd start n ∷ rest)) (failed e)
  write_file fd start n rest success c = elim (io.file_read fd start n) [
    -- at the end of the file, nothing was read
    | fail e ↦
        (let nothing = written rest [] (with_bb c (file fd start n ∷ rest)) in
          if is_eof e then nothing else returned (with_bb c (file fd start n ∷ rest)) (failed e))
    | ok d ↦ written rest d (with_bb c (file fd start n ∷ rest))
  ]

  -- Without memory for the chunk, as much as `apr_bucket_read` gives.
  unfoldable pub write_read :
      ℕ → ℕ → ℕ → List Item → Result (List ℕ) → Ctx (Out S N) → Outcome (Out S N)
  write_read fd start n rest (fail e) c = returned (with_bb c (file fd start n ∷ rest)) (failed e)
  write_read fd start n rest (ok d) c =
      let behind = file_rest fd start n d rest in written behind d (with_bb c (bytes d ∷ behind))

  -- A bucket of a known length.
  unfoldable pub append_known : List Item → Ctx (Out S N) → Outcome (Out S N)
  append_known [] c = returned c success
  append_known (metadata m ∷ rest) c = then_flush (add_bucket_to_tls m rest c)
  append_known (pipe s ∷ rest) c = assertion
  append_known (bytes d ∷ rest) c =
      if is_empty d
      then returned (with_bb c rest) success
      else if ltb (length d) 1024 || ltb 0 (length c.world.buf_plain)
      then add_bucket_to_plain (bytes d ∷ rest) c
      else (let behind =
            if ltb file_chunk_size (length d)
            then bytes (drop file_chunk_size d) ∷ rest
            else rest in
          written behind (take file_chunk_size d)
            (with_bb c (bytes (take file_chunk_size d) ∷ behind)))
  append_known (file fd start len ∷ rest) c =
      if len == 0
      then returned (with_bb c rest) success
      else if ltb len 1024 || ltb 0 (length c.world.buf_plain)
      then add_bucket_to_plain (file fd start len ∷ rest) c
      else (let n = if ltb file_chunk_size len then file_chunk_size else len in
          let behind =
            if ltb file_chunk_size len
            then file fd (start + file_chunk_size) (len - file_chunk_size) ∷ rest
            else rest in
          if io.malloc n
          then write_file fd start n behind (io.file_seek fd start) c
          else write_read fd start n behind (io.bucket_read fd start n) c)

  -- A bucket of unknown length is read first.
  unfoldable pub append_first : List Item → Ctx (Out S N) → Outcome (Out S N)
  append_first [] c = append_known [] c
  append_first (metadata m ∷ rest) c = append_known (metadata m ∷ rest) c
  append_first (bytes d ∷ rest) c = append_known (bytes d ∷ rest) c
  append_first (file fd start len ∷ rest) c = append_known (file fd start len ∷ rest) c
  append_first (pipe end ∷ rest) c = returned (with_bb c rest) success
  append_first (pipe (broken e) ∷ rest) c =
      returned (if is_eof e then with_bb c rest else c) (failed e)
  append_first (pipe (chunk x xs s) ∷ rest) c =
      let read = bytes (x ∷ xs) ∷ pipe s ∷ rest in append_known read (with_bb c read)

  unfoldable pub append_plain : Ctx (Out S N) → Outcome (Out S N)
  append_plain c = then_do (make_room io c) (λ c'. append_first c'.world.bb c')

  unfoldable pub append_loop : ℕ → Ctx (Out S N) → Outcome (Out S N)
  append_loop zero c = if is_empty c.world.bb then returned c success else hangs
  append_loop (suc n) c =
      let next = then_do (append_plain c) (append_loop n) in
      if is_empty c.world.bb then returned c success else next

  abbrev pass_through : Ctx (Out S N) → Outcome (Out S N)
  pass_through c =
      let p = io.pass_plain c.world.net c.world.bb in
      returned
        (record c { aborted = c.aborted || p.1.0; world = record c.world { net = p.0; bb = [] } })
        p.1.1

  -- `progress` is `progress_tls_atleast_to` to TLS_CONN_ST_TRAFFIC, and `fuel` the rounds of the loop.
  unfoldable pub filter_conn_output :
      (Ctx (Out S N) → Ctx (Out S N) × Status) → ℕ → Ctx (Out S N) → Outcome (Out S N)
  filter_conn_output progress fuel c =
      if c.aborted
      then returned (with_bb c []) (failed econnaborted)
      else then_do (result (progress c))
          λ c'. if is_done c'.cc.state then pass_through c' else append_loop fuel c'
