-- ===== src/Examples/Output.antt =====
-- The output filter run with a session that writes out in one call all that it took.
use mod_tls.Base.{
  ℕ, zero, suc, ◌+◌, ◌≤◌, ◌<◌, ◌≡◌, refl, ap, sym, List, [], ◌∷◌, ◌++◌, length, take, true, false,
  not, is_empty, success, inr, ok, arith, einval, if◌then◌else◌,
}
use mod_tls.Brigade
use mod_tls.Brigade.{flush, eoc, chunk, end}
use mod_tls.Conn.{fresh, traffic}
use mod_tls.Filter.Output.Buckets.{append_plain, filter_conn_output}
use mod_tls.Filter.{Ctx}
use mod_tls.Filter.Output.{metadata, bytes, pipe, file, Io, Out}
use mod_tls.Filter.Output.Views.{Works, Done, Readable, Unbroken, rounds, source_rounds}
use mod_tls.Filter.Output.Runs.{Delivered, filter_conn_output_sends, append_plain_flushes}

record Toy : Type 0 where
  taken : List ℕ
  waiting : List ℕ

abbrev count : ℕ → ℕ → List ℕ
count start zero = []
count start (suc n) = start ∷ count (suc start) n

abbrev io : Io Toy (List Brigade.Bucket)
io = record {
  wants_write = λ s. not (is_empty s.waiting);
  write = λ s d. (record { taken = s.taken ++ d; waiting = s.waiting ++ d }, inr (length d));
  rustls_error = λ rr. einval;
  slices = λ s. s.waiting ∷ [];
  wrote = λ s rv n. (record s { waiting = [] }, rv);
  send_close_notify = λ s. record s { waiting = s.waiting ++ 0 ∷ [] };
  pass_brigade = λ n bb. (n ++ bb, (false, success));
  pass_plain = λ n bb. (n, (false, success));
  bucket_read = λ fd start n. ok (count start n);
  malloc = λ n. true;
  file_seek = λ fd start. success;
  file_read = λ fd start n. ok (count start n);
  rounds = 1;
}

take_all : (d : List ℕ) → take (length d) d ≡ d
take_all [] = refl
take_all (x ∷ d) = ap (◌∷◌ x) (take_all d)

length-count : (start n : ℕ) → length (count start n) ≡ n
length-count start zero = refl
length-count start (suc n) = omega (arith, length-count (suc start) n)

count-append : (start n m : ℕ) → count start (n + m) ≡ count start n ++ count (start + n) m
count-append start zero m =
    let e : 0 + m ≡ m = omega arith in let f : start + 0 ≡ start = omega arith in rw (e, f) refl
count-append start (suc n) m =
    let e : suc n + m ≡ suc (n + m) = omega arith in
    let f : start + suc n ≡ suc start + n = omega arith in
    rw (e, f) (ap (◌∷◌ start) (count-append (suc start) n m))

pending_bound_lem : (l : List ℕ) → (if is_empty l then 0 else 1) ≤ 1
pending_bound_lem [] = omega arith
pending_bound_lem (x ∷ l) = omega arith

pending_positive_lem : (l : List ℕ) → not (is_empty l) ≡ true → 0 < (if is_empty l then 0 else 1)
pending_positive_lem [] h = ground arith
pending_positive_lem (x ∷ l) h = omega arith

abbrev toy_works : Works io
toy_works = record {
  accepted = λ s. s.taken;
  pending = λ s. if is_empty s.waiting then 0 else 1;
  part = λ fd start n. count start n;
  write_taken = λ s d. length d;
  write_positive = λ s x d. omega arith;
  write_le = λ s d. omega arith;
  write_ok = λ s d. refl;
  write_accepts = λ s d. ap (◌++◌ s.taken) (sym (take_all d));
  pending_bound = λ s. pending_bound_lem s.waiting;
  pending_positive = λ s h. pending_positive_lem s.waiting h;
  wrote_ok = λ s. refl;
  wrote_pending = λ s h. pending_positive_lem s.waiting h;
  wrote_accepts = λ s. refl;
  close_accepts = λ s. refl;
  pass_ok = λ n bb. refl;
  part_length = λ fd start n. length-count start n;
  part_append = λ fd start n m. count-append start n m;
  bucket_read_taken = λ fd start n. n;
  bucket_read_positive = λ fd start n h. h;
  bucket_read_le = λ fd start n. omega arith;
  bucket_read_ok = λ fd start n. refl;
  seek_ok = λ fd start. refl;
  file_read_ok = λ fd start n. refl;
}

abbrev started : Ctx (Out Toy (List Brigade.Bucket))
started = record {
  cc = record (fresh 0) { state = traffic };
  aborted = false;
  world = record {
    session = record { taken = 7 ∷ []; waiting = [] };
    net = [];
    buf_plain = 8 ∷ [];
    tls_bb = [];
    bytes_in_tls_bb = 0;
    bytes_in_rustls = 1;
    bb = bytes (9 ∷ 10 ∷ []) ∷ metadata flush ∷ pipe (chunk 11 [] end) ∷ file 0 12 3 ∷ [];
  };
}

filter_conn_output_sends_example :
    Done (Delivered toy_works started) (filter_conn_output io (λ c. (c, success)) 15 started)
filter_conn_output_sends_example =
    filter_conn_output_sends toy_works (λ c. (c, success)) 15 started started refl refl refl refl
      (omega arith) (unfold Readable Unbroken in (tt, tt))
      (unfold rounds source_rounds in omega arith)

abbrev flushing : Ctx (Out Toy (List Brigade.Bucket))
flushing = record started { world = record started.world { bb = metadata eoc ∷ [] } }

append_plain_flushes_example :
    Done
      (λ c'.
        (c'.world.session.taken ≡ 7 ∷ 8 ∷ [])
        × (c'.world.buf_plain ≡ [])
        × (not (is_empty c'.world.session.waiting) ≡ false)
        × (c'.world.tls_bb ≡ [])
        × (c'.world.bb ≡ []))
      (append_plain io flushing)
append_plain_flushes_example = append_plain_flushes toy_works eoc [] flushing refl refl
