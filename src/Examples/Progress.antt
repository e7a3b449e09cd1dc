-- ===== src/Examples/Progress.antt =====
-- Progress of a connection whose calls all succeed, and of one whose handshake fails.
use mod_tls.Base.{false, ◌≡◌, refl, inr, Status, success, failed, econnreset}
use mod_tls.Conn.{fresh, client_hello, traffic, done}
use mod_tls.Filter.{
  Ctx, Steps, progress_tls_atleast_to, leave, attempt, and_then, hello_phase, handshake_phase,
  check_level,
}
use mod_tls.Filter.Progress.{progress_failed, progress_reaches}

abbrev World : Type 0
World = Unit {0}

abbrev starting : Ctx World
starting = record { cc = record (fresh 0) { state = client_hello }; aborted = false; world = tt }

abbrev steps : Status → Steps World
steps rv = record {
  conn_init = λ c. (c, success);
  send_client_hello = λ c. (c, success);
  recv_client_hello = λ c. (c, success);
  do_handshake = λ c. (c, rv);
  post_handshake = λ c. (c, success);
  close_and_flush = λ c. (c, success);
}

progress_failed_example :
    (progress_tls_atleast_to (steps (failed econnreset)) traffic starting).0.cc.state ≡ done
unfolding progress_tls_atleast_to leave attempt and_then hello_phase handshake_phase check_level
    fresh
progress_failed_example = progress_failed (steps (failed econnreset)) traffic starting refl

progress_reaches_example :
    (progress_tls_atleast_to (steps success) traffic starting).0.cc.state ≡ traffic
unfolding progress_tls_atleast_to leave attempt and_then hello_phase handshake_phase check_level
    fresh
progress_reaches_example = progress_reaches (steps success) traffic starting (inr refl) refl refl
