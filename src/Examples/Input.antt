-- ===== src/Examples/Input.antt =====
-- The input filter with a network that gives two pieces of data, and a session that has seen the
-- client hello after a read.
use mod_tls.Base.{ℕ, refl, List, [], ◌∷◌, ◌++◌, true, false, none, some, success, einval, arith}
use mod_tls.Brigade.{bytes, metadata, flush}
use mod_tls.Conn.{fresh, client_hello}
use mod_tls.Filter.{Ctx}
use mod_tls.Filter.Input.{
  In, InIo, read_tls_to_rustls, read_loop, read_round, feed, after_loop, process_packets,
  max_in_rustls,
}
use mod_tls.Filter.Input.Plain.{SplitLine}
use mod_tls.Filter.Input.Hello.{recv_client_hello, hello_loop, after_read, replay}
use mod_tls.Filter.Input.Reads.{bytes_of, NoEos}
use mod_tls.Filter.Input.Receive.{Replayed, recv_client_hello_replays}
use mod_tls.Filter.Input.Replay.{Network, Returns, read_tls_to_rustls-Returns}

-- The network is the bytes it has given; each read gives the next number and a FLUSH.
abbrev io : InIo (List ℕ) (List ℕ)
io = record {
  is_handshaking = λ s. true;
  wants_read = λ s. true;
  wants_write = λ s. false;
  get_brigade =
      λ n nonblock len. (n ++ 1 ∷ 2 ∷ [], (success, metadata flush ∷ bytes (1 ∷ 2 ∷ []) ∷ []));
  read_size = λ s. 1;
  read = λ s d. (s ++ d, success);
  process = λ s cc. (s, (record cc { client_hello_seen = true }, none));
  rustls_error = λ rr. einval;
}

abbrev network : Network io
network = record {
  read_size_positive = λ s. omega arith;
  received = λ n. n;
  received_more = λ n nonblock len. unfold bytes_of in refl;
}

abbrev fresh_ctx : Ctx (In (List ℕ) (List ℕ) (Unit {0}))
fresh_ctx = record {
  cc = record (fresh 0) { state = client_hello };
  aborted = false;
  world = record {
    session = [];
    net = [];
    tls_bb = [];
    tls_buffer_bb = none;
    plain_bb = [];
    bytes_in_rustls = 0;
    nonblock = false;
    rest = tt;
  };
}

abbrev buffering : Ctx (In (List ℕ) (List ℕ) (Unit {0}))
buffering = record fresh_ctx { world = record fresh_ctx.world { tls_buffer_bb = some [] } }

read_tls_to_rustls-Returns_example :
    Returns network (read_tls_to_rustls io max_in_rustls false true buffering)
read_tls_to_rustls-Returns_example =
    read_tls_to_rustls-Returns network max_in_rustls false true buffering
      (record { all = ([], refl, unfold bytes_of in refl) })

-- The state after the hello: both bytes are unread again, though the session took them.
abbrev replayed : Ctx (In (List ℕ) (List ℕ) (Unit {0}))
replayed = record {
  cc = record fresh_ctx.cc { client_hello_seen = true };
  aborted = false;
  world = record {
    session = 1 ∷ 2 ∷ [];
    net = 1 ∷ 2 ∷ [];
    tls_bb = bytes (1 ∷ 2 ∷ []) ∷ [];
    tls_buffer_bb = none;
    plain_bb = [];
    bytes_in_rustls = 3;
    nonblock = false;
    rest = tt;
  };
}

recv_client_hello_replays_example : Replayed network replayed
unfolding recv_client_hello hello_loop after_read replay read_tls_to_rustls read_loop read_round
    feed after_loop process_packets fresh
recv_client_hello_replays_example =
    recv_client_hello_replays network (λ c. (c, success)) 1 fresh_ctx replayed
      (record { tls_bb = λ c. refl; tls_buffer_bb = λ c. refl; net = λ c. refl }) refl refl
      (unfold bytes_of in refl) (unfold NoEos in tt) (λ n nonblock len. unfold NoEos in tt) refl

abbrev no_split : SplitLine
no_split dest src nonblock len = (dest, (src, success))

abbrev reading : Ctx (In (List ℕ) (List ℕ) (Unit {0}))
reading = record fresh_ctx {
  world = record fresh_ctx.world { plain_bb = bytes (4 ∷ 5 ∷ 6 ∷ []) ∷ [] };
}
