-- ===== src/Examples/Lists.antt =====
-- Cipher lists, brigades, files and configurations.
use mod_tls.Base.{
  zero, suc, ap, take, ◌+◌, ℕ, ◌≡◌, refl, true, false, ◌⊎◌, ◌≤◌, none, some, List, [], ◌∷◌, ◌++◌,
  String, arith, length, is_empty, any, if◌then◌else◌, is_success, Result, ok, pos,
}
use mod_tls.Files.{FileInfo, FileSystem}
use mod_tls.Ciphers.{contains, calc_ciphers}
use mod_tls.Ciphers.Remove.{survivors}
use mod_tls.Ciphers.Order.{calc_ciphers_lem, picks}
use mod_tls.Brigade.{Bucket, bytes, metadata, pipe, eos, transfer, chunk, end}
use mod_tls.Brigade.Contents.{contents, size}
use mod_tls.Brigade.Copy.{copy, copy_kept}
use mod_tls.Brigade.Transfer.{transfer_lem}
use mod_tls.Conf.{
  ServerConf, DirConf, on, off, create_svr, create_dir, merge_svr, server_apply_defaults,
  GlobalConf, ClientAuth, ConfStatus,
}
use mod_tls.Conf.Merge.{apply_defaults-merge_svr, resolved, resolved_int}

abbrev one_two_three : List ℕ
one_two_three = 1 ∷ 2 ∷ 3 ∷ []

abbrev two : List ℕ
two = 2 ∷ []

abbrev three : List ℕ
three = 3 ∷ []

calc_ciphers_lem_example : calc_ciphers one_two_three three two ≡ (
    let allowed = survivors one_two_three two in
    let p = picks allowed three in
    if is_empty p
    then (if any (contains two) one_two_three then some allowed else none)
    else some (p ++ survivors allowed p))
unfolding contains
calc_ciphers_lem_example = calc_ciphers_lem one_two_three three two refl

abbrev waiting : List Bucket
waiting = bytes one_two_three ∷ metadata eos ∷ pipe (chunk 4 two end) ∷ []

transfer_lem_example :
    let r = transfer (bytes two ∷ []) waiting 4 in
    (contents r.dest ++ contents r.src ≡ contents (bytes two ∷ []) ++ contents waiting)
    × (size r.dest ≡ size (bytes two ∷ []) + r.nout)
    × (r.nout ≤ 4)
    × ((is_success r.rv ≡ false) ⊎ ((r.src ≡ []) ⊎ (r.nout ≡ 4)))
transfer_lem_example = transfer_lem (bytes two ∷ []) waiting 4

copy_kept_example : contents (copy [] waiting 4).src ≡ contents waiting
copy_kept_example = copy_kept [] waiting 4

abbrev read_three : String → ℕ → Result (List ℕ)
read_three path n = ok (take n one_two_three)

length-take : (n : ℕ) (xs : List ℕ) → length (take n xs) ≤ n
length-take zero xs = omega arith
length-take (suc n) [] = omega arith
length-take (suc n) (x ∷ xs) = omega (arith, length-take n xs)

ok-eq-ok : {a b : List ℕ} → ok a ≡ ok b → a ≡ b
ok-eq-ok e = cc

read_three_short : (p : String) (n : ℕ) (bs : List ℕ) → read_three p n ≡ ok bs → length bs ≤ n
read_three_short p n bs e = omega (arith, length-take n one_two_three, ap length (ok-eq-ok e))

abbrev small_file : FileInfo
small_file = record { regular = true; size = 3 }

abbrev pub file_system : FileSystem
file_system = record { stat = λ p. ok small_file; open_read = λ p. ok tt; read = read_three }

abbrev blank : ServerConf
blank = create_svr 0 0

abbrev strict : ServerConf
strict = record (create_svr 0 1) {
  enabled = on;
  tls_protocol_min = pos 0x0304;
  client_auth = ClientAuth.required;
}

apply_defaults-merge_svr_example :
    let sc = server_apply_defaults (merge_svr strict blank) in
    (sc.enabled ≡ resolved off strict.enabled blank.enabled)
    × (sc.honor_client_order ≡ resolved on strict.honor_client_order blank.honor_client_order)
    × (sc.tls_protocol_min ≡ resolved_int (pos 0) strict.tls_protocol_min blank.tls_protocol_min)
apply_defaults-merge_svr_example = apply_defaults-merge_svr strict blank

abbrev proxied : DirConf
proxied = record create_dir { proxy_enabled = on; proxy_config = some 0 }

abbrev global_conf : GlobalConf
global_conf = record {
  ap_server = 0;
  status = ConfStatus.init;
  mod_proxy_post_config_done = false;
  tls_addresses = [];
  proxy_configs = [];
  supported_cipher_ids = one_two_three;
  supported_versions = [];
  session_cache_spec = "";
  session_cache_provider = none;
  session_cache = none;
  session_cache_mutex = none;
  rustls_hello_config = none;
}
