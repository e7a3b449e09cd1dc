-- ===== src/Core/Listen.antt =====
-- Which servers TLSEngine enables.
use mod_tls.Base.{
  ℕ, Bool, true, false, not, ◌&&◌, List, [], ◌∷◌, ◌==◌, ◌≡◌, refl, length, any, is_empty, map,
  arith, if◌then◌else◌, ==_refl,
}
use mod_tls.Proto.{bytes_eq}
use mod_tls.Conf.{on, off, is_on, ServerAddr, ServerConf}

-- The third test is `memcmp(la->..., la->..., len)`, as the code has it.
unfoldable pub addr_match : ServerAddr → ServerAddr → Bool
addr_match la sa =
    (la.host_port == sa.host_port)
    && (length la.ipaddr == length sa.ipaddr)
    && bytes_eq la.ipaddr la.ipaddr

-- `tls_addresses` is the list of the global configuration, `addrs` the one of the server.
unfoldable pub we_listen_on : List ServerAddr → List ServerAddr → ServerConf → Bool
we_listen_on tls_addresses addrs sc =
    if not (is_empty tls_addresses) && sc.base_server
    then true
    else any (λ la. any (addr_match la) addrs) tls_addresses

-- The first loop of `init_incoming`, over the servers from the base server on.
unfoldable pub enable_one : List ServerAddr → Bool → List ServerAddr → ServerConf → ServerConf
enable_one tls_addresses first addrs sc =
    let sc' = record sc { base_server = first } in
    record sc' { enabled = if we_listen_on tls_addresses addrs sc' then on else off }

unfoldable pub enable_rest : List ServerAddr → List (List ServerAddr × ServerConf) → List ServerConf
enable_rest tls_addresses [] = []
enable_rest tls_addresses ((addrs, sc) ∷ servers) =
    enable_one tls_addresses false addrs sc ∷ enable_rest tls_addresses servers

unfoldable pub enable_servers :
    List ServerAddr → List (List ServerAddr × ServerConf) → List ServerConf
enable_servers tls_addresses [] = []
enable_servers tls_addresses ((addrs, sc) ∷ servers) =
    enable_one tls_addresses true addrs sc ∷ enable_rest tls_addresses servers

-- What is left of an address without its bytes.
abbrev pub shape : ServerAddr → ℕ × ℕ
shape a = (a.host_port, length a.ipaddr)

abbrev shape_match : ServerAddr → ℕ × ℕ → Bool
shape_match la (port, len) = (la.host_port == port) && (length la.ipaddr == len)

bytes_eq_refl : (xs : List ℕ) → bytes_eq xs xs ≡ true
bytes_eq_refl [] = refl
bytes_eq_refl (x ∷ xs) = rw (==_refl x, bytes_eq_refl xs) refl

any-addr_match :
    (la : ServerAddr) (addrs : List ServerAddr)
    → any (addr_match la) addrs ≡ any (shape_match la) (map shape addrs)
unfolding addr_match
any-addr_match la [] = refl
any-addr_match la (sa ∷ addrs) = ground (arith, bytes_eq_refl la.ipaddr, any-addr_match la addrs)

any_match-shape :
    (tls_addresses addrs others : List ServerAddr)
    → map shape addrs ≡ map shape others
    → any (λ la. any (addr_match la) addrs) tls_addresses
      ≡ any (λ la. any (addr_match la) others) tls_addresses
any_match-shape [] addrs others h = refl
any_match-shape (la ∷ tls_addresses) addrs others h =
    rw
      (
        any-addr_match la addrs,
        any-addr_match la others,
        h,
        any_match-shape tls_addresses addrs others h,
      )
      refl

-- A server whose addresses have the same ports and lengths as those of another, in order, is
-- enabled alike: the bytes of the addresses do not count.
pub we_listen_on-shape :
    (tls_addresses addrs others : List ServerAddr) (sc : ServerConf)
    → map shape addrs ≡ map shape others
    → we_listen_on tls_addresses addrs sc ≡ we_listen_on tls_addresses others sc
unfolding we_listen_on
we_listen_on-shape tls_addresses addrs others sc h =
    rw (any_match-shape tls_addresses addrs others h) refl

enable_rest-none :
    (servers : List (List ServerAddr × ServerConf))
    → any (λ sc. is_on sc.enabled) (enable_rest [] servers) ≡ false
unfolding enable_rest enable_one we_listen_on
enable_rest-none [] = refl
enable_rest-none ((addrs, sc) ∷ servers) = enable_rest-none servers

-- Without TLSEngine no server is enabled, not even the base server.
pub enable_servers-none :
    (servers : List (List ServerAddr × ServerConf))
    → any (λ sc. is_on sc.enabled) (enable_servers [] servers) ≡ false
unfolding enable_servers enable_one we_listen_on
enable_servers-none [] = refl
enable_servers-none ((addrs, sc) ∷ servers) = enable_rest-none servers
