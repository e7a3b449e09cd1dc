-- ===== src/Proto/Table.antt =====
-- KNOWN_CIPHERS of src/tls_proto.c: the ciphers registered with IANA, with their OpenSSL aliases.
mod Entry
mod First
mod Second
mod Third
use mod_tls.Base.{List, ◌++◌}
pub use Entry.{Cipher}
use First.{first_ciphers}
use Second.{second_ciphers}
use Third.{third_ciphers}

unfoldable pub known_ciphers : List Cipher
unfolding first_ciphers second_ciphers third_ciphers
known_ciphers = first_ciphers ++ second_ciphers ++ third_ciphers
