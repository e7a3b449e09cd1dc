-- ===== src/Proto/Table/Entry.antt =====
-- `tls_cipher_t` of src/tls_proto.h.
use mod_tls.Base.{ℕ, String, Option}

pub record Cipher : Type 0 where
  pub id : ℕ
  pub name : String
  pub alias : Option String
