-- ===== src/Var/Names.antt =====
-- The variables of src/tls_var.c: VAR_DEFS and the names of the three groups.
use mod_tls.Base.{ℕ, Option, none, some, List, [], ◌∷◌, String}

-- One constructor for each function of VAR_DEFS.
pub data Getter : Type 0 where
  ssl_protocol ssl_cipher sni_hostname version_interface version_library : Getter
  false_text null_text client_s_dn_cn client_verify session_resumed : Getter
  client_cert server_cert : Getter

pub record VarDef : Type 0 where
  pub name : String
  pub fn : Getter
  pub arg_s : Option String
  pub arg_i : ℕ

abbrev plain : String → Getter → VarDef
plain name fn = record { name = name; fn = fn; arg_s = none; arg_i = 0 }

abbrev chain : String → ℕ → VarDef
chain name i = record { name = name; fn = client_cert; arg_s = some "chain"; arg_i = i }

abbrev pub var_defs : List VarDef
var_defs =
    plain "SSL_PROTOCOL" ssl_protocol
    ∷ plain "SSL_CIPHER" ssl_cipher
    ∷ plain "SSL_TLS_SNI" sni_hostname
    ∷ plain "SSL_CLIENT_S_DN_CN" client_s_dn_cn
    ∷ plain "SSL_VERSION_INTERFACE" version_interface
    ∷ plain "SSL_VERSION_LIBRARY" version_library
    ∷ plain "SSL_SECURE_RENEG" false_text
    ∷ plain "SSL_COMPRESS_METHOD" null_text
    ∷ plain "SSL_CIPHER_EXPORT" false_text
    ∷ plain "SSL_CLIENT_VERIFY" client_verify
    ∷ plain "SSL_SESSION_RESUMED" session_resumed
    ∷ plain "SSL_CLIENT_CERT" client_cert
    ∷ chain "SSL_CLIENT_CHAIN_0" 0
    ∷ chain "SSL_CLIENT_CHAIN_1" 1
    ∷ chain "SSL_CLIENT_CHAIN_2" 2
    ∷ chain "SSL_CLIENT_CHAIN_3" 3
    ∷ chain "SSL_CLIENT_CHAIN_4" 4
    ∷ chain "SSL_CLIENT_CHAIN_5" 5
    ∷ chain "SSL_CLIENT_CHAIN_6" 6
    ∷ chain "SSL_CLIENT_CHAIN_7" 7
    ∷ chain "SSL_CLIENT_CHAIN_8" 8
    ∷ chain "SSL_CLIENT_CHAIN_9" 9
    ∷ plain "SSL_SERVER_CERT" server_cert
    ∷ []

unfoldable pub always_vars : List String
always_vars = "SSL_TLS_SNI" ∷ "SSL_PROTOCOL" ∷ "SSL_CIPHER" ∷ "SSL_CLIENT_S_DN_CN" ∷ []

unfoldable pub std_env_vars : List String
std_env_vars =
    "SSL_VERSION_INTERFACE" ∷ "SSL_VERSION_LIBRARY" ∷ "SSL_SECURE_RENEG" ∷ "SSL_COMPRESS_METHOD"
    ∷ "SSL_CIPHER_EXPORT" ∷ "SSL_CIPHER_USEKEYSIZE" ∷ "SSL_CIPHER_ALGKEYSIZE" ∷ "SSL_CLIENT_VERIFY"
    ∷ "SSL_CLIENT_M_VERSION" ∷ "SSL_CLIENT_M_SERIAL" ∷ "SSL_CLIENT_V_START" ∷ "SSL_CLIENT_V_END"
    ∷ "SSL_CLIENT_V_REMAIN" ∷ "SSL_CLIENT_S_DN" ∷ "SSL_CLIENT_I_DN" ∷ "SSL_CLIENT_A_KEY"
    ∷ "SSL_CLIENT_A_SIG" ∷ "SSL_CLIENT_CERT_RFC4523_CEA" ∷ "SSL_SERVER_M_VERSION"
    ∷ "SSL_SERVER_M_SERIAL" ∷ "SSL_SERVER_V_START" ∷ "SSL_SERVER_V_END" ∷ "SSL_SERVER_S_DN"
    ∷ "SSL_SERVER_I_DN" ∷ "SSL_SERVER_A_KEY" ∷ "SSL_SERVER_A_SIG" ∷ "SSL_SESSION_ID"
    ∷ "SSL_SESSION_RESUMED" ∷ []

unfoldable pub export_cert_vars : List String
export_cert_vars =
    "SSL_CLIENT_CERT" ∷ "SSL_CLIENT_CHAIN_0" ∷ "SSL_CLIENT_CHAIN_1" ∷ "SSL_CLIENT_CHAIN_2"
    ∷ "SSL_CLIENT_CHAIN_3" ∷ "SSL_CLIENT_CHAIN_4" ∷ "SSL_CLIENT_CHAIN_5" ∷ "SSL_CLIENT_CHAIN_6"
    ∷ "SSL_CLIENT_CHAIN_7" ∷ "SSL_CLIENT_CHAIN_8" ∷ "SSL_CLIENT_CHAIN_9" ∷ "SSL_SERVER_CERT" ∷ []
