-- ===== src/Proto/Table/First.antt =====
-- KNOWN_CIPHERS of src/tls_proto.c, ids 0x0000 to 0x0095.
use mod_tls.Base.{List, [], ◌∷◌, none, some}
use mod_tls.Proto.Table.Entry.{Cipher}

-- Entries in the order of the C array.
unfoldable pub first_ciphers : List Cipher
first_ciphers =
    record { id = 0x0000; name = "TLS_NULL_WITH_NULL_NULL"; alias = none }
    ∷ record { id = 0x0001; name = "TLS_RSA_WITH_NULL_MD5"; alias = none }
    ∷ record { id = 0x0002; name = "TLS_RSA_WITH_NULL_SHA"; alias = none }
    ∷ record { id = 0x0003; name = "TLS_RSA_EXPORT_WITH_RC4_40_MD5"; alias = none }
    ∷ record { id = 0x0004; name = "TLS_RSA_WITH_RC4_128_MD5"; alias = none }
    ∷ record { id = 0x0005; name = "TLS_RSA_WITH_RC4_128_SHA"; alias = none }
    ∷ record { id = 0x0006; name = "TLS_RSA_EXPORT_WITH_RC2_CBC_40_MD5"; alias = none }
    ∷ record { id = 0x0007; name = "TLS_RSA_WITH_IDEA_CBC_SHA"; alias = none }
    ∷ record { id = 0x0008; name = "TLS_RSA_EXPORT_WITH_DES40_CBC_SHA"; alias = none }
    ∷ record { id = 0x0009; name = "TLS_RSA_WITH_DES_CBC_SHA"; alias = none }
    ∷ record { id = 0x000a; name = "TLS_RSA_WITH_3DES_EDE_CBC_SHA"; alias = none }
    ∷ record { id = 0x000b; name = "TLS_DH_DSS_EXPORT_WITH_DES40_CBC_SHA"; alias = none }
    ∷ record { id = 0x000c; name = "TLS_DH_DSS_WITH_DES_CBC_SHA"; alias = none }
    ∷ record { id = 0x000d; name = "TLS_DH_DSS_WITH_3DES_EDE_CBC_SHA"; alias = none }
    ∷ record { id = 0x000e; name = "TLS_DH_RSA_EXPORT_WITH_DES40_CBC_SHA"; alias = none }
    ∷ record { id = 0x000f; name = "TLS_DH_RSA_WITH_DES_CBC_SHA"; alias = none }
    ∷ record { id = 0x0010; name = "TLS_DH_RSA_WITH_3DES_EDE_CBC_SHA"; alias = none }
    ∷ record { id = 0x0011; name = "TLS_DHE_DSS_EXPORT_WITH_DES40_CBC_SHA"; alias = none }
    ∷ record { id = 0x0012; name = "TLS_DHE_DSS_WITH_DES_CBC_SHA"; alias = none }
    ∷ record { id = 0x0013; name = "TLS_DHE_DSS_WITH_3DES_EDE_CBC_SHA"; alias = none }
    ∷ record { id = 0x0014; name = "TLS_DHE_RSA_EXPORT_WITH_DES40_CBC_SHA"; alias = none }
    ∷ record { id = 0x0015; name = "TLS_DHE_RSA_WITH_DES_CBC_SHA"; alias = none }
    ∷ record { id = 0x0016; name = "TLS_DHE_RSA_WITH_3DES_EDE_CBC_SHA"; alias = none }
    ∷ record { id = 0x0017; name = "TLS_DH_anon_EXPORT_WITH_RC4_40_MD5"; alias = none }
    ∷ record { id = 0x0018; name = "TLS_DH_anon_WITH_RC4_128_MD5"; alias = none }
    ∷ record { id = 0x0019; name = "TLS_DH_anon_EXPORT_WITH_DES40_CBC_SHA"; alias = none }
    ∷ record { id = 0x001a; name = "TLS_DH_anon_WITH_DES_CBC_SHA"; alias = none }
    ∷ record { id = 0x001b; name = "TLS_DH_anon_WITH_3DES_EDE_CBC_SHA"; alias = none }
    ∷ record { id = 0x001c; name = "SSL_FORTEZZA_KEA_WITH_NULL_SHA"; alias = none }
    ∷ record { id = 0x001d; name = "SSL_FORTEZZA_KEA_WITH_FORTEZZA_CBC_SHA"; alias = none }
    ∷ record {
      id = 0x001e;
      name = "TLS_KRB5_WITH_DES_CBC_SHA_or_SSL_FORTEZZA_KEA_WITH_RC4_128_SHA";
      alias = none;
    }
    ∷ record { id = 0x001f; name = "TLS_KRB5_WITH_3DES_EDE_CBC_SHA"; alias = none }
    ∷ record { id = 0x0020; name = "TLS_KRB5_WITH_RC4_128_SHA"; alias = none }
    ∷ record { id = 0x0021; name = "TLS_KRB5_WITH_IDEA_CBC_SHA"; alias = none }
    ∷ record { id = 0x0022; name = "TLS_KRB5_WITH_DES_CBC_MD5"; alias = none }
    ∷ record { id = 0x0023; name = "TLS_KRB5_WITH_3DES_EDE_CBC_MD5"; alias = none }
    ∷ record { id = 0x0024; name = "TLS_KRB5_WITH_RC4_128_MD5"; alias = none }
    ∷ record { id = 0x0025; name = "TLS_KRB5_WITH_IDEA_CBC_MD5"; alias = none }
    ∷ record { id = 0x0026; name = "TLS_KRB5_EXPORT_WITH_DES_CBC_40_SHA"; alias = none }
    ∷ record { id = 0x0027; name = "TLS_KRB5_EXPORT_WITH_RC2_CBC_40_SHA"; alias = none }
    ∷ record { id = 0x0028; name = "TLS_KRB5_EXPORT_WITH_RC4_40_SHA"; alias = none }
    ∷ record { id = 0x0029; name = "TLS_KRB5_EXPORT_WITH_DES_CBC_40_MD5"; alias = none }
    ∷ record { id = 0x002a; name = "TLS_KRB5_EXPORT_WITH_RC2_CBC_40_MD5"; alias = none }
    ∷ record { id = 0x002b; name = "TLS_KRB5_EXPORT_WITH_RC4_40_MD5"; alias = none }
    ∷ record { id = 0x002c; name = "TLS_PSK_WITH_NULL_SHA"; alias = none }
    ∷ record { id = 0x002d; name = "TLS_DHE_PSK_WITH_NULL_SHA"; alias = none }
    ∷ record { id = 0x002e; name = "TLS_RSA_PSK_WITH_NULL_SHA"; alias = none }
    ∷ record { id = 0x002f; name = "TLS_RSA_WITH_AES_128_CBC_SHA"; alias = none }
    ∷ record { id = 0x0030; name = "TLS_DH_DSS_WITH_AES_128_CBC_SHA"; alias = none }
    ∷ record { id = 0x0031; name = "TLS_DH_RSA_WITH_AES_128_CBC_SHA"; alias = none }
    ∷ record { id = 0x0032; name = "TLS_DHE_DSS_WITH_AES_128_CBC_SHA"; alias = none }
    ∷ record { id = 0x0033; name = "TLS_DHE_RSA_WITH_AES_128_CBC_SHA"; alias = none }
    ∷ record { id = 0x0034; name = "TLS_DH_anon_WITH_AES_128_CBC_SHA"; alias = none }
    ∷ record { id = 0x0035; name = "TLS_RSA_WITH_AES_256_CBC_SHA"; alias = none }
    ∷ record { id = 0x0036; name = "TLS_DH_DSS_WITH_AES_256_CBC_SHA"; alias = none }
    ∷ record { id = 0x0037; name = "TLS_DH_RSA_WITH_AES_256_CBC_SHA"; alias = none }
    ∷ record { id = 0x0038; name = "TLS_DHE_DSS_WITH_AES_256_CBC_SHA"; alias = none }
    ∷ record { id = 0x0039; name = "TLS_DHE_RSA_WITH_AES_256_CBC_SHA"; alias = none }
    ∷ record { id = 0x003a; name = "TLS_DH_anon_WITH_AES_256_CBC_SHA"; alias = none }
    ∷ record { id = 0x003b; name = "TLS_RSA_WITH_NULL_SHA256"; alias = some "NULL-SHA256" }
    ∷ record { id = 0x003c; name = "TLS_RSA_WITH_AES_128_CBC_SHA256"; alias = some "AES128-SHA256" }
    ∷ record { id = 0x003d; name = "TLS_RSA_WITH_AES_256_CBC_SHA256"; alias = some "AES256-SHA256" }
    ∷ record {
      id = 0x003e;
      name = "TLS_DH_DSS_WITH_AES_128_CBC_SHA256";
      alias = some "DH-DSS-AES128-SHA256";
    }
    ∷ record {
      id = 0x003f;
      name = "TLS_DH_RSA_WITH_AES_128_CBC_SHA256";
      alias = some "DH-RSA-AES128-SHA256";
    }
    ∷ record {
      id = 0x0040;
      name = "TLS_DHE_DSS_WITH_AES_128_CBC_SHA256";
      alias = some "DHE-DSS-AES128-SHA256";
    }
    ∷ record { id = 0x0041; name = "TLS_RSA_WITH_CAMELLIA_128_CBC_SHA"; alias = none }
    ∷ record { id = 0x0042; name = "TLS_DH_DSS_WITH_CAMELLIA_128_CBC_SHA"; alias = none }
    ∷ record { id = 0x0043; name = "TLS_DH_RSA_WITH_CAMELLIA_128_CBC_SHA"; alias = none }
    ∷ record { id = 0x0044; name = "TLS_DHE_DSS_WITH_CAMELLIA_128_CBC_SHA"; alias = none }
    ∷ record { id = 0x0045; name = "TLS_DHE_RSA_WITH_CAMELLIA_128_CBC_SHA"; alias = none }
    ∷ record { id = 0x0046; name = "TLS_DH_anon_WITH_CAMELLIA_128_CBC_SHA"; alias = none }
    ∷ record { id = 0x0047; name = "TLS_ECDH_ECDSA_WITH_NULL_SHA_draft"; alias = none }
    ∷ record { id = 0x0048; name = "TLS_ECDH_ECDSA_WITH_RC4_128_SHA_draft"; alias = none }
    ∷ record { id = 0x0049; name = "TLS_ECDH_ECDSA_WITH_DES_CBC_SHA_draft"; alias = none }
    ∷ record { id = 0x004a; name = "TLS_ECDH_ECDSA_WITH_3DES_EDE_CBC_SHA_draft"; alias = none }
    ∷ record { id = 0x004b; name = "TLS_ECDH_ECDSA_WITH_AES_128_CBC_SHA_draft"; alias = none }
    ∷ record { id = 0x004c; name = "TLS_ECDH_ECDSA_WITH_AES_256_CBC_SHA_draft"; alias = none }
    ∷ record { id = 0x004d; name = "TLS_ECDH_ECNRA_WITH_DES_CBC_SHA_draft"; alias = none }
    ∷ record { id = 0x004e; name = "TLS_ECDH_ECNRA_WITH_3DES_EDE_CBC_SHA_draft"; alias = none }
    ∷ record { id = 0x004f; name = "TLS_ECMQV_ECDSA_NULL_SHA_draft"; alias = none }
    ∷ record { id = 0x0050; name = "TLS_ECMQV_ECDSA_WITH_RC4_128_SHA_draft"; alias = none }
    ∷ record { id = 0x0051; name = "TLS_ECMQV_ECDSA_WITH_DES_CBC_SHA_draft"; alias = none }
    ∷ record { id = 0x0052; name = "TLS_ECMQV_ECDSA_WITH_3DES_EDE_CBC_SHA_draft"; alias = none }
    ∷ record { id = 0x0053; name = "TLS_ECMQV_ECNRA_NULL_SHA_draft"; alias = none }
    ∷ record { id = 0x0054; name = "TLS_ECMQV_ECNRA_WITH_RC4_128_SHA_draft"; alias = none }
    ∷ record { id = 0x0055; name = "TLS_ECMQV_ECNRA_WITH_DES_CBC_SHA_draft"; alias = none }
    ∷ record { id = 0x0056; name = "TLS_ECMQV_ECNRA_WITH_3DES_EDE_CBC_SHA_draft"; alias = none }
    ∷ record { id = 0x0057; name = "TLS_ECDH_anon_NULL_WITH_SHA_draft"; alias = none }
    ∷ record { id = 0x0058; name = "TLS_ECDH_anon_WITH_RC4_128_SHA_draft"; alias = none }
    ∷ record { id = 0x0059; name = "TLS_ECDH_anon_WITH_DES_CBC_SHA_draft"; alias = none }
    ∷ record { id = 0x005a; name = "TLS_ECDH_anon_WITH_3DES_EDE_CBC_SHA_draft"; alias = none }
    ∷ record { id = 0x005b; name = "TLS_ECDH_anon_EXPORT_WITH_DES40_CBC_SHA_draft"; alias = none }
    ∷ record { id = 0x005c; name = "TLS_ECDH_anon_EXPORT_WITH_RC4_40_SHA_draft"; alias = none }
    ∷ record { id = 0x0060; name = "TLS_RSA_EXPORT1024_WITH_RC4_56_MD5"; alias = none }
    ∷ record { id = 0x0061; name = "TLS_RSA_EXPORT1024_WITH_RC2_CBC_56_MD5"; alias = none }
    ∷ record { id = 0x0062; name = "TLS_RSA_EXPORT1024_WITH_DES_CBC_SHA"; alias = none }
    ∷ record { id = 0x0063; name = "TLS_DHE_DSS_EXPORT1024_WITH_DES_CBC_SHA"; alias = none }
    ∷ record { id = 0x0064; name = "TLS_RSA_EXPORT1024_WITH_RC4_56_SHA"; alias = none }
    ∷ record { id = 0x0065; name = "TLS_DHE_DSS_EXPORT1024_WITH_RC4_56_SHA"; alias = none }
    ∷ record { id = 0x0066; name = "TLS_DHE_DSS_WITH_RC4_128_SHA"; alias = none }
    ∷ record {
      id = 0x0067;
      name = "TLS_DHE_RSA_WITH_AES_128_CBC_SHA256";
      alias = some "DHE-RSA-AES128-SHA256";
    }
    ∷ record {
      id = 0x0068;
      name = "TLS_DH_DSS_WITH_AES_256_CBC_SHA256";
      alias = some "DH-DSS-AES256-SHA256";
    }
    ∷ record {
      id = 0x0069;
      name = "TLS_DH_RSA_WITH_AES_256_CBC_SHA256";
      alias = some "DH-RSA-AES256-SHA256";
    }
    ∷ record {
      id = 0x006a;
      name = "TLS_DHE_DSS_WITH_AES_256_CBC_SHA256";
      alias = some "DHE-DSS-AES256-SHA256";
    }
    ∷ record {
      id = 0x006b;
      name = "TLS_DHE_RSA_WITH_AES_256_CBC_SHA256";
      alias = some "DHE-RSA-AES256-SHA256";
    }
    ∷ record {
      id = 0x006c;
      name = "TLS_DH_anon_WITH_AES_128_CBC_SHA256";
      alias = some "ADH-AES128-SHA256";
    }
    ∷ record {
      id = 0x006d;
      name = "TLS_DH_anon_WITH_AES_256_CBC_SHA256";
      alias = some "ADH-AES256-SHA256";
    }
    ∷ record { id = 0x0072; name = "TLS_DHE_DSS_WITH_3DES_EDE_CBC_RMD"; alias = none }
    ∷ record { id = 0x0073; name = "TLS_DHE_DSS_WITH_AES_128_CBC_RMD"; alias = none }
    ∷ record { id = 0x0074; name = "TLS_DHE_DSS_WITH_AES_256_CBC_RMD"; alias = none }
    ∷ record { id = 0x0077; name = "TLS_DHE_RSA_WITH_3DES_EDE_CBC_RMD"; alias = none }
    ∷ record { id = 0x0078; name = "TLS_DHE_RSA_WITH_AES_128_CBC_RMD"; alias = none }
    ∷ record { id = 0x0079; name = "TLS_DHE_RSA_WITH_AES_256_CBC_RMD"; alias = none }
    ∷ record { id = 0x007c; name = "TLS_RSA_WITH_3DES_EDE_CBC_RMD"; alias = none }
    ∷ record { id = 0x007d; name = "TLS_RSA_WITH_AES_128_CBC_RMD"; alias = none }
    ∷ record { id = 0x007e; name = "TLS_RSA_WITH_AES_256_CBC_RMD"; alias = none }
    ∷ record { id = 0x0080; name = "TLS_GOSTR341094_WITH_28147_CNT_IMIT"; alias = none }
    ∷ record { id = 0x0081; name = "TLS_GOSTR341001_WITH_28147_CNT_IMIT"; alias = none }
    ∷ record { id = 0x0082; name = "TLS_GOSTR341094_WITH_NULL_GOSTR3411"; alias = none }
    ∷ record { id = 0x0083; name = "TLS_GOSTR341001_WITH_NULL_GOSTR3411"; alias = none }
    ∷ record { id = 0x0084; name = "TLS_RSA_WITH_CAMELLIA_256_CBC_SHA"; alias = none }
    ∷ record { id = 0x0085; name = "TLS_DH_DSS_WITH_CAMELLIA_256_CBC_SHA"; alias = none }
    ∷ record { id = 0x0086; name = "TLS_DH_RSA_WITH_CAMELLIA_256_CBC_SHA"; alias = none }
    ∷ record { id = 0x0087; name = "TLS_DHE_DSS_WITH_CAMELLIA_256_CBC_SHA"; alias = none }
    ∷ record { id = 0x0088; name = "TLS_DHE_RSA_WITH_CAMELLIA_256_CBC_SHA"; alias = none }
    ∷ record { id = 0x0089; name = "TLS_DH_anon_WITH_CAMELLIA_256_CBC_SHA"; alias = none }
    ∷ record { id = 0x008a; name = "TLS_PSK_WITH_RC4_128_SHA"; alias = some "PSK-RC4-SHA" }
    ∷ record {
      id = 0x008b;
      name = "TLS_PSK_WITH_3DES_EDE_CBC_SHA";
      alias = some "PSK-3DES-EDE-CBC-SHA";
    }
    ∷ record { id = 0x008c; name = "TLS_PSK_WITH_AES_128_CBC_SHA"; alias = none }
    ∷ record { id = 0x008d; name = "TLS_PSK_WITH_AES_256_CBC_SHA"; alias = none }
    ∷ record { id = 0x008e; name = "TLS_DHE_PSK_WITH_RC4_128_SHA"; alias = none }
    ∷ record { id = 0x008f; name = "TLS_DHE_PSK_WITH_3DES_EDE_CBC_SHA"; alias = none }
    ∷ record { id = 0x0090; name = "TLS_DHE_PSK_WITH_AES_128_CBC_SHA"; alias = none }
    ∷ record { id = 0x0091; name = "TLS_DHE_PSK_WITH_AES_256_CBC_SHA"; alias = none }
    ∷ record { id = 0x0092; name = "TLS_RSA_PSK_WITH_RC4_128_SHA"; alias = none }
    ∷ record { id = 0x0093; name = "TLS_RSA_PSK_WITH_3DES_EDE_CBC_SHA"; alias = none }
    ∷ record { id = 0x0094; name = "TLS_RSA_PSK_WITH_AES_128_CBC_SHA"; alias = none }
    ∷ record { id = 0x0095; name = "TLS_RSA_PSK_WITH_AES_256_CBC_SHA"; alias = none }
    ∷ []
