-- ===== src/Proto/Table/Third.antt =====
-- KNOWN_CIPHERS of src/tls_proto.c, ids 0xc050 to 0xfeff.
use mod_tls.Base.{List, [], ◌∷◌, none, some}
use mod_tls.Proto.Table.Entry.{Cipher}

-- Entries in the order of the C array.
unfoldable pub third_ciphers : List Cipher
third_ciphers =
    record { id = 0xc050; name = "TLS_RSA_WITH_ARIA_128_GCM_SHA256"; alias = none }
    ∷ record { id = 0xc051; name = "TLS_RSA_WITH_ARIA_256_GCM_SHA384"; alias = none }
    ∷ record { id = 0xc052; name = "TLS_DHE_RSA_WITH_ARIA_128_GCM_SHA256"; alias = none }
    ∷ record { id = 0xc053; name = "TLS_DHE_RSA_WITH_ARIA_256_GCM_SHA384"; alias = none }
    ∷ record { id = 0xc054; name = "TLS_DH_RSA_WITH_ARIA_128_GCM_SHA256"; alias = none }
    ∷ record { id = 0xc055; name = "TLS_DH_RSA_WITH_ARIA_256_GCM_SHA384"; alias = none }
    ∷ record { id = 0xc056; name = "TLS_DHE_DSS_WITH_ARIA_128_GCM_SHA256"; alias = none }
    ∷ record { id = 0xc057; name = "TLS_DHE_DSS_WITH_ARIA_256_GCM_SHA384"; alias = none }
    ∷ record { id = 0xc058; name = "TLS_DH_DSS_WITH_ARIA_128_GCM_SHA256"; alias = none }
    ∷ record { id = 0xc059; name = "TLS_DH_DSS_WITH_ARIA_256_GCM_SHA384"; alias = none }
    ∷ record { id = 0xc05a; name = "TLS_DH_anon_WITH_ARIA_128_GCM_SHA256"; alias = none }
    ∷ record { id = 0xc05b; name = "TLS_DH_anon_WITH_ARIA_256_GCM_SHA384"; alias = none }
    ∷ record { id = 0xc05c; name = "TLS_ECDHE_ECDSA_WITH_ARIA_128_GCM_SHA256"; alias = none }
    ∷ record { id = 0xc05d; name = "TLS_ECDHE_ECDSA_WITH_ARIA_256_GCM_SHA384"; alias = none }
    ∷ record { id = 0xc05e; name = "TLS_ECDH_ECDSA_WITH_ARIA_128_GCM_SHA256"; alias = none }
    ∷ record { id = 0xc05f; name = "TLS_ECDH_ECDSA_WITH_ARIA_256_GCM_SHA384"; alias = none }
    ∷ record { id = 0xc060; name = "TLS_ECDHE_RSA_WITH_ARIA_128_GCM_SHA256"; alias = none }
    ∷ record { id = 0xc061; name = "TLS_ECDHE_RSA_WITH_ARIA_256_GCM_SHA384"; alias = none }
    ∷ record { id = 0xc062; name = "TLS_ECDH_RSA_WITH_ARIA_128_GCM_SHA256"; alias = none }
    ∷ record { id = 0xc063; name = "TLS_ECDH_RSA_WITH_ARIA_256_GCM_SHA384"; alias = none }
    ∷ record { id = 0xc064; name = "TLS_PSK_WITH_ARIA_128_CBC_SHA256"; alias = none }
    ∷ record { id = 0xc065; name = "TLS_PSK_WITH_ARIA_256_CBC_SHA384"; alias = none }
    ∷ record { id = 0xc066; name = "TLS_DHE_PSK_WITH_ARIA_128_CBC_SHA256"; alias = none }
    ∷ record { id = 0xc067; name = "TLS_DHE_PSK_WITH_ARIA_256_CBC_SHA384"; alias = none }
    ∷ record { id = 0xc068; name = "TLS_RSA_PSK_WITH_ARIA_128_CBC_SHA256"; alias = none }
    ∷ record { id = 0xc069; name = "TLS_RSA_PSK_WITH_ARIA_256_CBC_SHA384"; alias = none }
    ∷ record { id = 0xc06a; name = "TLS_PSK_WITH_ARIA_128_GCM_SHA256"; alias = none }
    ∷ record { id = 0xc06b; name = "TLS_PSK_WITH_ARIA_256_GCM_SHA384"; alias = none }
    ∷ record { id = 0xc06c; name = "TLS_DHE_PSK_WITH_ARIA_128_GCM_SHA256"; alias = none }
    ∷ record { id = 0xc06d; name = "TLS_DHE_PSK_WITH_ARIA_256_GCM_SHA384"; alias = none }
    ∷ record { id = 0xc06e; name = "TLS_RSA_PSK_WITH_ARIA_128_GCM_SHA256"; alias = none }
    ∷ record { id = 0xc06f; name = "TLS_RSA_PSK_WITH_ARIA_256_GCM_SHA384"; alias = none }
    ∷ record { id = 0xc070; name = "TLS_ECDHE_PSK_WITH_ARIA_128_CBC_SHA256"; alias = none }
    ∷ record { id = 0xc071; name = "TLS_ECDHE_PSK_WITH_ARIA_256_CBC_SHA384"; alias = none }
    ∷ record { id = 0xc072; name = "TLS_ECDHE_ECDSA_WITH_CAMELLIA_128_CBC_SHA256"; alias = none }
    ∷ record { id = 0xc073; name = "TLS_ECDHE_ECDSA_WITH_CAMELLIA_256_CBC_SHA384"; alias = none }
    ∷ record { id = 0xc074; name = "TLS_ECDH_ECDSA_WITH_CAMELLIA_128_CBC_SHA256"; alias = none }
    ∷ record { id = 0xc075; name = "TLS_ECDH_ECDSA_WITH_CAMELLIA_256_CBC_SHA384"; alias = none }
    ∷ record { id = 0xc076; name = "TLS_ECDHE_RSA_WITH_CAMELLIA_128_CBC_SHA256"; alias = none }
    ∷ record { id = 0xc077; name = "TLS_ECDHE_RSA_WITH_CAMELLIA_256_CBC_SHA384"; alias = none }
    ∷ record { id = 0xc078; name = "TLS_ECDH_RSA_WITH_CAMELLIA_128_CBC_SHA256"; alias = none }
    ∷ record { id = 0xc079; name = "TLS_ECDH_RSA_WITH_CAMELLIA_256_CBC_SHA384"; alias = none }
    ∷ record { id = 0xc07a; name = "TLS_RSA_WITH_CAMELLIA_128_GCM_SHA256"; alias = none }
    ∷ record { id = 0xc07b; name = "TLS_RSA_WITH_CAMELLIA_256_GCM_SHA384"; alias = none }
    ∷ record { id = 0xc07c; name = "TLS_DHE_RSA_WITH_CAMELLIA_128_GCM_SHA256"; alias = none }
    ∷ record { id = 0xc07d; name = "TLS_DHE_RSA_WITH_CAMELLIA_256_GCM_SHA384"; alias = none }
    ∷ record { id = 0xc07e; name = "TLS_DH_RSA_WITH_CAMELLIA_128_GCM_SHA256"; alias = none }
    ∷ record { id = 0xc07f; name = "TLS_DH_RSA_WITH_CAMELLIA_256_GCM_SHA384"; alias = none }
    ∷ record { id = 0xc080; name = "TLS_DHE_DSS_WITH_CAMELLIA_128_GCM_SHA256"; alias = none }
    ∷ record { id = 0xc081; name = "TLS_DHE_DSS_WITH_CAMELLIA_256_GCM_SHA384"; alias = none }
    ∷ record { id = 0xc082; name = "TLS_DH_DSS_WITH_CAMELLIA_128_GCM_SHA256"; alias = none }
    ∷ record { id = 0xc083; name = "TLS_DH_DSS_WITH_CAMELLIA_256_GCM_SHA384"; alias = none }
    ∷ record { id = 0xc084; name = "TLS_DH_anon_WITH_CAMELLIA_128_GCM_SHA256"; alias = none }
    ∷ record { id = 0xc085; name = "TLS_DH_anon_WITH_CAMELLIA_256_GCM_SHA384"; alias = none }
    ∷ record { id = 0xc086; name = "TLS_ECDHE_ECDSA_WITH_CAMELLIA_128_GCM_SHA256"; alias = none }
    ∷ record { id = 0xc087; name = "TLS_ECDHE_ECDSA_WITH_CAMELLIA_256_GCM_SHA384"; alias = none }
    ∷ record { id = 0xc088; name = "TLS_ECDH_ECDSA_WITH_CAMELLIA_128_GCM_SHA256"; alias = none }
    ∷ record { id = 0xc089; name = "TLS_ECDH_ECDSA_WITH_CAMELLIA_256_GCM_SHA384"; alias = none }
    ∷ record { id = 0xc08a; name = "TLS_ECDHE_RSA_WITH_CAMELLIA_128_GCM_SHA256"; alias = none }
    ∷ record { id = 0xc08b; name = "TLS_ECDHE_RSA_WITH_CAMELLIA_256_GCM_SHA384"; alias = none }
    ∷ record { id = 0xc08c; name = "TLS_ECDH_RSA_WITH_CAMELLIA_128_GCM_SHA256"; alias = none }
    ∷ record { id = 0xc08d; name = "TLS_ECDH_RSA_WITH_CAMELLIA_256_GCM_SHA384"; alias = none }
    ∷ record { id = 0xc08e; name = "TLS_PSK_WITH_CAMELLIA_128_GCM_SHA256"; alias = none }
    ∷ record { id = 0xc08f; name = "TLS_PSK_WITH_CAMELLIA_256_GCM_SHA384"; alias = none }
    ∷ record { id = 0xc090; name = "TLS_DHE_PSK_WITH_CAMELLIA_128_GCM_SHA256"; alias = none }
    ∷ record { id = 0xc091; name = "TLS_DHE_PSK_WITH_CAMELLIA_256_GCM_SHA384"; alias = none }
    ∷ record { id = 0xc092; name = "TLS_RSA_PSK_WITH_CAMELLIA_128_GCM_SHA256"; alias = none }
    ∷ record { id = 0xc093; name = "TLS_RSA_PSK_WITH_CAMELLIA_256_GCM_SHA384"; alias = none }
    ∷ record { id = 0xc094; name = "TLS_PSK_WITH_CAMELLIA_128_CBC_SHA256"; alias = none }
    ∷ record { id = 0xc095; name = "TLS_PSK_WITH_CAMELLIA_256_CBC_SHA384"; alias = none }
    ∷ record { id = 0xc096; name = "TLS_DHE_PSK_WITH_CAMELLIA_128_CBC_SHA256"; alias = none }
    ∷ record { id = 0xc097; name = "TLS_DHE_PSK_WITH_CAMELLIA_256_CBC_SHA384"; alias = none }
    ∷ record { id = 0xc098; name = "TLS_RSA_PSK_WITH_CAMELLIA_128_CBC_SHA256"; alias = none }
    ∷ record { id = 0xc099; name = "TLS_RSA_PSK_WITH_CAMELLIA_256_CBC_SHA384"; alias = none }
    ∷ record { id = 0xc09a; name = "TLS_ECDHE_PSK_WITH_CAMELLIA_128_CBC_SHA256"; alias = none }
    ∷ record { id = 0xc09b; name = "TLS_ECDHE_PSK_WITH_CAMELLIA_256_CBC_SHA384"; alias = none }
    ∷ record { id = 0xc09c; name = "TLS_RSA_WITH_AES_128_CCM"; alias = none }
    ∷ record { id = 0xc09d; name = "TLS_RSA_WITH_AES_256_CCM"; alias = none }
    ∷ record { id = 0xc09e; name = "TLS_DHE_RSA_WITH_AES_128_CCM"; alias = none }
    ∷ record { id = 0xc09f; name = "TLS_DHE_RSA_WITH_AES_256_CCM"; alias = none }
    ∷ record { id = 0xc0a0; name = "TLS_RSA_WITH_AES_128_CCM_8"; alias = none }
    ∷ record { id = 0xc0a1; name = "TLS_RSA_WITH_AES_256_CCM_8"; alias = none }
    ∷ record { id = 0xc0a2; name = "TLS_DHE_RSA_WITH_AES_128_CCM_8"; alias = none }
    ∷ record { id = 0xc0a3; name = "TLS_DHE_RSA_WITH_AES_256_CCM_8"; alias = none }
    ∷ record { id = 0xc0a4; name = "TLS_PSK_WITH_AES_128_CCM"; alias = none }
    ∷ record { id = 0xc0a5; name = "TLS_PSK_WITH_AES_256_CCM"; alias = none }
    ∷ record { id = 0xc0a6; name = "TLS_DHE_PSK_WITH_AES_128_CCM"; alias = none }
    ∷ record { id = 0xc0a7; name = "TLS_DHE_PSK_WITH_AES_256_CCM"; alias = none }
    ∷ record { id = 0xc0a8; name = "TLS_PSK_WITH_AES_128_CCM_8"; alias = none }
    ∷ record { id = 0xc0a9; name = "TLS_PSK_WITH_AES_256_CCM_8"; alias = none }
    ∷ record { id = 0xc0aa; name = "TLS_PSK_DHE_WITH_AES_128_CCM_8"; alias = none }
    ∷ record { id = 0xc0ab; name = "TLS_PSK_DHE_WITH_AES_256_CCM_8"; alias = none }
    ∷ record {
      id = 0xcca8;
      name = "TLS_ECDHE_RSA_WITH_CHACHA20_POLY1305_SHA256";
      alias = some "ECDHE-RSA-CHACHA20-POLY1305";
    }
    ∷ record {
      id = 0xcca9;
      name = "TLS_ECDHE_ECDSA_WITH_CHACHA20_POLY1305_SHA256";
      alias = some "ECDHE-ECDSA-CHACHA20-POLY1305";
    }
    ∷ record {
      id = 0xccaa;
      name = "TLS_DHE_RSA_WITH_CHACHA20_POLY1305_SHA256";
      alias = some "DHE-RSA-CHACHA20-POLY1305";
    }
    ∷ record {
      id = 0xccab;
      name = "TLS_PSK_WITH_CHACHA20_POLY1305_SHA256";
      alias = some "PSK-CHACHA20-POLY1305";
    }
    ∷ record {
      id = 0xccac;
      name = "TLS_ECDHE_PSK_WITH_CHACHA20_POLY1305_SHA256";
      alias = some "ECDHE-PSK-CHACHA20-POLY1305";
    }
    ∷ record {
      id = 0xccad;
      name = "TLS_DHE_PSK_WITH_CHACHA20_POLY1305_SHA256";
      alias = some "DHE-PSK-CHACHA20-POLY1305";
    }
    ∷ record {
      id = 0xccae;
      name = "TLS_RSA_PSK_WITH_CHACHA20_POLY1305_SHA256";
      alias = some "RSA-PSK-CHACHA20-POLY1305";
    }
    ∷ record { id = 0xfefe; name = "SSL_RSA_FIPS_WITH_DES_CBC_SHA"; alias = none }
    ∷ record { id = 0xfeff; name = "SSL_RSA_FIPS_WITH_3DES_EDE_CBC_SHA"; alias = none }
    ∷ []
