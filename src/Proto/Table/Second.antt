-- ===== src/Proto/Table/Second.antt =====
-- KNOWN_CIPHERS of src/tls_proto.c, ids 0x0096 to 0xc04f.
use mod_tls.Base.{List, [], ◌∷◌, none, some}
use mod_tls.Proto.Table.Entry.{Cipher}

-- Entries in the order of the C array.
unfoldable pub second_ciphers : List Cipher
second_ciphers =
    record { id = 0x0096; name = "TLS_RSA_WITH_SEED_CBC_SHA"; alias = none }
    ∷ record { id = 0x0097; name = "TLS_DH_DSS_WITH_SEED_CBC_SHA"; alias = none }
    ∷ record { id = 0x0098; name = "TLS_DH_RSA_WITH_SEED_CBC_SHA"; alias = none }
    ∷ record { id = 0x0099; name = "TLS_DHE_DSS_WITH_SEED_CBC_SHA"; alias = none }
    ∷ record { id = 0x009a; name = "TLS_DHE_RSA_WITH_SEED_CBC_SHA"; alias = none }
    ∷ record { id = 0x009b; name = "TLS_DH_anon_WITH_SEED_CBC_SHA"; alias = none }
    ∷ record {
      id = 0x009c;
      name = "TLS_RSA_WITH_AES_128_GCM_SHA256";
      alias = some "AES128-GCM-SHA256";
    }
    ∷ record {
      id = 0x009d;
      name = "TLS_RSA_WITH_AES_256_GCM_SHA384";
      alias = some "AES256-GCM-SHA384";
    }
    ∷ record {
      id = 0x009e;
      name = "TLS_DHE_RSA_WITH_AES_128_GCM_SHA256";
      alias = some "DHE-RSA-AES128-GCM-SHA256";
    }
    ∷ record {
      id = 0x009f;
      name = "TLS_DHE_RSA_WITH_AES_256_GCM_SHA384";
      alias = some "DHE-RSA-AES256-GCM-SHA384";
    }
    ∷ record {
      id = 0x00a0;
      name = "TLS_DH_RSA_WITH_AES_128_GCM_SHA256";
      alias = some "DH-RSA-AES128-GCM-SHA256";
    }
    ∷ record {
      id = 0x00a1;
      name = "TLS_DH_RSA_WITH_AES_256_GCM_SHA384";
      alias = some "DH-RSA-AES256-GCM-SHA384";
    }
    ∷ record {
      id = 0x00a2;
      name = "TLS_DHE_DSS_WITH_AES_128_GCM_SHA256";
      alias = some "DHE-DSS-AES128-GCM-SHA256";
    }
    ∷ record {
      id = 0x00a3;
      name = "TLS_DHE_DSS_WITH_AES_256_GCM_SHA384";
      alias = some "DHE-DSS-AES256-GCM-SHA384";
    }
    ∷ record {
      id = 0x00a4;
      name = "TLS_DH_DSS_WITH_AES_128_GCM_SHA256";
      alias = some "DH-DSS-AES128-GCM-SHA256";
    }
    ∷ record {
      id = 0x00a5;
      name = "TLS_DH_DSS_WITH_AES_256_GCM_SHA384";
      alias = some "DH-DSS-AES256-GCM-SHA384";
    }
    ∷ record {
      id = 0x00a6;
      name = "TLS_DH_anon_WITH_AES_128_GCM_SHA256";
      alias = some "ADH-AES128-GCM-SHA256";
    }
    ∷ record {
      id = 0x00a7;
      name = "TLS_DH_anon_WITH_AES_256_GCM_SHA384";
      alias = some "ADH-AES256-GCM-SHA384";
    }
    ∷ record { id = 0x00a8; name = "TLS_PSK_WITH_AES_128_GCM_SHA256"; alias = none }
    ∷ record { id = 0x00a9; name = "TLS_PSK_WITH_AES_256_GCM_SHA384"; alias = none }
    ∷ record { id = 0x00aa; name = "TLS_DHE_PSK_WITH_AES_128_GCM_SHA256"; alias = none }
    ∷ record { id = 0x00ab; name = "TLS_DHE_PSK_WITH_AES_256_GCM_SHA384"; alias = none }
    ∷ record { id = 0x00ac; name = "TLS_RSA_PSK_WITH_AES_128_GCM_SHA256"; alias = none }
    ∷ record { id = 0x00ad; name = "TLS_RSA_PSK_WITH_AES_256_GCM_SHA384"; alias = none }
    ∷ record {
      id = 0x00ae;
      name = "TLS_PSK_WITH_AES_128_CBC_SHA256";
      alias = some "PSK-AES128-CBC-SHA";
    }
    ∷ record {
      id = 0x00af;
      name = "TLS_PSK_WITH_AES_256_CBC_SHA384";
      alias = some "PSK-AES256-CBC-SHA";
    }
    ∷ record { id = 0x00b0; name = "TLS_PSK_WITH_NULL_SHA256"; alias = none }
    ∷ record { id = 0x00b1; name = "TLS_PSK_WITH_NULL_SHA384"; alias = none }
    ∷ record { id = 0x00b2; name = "TLS_DHE_PSK_WITH_AES_128_CBC_SHA256"; alias = none }
    ∷ record { id = 0x00b3; name = "TLS_DHE_PSK_WITH_AES_256_CBC_SHA384"; alias = none }
    ∷ record { id = 0x00b4; name = "TLS_DHE_PSK_WITH_NULL_SHA256"; alias = none }
    ∷ record { id = 0x00b5; name = "TLS_DHE_PSK_WITH_NULL_SHA384"; alias = none }
    ∷ record { id = 0x00b6; name = "TLS_RSA_PSK_WITH_AES_128_CBC_SHA256"; alias = none }
    ∷ record { id = 0x00b7; name = "TLS_RSA_PSK_WITH_AES_256_CBC_SHA384"; alias = none }
    ∷ record { id = 0x00b8; name = "TLS_RSA_PSK_WITH_NULL_SHA256"; alias = none }
    ∷ record { id = 0x00b9; name = "TLS_RSA_PSK_WITH_NULL_SHA384"; alias = none }
    ∷ record { id = 0x00ba; name = "TLS_RSA_WITH_CAMELLIA_128_CBC_SHA256"; alias = none }
    ∷ record { id = 0x00bb; name = "TLS_DH_DSS_WITH_CAMELLIA_128_CBC_SHA256"; alias = none }
    ∷ record { id = 0x00bc; name = "TLS_DH_RSA_WITH_CAMELLIA_128_CBC_SHA256"; alias = none }
    ∷ record { id = 0x00bd; name = "TLS_DHE_DSS_WITH_CAMELLIA_128_CBC_SHA256"; alias = none }
    ∷ record { id = 0x00be; name = "TLS_DHE_RSA_WITH_CAMELLIA_128_CBC_SHA256"; alias = none }
    ∷ record { id = 0x00bf; name = "TLS_DH_anon_WITH_CAMELLIA_128_CBC_SHA256"; alias = none }
    ∷ record { id = 0x00c0; name = "TLS_RSA_WITH_CAMELLIA_256_CBC_SHA256"; alias = none }
    ∷ record { id = 0x00c1; name = "TLS_DH_DSS_WITH_CAMELLIA_256_CBC_SHA256"; alias = none }
    ∷ record { id = 0x00c2; name = "TLS_DH_RSA_WITH_CAMELLIA_256_CBC_SHA256"; alias = none }
    ∷ record { id = 0x00c3; name = "TLS_DHE_DSS_WITH_CAMELLIA_256_CBC_SHA256"; alias = none }
    ∷ record { id = 0x00c4; name = "TLS_DHE_RSA_WITH_CAMELLIA_256_CBC_SHA256"; alias = none }
    ∷ record { id = 0x00c5; name = "TLS_DH_anon_WITH_CAMELLIA_256_CBC_SHA256"; alias = none }
    ∷ record { id = 0x00ff; name = "TLS_EMPTY_RENEGOTIATION_INFO_SCSV"; alias = none }
    ∷ record {
      id = 0x1301;
      name = "TLS_AES_128_GCM_SHA256";
      alias = some "TLS13_AES_128_GCM_SHA256";
    }
    ∷ record {
      id = 0x1302;
      name = "TLS_AES_256_GCM_SHA384";
      alias = some "TLS13_AES_256_GCM_SHA384";
    }
    ∷ record {
      id = 0x1303;
      name = "TLS_CHACHA20_POLY1305_SHA256";
      alias = some "TLS13_CHACHA20_POLY1305_SHA256";
    }
    ∷ record {
      id = 0x1304;
      name = "TLS_AES_128_CCM_SHA256";
      alias = some "TLS13_AES_128_CCM_SHA256";
    }
    ∷ record {
      id = 0x1305;
      name = "TLS_AES_128_CCM_8_SHA256";
      alias = some "TLS13_AES_128_CCM_8_SHA256";
    }
    ∷ record { id = 0xc001; name = "TLS_ECDH_ECDSA_WITH_NULL_SHA"; alias = none }
    ∷ record { id = 0xc002; name = "TLS_ECDH_ECDSA_WITH_RC4_128_SHA"; alias = none }
    ∷ record { id = 0xc003; name = "TLS_ECDH_ECDSA_WITH_3DES_EDE_CBC_SHA"; alias = none }
    ∷ record { id = 0xc004; name = "TLS_ECDH_ECDSA_WITH_AES_128_CBC_SHA"; alias = none }
    ∷ record { id = 0xc005; name = "TLS_ECDH_ECDSA_WITH_AES_256_CBC_SHA"; alias = none }
    ∷ record { id = 0xc006; name = "TLS_ECDHE_ECDSA_WITH_NULL_SHA"; alias = none }
    ∷ record { id = 0xc007; name = "TLS_ECDHE_ECDSA_WITH_RC4_128_SHA"; alias = none }
    ∷ record { id = 0xc008; name = "TLS_ECDHE_ECDSA_WITH_3DES_EDE_CBC_SHA"; alias = none }
    ∷ record { id = 0xc009; name = "TLS_ECDHE_ECDSA_WITH_AES_128_CBC_SHA"; alias = none }
    ∷ record { id = 0xc00a; name = "TLS_ECDHE_ECDSA_WITH_AES_256_CBC_SHA"; alias = none }
    ∷ record { id = 0xc00b; name = "TLS_ECDH_RSA_WITH_NULL_SHA"; alias = none }
    ∷ record { id = 0xc00c; name = "TLS_ECDH_RSA_WITH_RC4_128_SHA"; alias = none }
    ∷ record { id = 0xc00d; name = "TLS_ECDH_RSA_WITH_3DES_EDE_CBC_SHA"; alias = none }
    ∷ record { id = 0xc00e; name = "TLS_ECDH_RSA_WITH_AES_128_CBC_SHA"; alias = none }
    ∷ record { id = 0xc00f; name = "TLS_ECDH_RSA_WITH_AES_256_CBC_SHA"; alias = none }
    ∷ record { id = 0xc010; name = "TLS_ECDHE_RSA_WITH_NULL_SHA"; alias = none }
    ∷ record { id = 0xc011; name = "TLS_ECDHE_RSA_WITH_RC4_128_SHA"; alias = none }
    ∷ record { id = 0xc012; name = "TLS_ECDHE_RSA_WITH_3DES_EDE_CBC_SHA"; alias = none }
    ∷ record { id = 0xc013; name = "TLS_ECDHE_RSA_WITH_AES_128_CBC_SHA"; alias = none }
    ∷ record { id = 0xc014; name = "TLS_ECDHE_RSA_WITH_AES_256_CBC_SHA"; alias = none }
    ∷ record { id = 0xc015; name = "TLS_ECDH_anon_WITH_NULL_SHA"; alias = none }
    ∷ record { id = 0xc016; name = "TLS_ECDH_anon_WITH_RC4_128_SHA"; alias = none }
    ∷ record { id = 0xc017; name = "TLS_ECDH_anon_WITH_3DES_EDE_CBC_SHA"; alias = none }
    ∷ record { id = 0xc018; name = "TLS_ECDH_anon_WITH_AES_128_CBC_SHA"; alias = none }
    ∷ record { id = 0xc019; name = "TLS_ECDH_anon_WITH_AES_256_CBC_SHA"; alias = none }
    ∷ record { id = 0xc01a; name = "TLS_SRP_SHA_WITH_3DES_EDE_CBC_SHA"; alias = none }
    ∷ record { id = 0xc01b; name = "TLS_SRP_SHA_RSA_WITH_3DES_EDE_CBC_SHA"; alias = none }
    ∷ record { id = 0xc01c; name = "TLS_SRP_SHA_DSS_WITH_3DES_EDE_CBC_SHA"; alias = none }
    ∷ record { id = 0xc01d; name = "TLS_SRP_SHA_WITH_AES_128_CBC_SHA"; alias = none }
    ∷ record { id = 0xc01e; name = "TLS_SRP_SHA_RSA_WITH_AES_128_CBC_SHA"; alias = none }
    ∷ record { id = 0xc01f; name = "TLS_SRP_SHA_DSS_WITH_AES_128_CBC_SHA"; alias = none }
    ∷ record { id = 0xc020; name = "TLS_SRP_SHA_WITH_AES_256_CBC_SHA"; alias = none }
    ∷ record { id = 0xc021; name = "TLS_SRP_SHA_RSA_WITH_AES_256_CBC_SHA"; alias = none }
    ∷ record { id = 0xc022; name = "TLS_SRP_SHA_DSS_WITH_AES_256_CBC_SHA"; alias = none }
    ∷ record {
      id = 0xc023;
      name = "TLS_ECDHE_ECDSA_WITH_AES_128_CBC_SHA256";
      alias = some "ECDHE-ECDSA-AES128-SHA256";
    }
    ∷ record {
      id = 0xc024;
      name = "TLS_ECDHE_ECDSA_WITH_AES_256_CBC_SHA384";
      alias = some "ECDHE-ECDSA-AES256-SHA384";
    }
    ∷ record {
      id = 0xc025;
      name = "TLS_ECDH_ECDSA_WITH_AES_128_CBC_SHA256";
      alias = some "ECDH-ECDSA-AES128-SHA256";
    }
    ∷ record {
      id = 0xc026;
      name = "TLS_ECDH_ECDSA_WITH_AES_256_CBC_SHA384";
      alias = some "ECDH-ECDSA-AES256-SHA384";
    }
    ∷ record {
      id = 0xc027;
      name = "TLS_ECDHE_RSA_WITH_AES_128_CBC_SHA256";
      alias = some "ECDHE-RSA-AES128-SHA256";
    }
    ∷ record {
      id = 0xc028;
      name = "TLS_ECDHE_RSA_WITH_AES_256_CBC_SHA384";
      alias = some "ECDHE-RSA-AES256-SHA384";
    }
    ∷ record {
      id = 0xc029;
      name = "TLS_ECDH_RSA_WITH_AES_128_CBC_SHA256";
      alias = some "ECDH-RSA-AES128-SHA256";
    }
    ∷ record {
      id = 0xc02a;
      name = "TLS_ECDH_RSA_WITH_AES_256_CBC_SHA384";
      alias = some "ECDH-RSA-AES256-SHA384";
    }
    ∷ record {
      id = 0xc02b;
      name = "TLS_ECDHE_ECDSA_WITH_AES_128_GCM_SHA256";
      alias = some "ECDHE-ECDSA-AES128-GCM-SHA256";
    }
    ∷ record {
      id = 0xc02c;
      name = "TLS_ECDHE_ECDSA_WITH_AES_256_GCM_SHA384";
      alias = some "ECDHE-ECDSA-AES256-GCM-SHA384";
    }
    ∷ record {
      id = 0xc02d;
      name = "TLS_ECDH_ECDSA_WITH_AES_128_GCM_SHA256";
      alias = some "ECDH-ECDSA-AES128-GCM-SHA256";
    }
    ∷ record {
      id = 0xc02e;
      name = "TLS_ECDH_ECDSA_WITH_AES_256_GCM_SHA384";
      alias = some "ECDH-ECDSA-AES256-GCM-SHA384";
    }
    ∷ record {
      id = 0xc02f;
      name = "TLS_ECDHE_RSA_WITH_AES_128_GCM_SHA256";
      alias = some "ECDHE-RSA-AES128-GCM-SHA256";
    }
    ∷ record {
      id = 0xc030;
      name = "TLS_ECDHE_RSA_WITH_AES_256_GCM_SHA384";
      alias = some "ECDHE-RSA-AES256-GCM-SHA384";
    }
    ∷ record {
      id = 0xc031;
      name = "TLS_ECDH_RSA_WITH_AES_128_GCM_SHA256";
      alias = some "ECDH-RSA-AES128-GCM-SHA256";
    }
    ∷ record {
      id = 0xc032;
      name = "TLS_ECDH_RSA_WITH_AES_256_GCM_SHA384";
      alias = some "ECDH-RSA-AES256-GCM-SHA384";
    }
    ∷ record { id = 0xc033; name = "TLS_ECDHE_PSK_WITH_RC4_128_SHA"; alias = none }
    ∷ record { id = 0xc034; name = "TLS_ECDHE_PSK_WITH_3DES_EDE_CBC_SHA"; alias = none }
    ∷ record { id = 0xc035; name = "TLS_ECDHE_PSK_WITH_AES_128_CBC_SHA"; alias = none }
    ∷ record { id = 0xc036; name = "TLS_ECDHE_PSK_WITH_AES_256_CBC_SHA"; alias = none }
    ∷ record { id = 0xc037; name = "TLS_ECDHE_PSK_WITH_AES_128_CBC_SHA256"; alias = none }
    ∷ record { id = 0xc038; name = "TLS_ECDHE_PSK_WITH_AES_256_CBC_SHA384"; alias = none }
    ∷ record { id = 0xc039; name = "TLS_ECDHE_PSK_WITH_NULL_SHA"; alias = none }
    ∷ record { id = 0xc03a; name = "TLS_ECDHE_PSK_WITH_NULL_SHA256"; alias = none }
    ∷ record { id = 0xc03b; name = "TLS_ECDHE_PSK_WITH_NULL_SHA384"; alias = none }
    ∷ record { id = 0xc03c; name = "TLS_RSA_WITH_ARIA_128_CBC_SHA256"; alias = none }
    ∷ record { id = 0xc03d; name = "TLS_RSA_WITH_ARIA_256_CBC_SHA384"; alias = none }
    ∷ record { id = 0xc03e; name = "TLS_DH_DSS_WITH_ARIA_128_CBC_SHA256"; alias = none }
    ∷ record { id = 0xc03f; name = "TLS_DH_DSS_WITH_ARIA_256_CBC_SHA384"; alias = none }
    ∷ record { id = 0xc040; name = "TLS_DH_RSA_WITH_ARIA_128_CBC_SHA256"; alias = none }
    ∷ record { id = 0xc041; name = "TLS_DH_RSA_WITH_ARIA_256_CBC_SHA384"; alias = none }
    ∷ record { id = 0xc042; name = "TLS_DHE_DSS_WITH_ARIA_128_CBC_SHA256"; alias = none }
    ∷ record { id = 0xc043; name = "TLS_DHE_DSS_WITH_ARIA_256_CBC_SHA384"; alias = none }
    ∷ record { id = 0xc044; name = "TLS_DHE_RSA_WITH_ARIA_128_CBC_SHA256"; alias = none }
    ∷ record { id = 0xc045; name = "TLS_DHE_RSA_WITH_ARIA_256_CBC_SHA384"; alias = none }
    ∷ record { id = 0xc046; name = "TLS_DH_anon_WITH_ARIA_128_CBC_SHA256"; alias = none }
    ∷ record { id = 0xc047; name = "TLS_DH_anon_WITH_ARIA_256_CBC_SHA384"; alias = none }
    ∷ record { id = 0xc048; name = "TLS_ECDHE_ECDSA_WITH_ARIA_128_CBC_SHA256"; alias = none }
    ∷ record { id = 0xc049; name = "TLS_ECDHE_ECDSA_WITH_ARIA_256_CBC_SHA384"; alias = none }
    ∷ record { id = 0xc04a; name = "TLS_ECDH_ECDSA_WITH_ARIA_128_CBC_SHA256"; alias = none }
    ∷ record { id = 0xc04b; name = "TLS_ECDH_ECDSA_WITH_ARIA_256_CBC_SHA384"; alias = none }
    ∷ record { id = 0xc04c; name = "TLS_ECDHE_RSA_WITH_ARIA_128_CBC_SHA256"; alias = none }
    ∷ record { id = 0xc04d; name = "TLS_ECDHE_RSA_WITH_ARIA_256_CBC_SHA384"; alias = none }
    ∷ record { id = 0xc04e; name = "TLS_ECDH_RSA_WITH_ARIA_128_CBC_SHA256"; alias = none }
    ∷ record { id = 0xc04f; name = "TLS_ECDH_RSA_WITH_ARIA_256_CBC_SHA384"; alias = none }
    ∷ []
