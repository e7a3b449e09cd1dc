-- ===== src/Lib.antt =====
-- A model of mod_tls, the TLS module of the Apache httpd server, and theorems about it.
--
-- The program and its files (the paths are those of the repository):
--   Proto, Proto/*        src/tls_proto.c: names and ids of TLS versions and ciphers. Proto/Table holds
--                         KNOWN_CIPHERS, Proto/Hex the laws of the string functions of APR.
--   Ciphers, Ciphers/*    `tls_util_array_uint16_contains`, `tls_util_array_uint16_remove` of
--                         src/tls_util.c and `calc_ciphers` of src/tls_core.c.
--   Conf, Conf/*          src/tls_conf.c and src/tls_conf.h: server and directory configurations, how
--                         they are made, merged and completed, and the directives.
--   Files                 `tls_util_is_file` and `tls_util_file_load` of src/tls_util.c.
--   Brigade, Brigade/*    `tls_util_brigade_transfer` and `tls_util_brigade_copy` of src/tls_util.c.
--   Conn, Conn/*          src/tls_core.h and the functions of src/tls_core.c that set up and free a
--                         connection.
--   Core, Core/*          src/tls_core.c: which servers are enabled, the server for a client hello,
--                         the check of requests, the session for a server, and what is done after its
--                         handshake; `tls_util_name_matches_server` of src/tls_util.c.
--   Core/Start/*          src/tls_core.c: the set-up of the servers and of the proxies,
--                         `tls_core_init` with its phases, and the sessions for outgoing connections; Core/Callbacks: what rustls
--                         calls for a client hello.
--   Cert, Cert/*          src/tls_cert.c: PEM files, the registry of keys, root stores, verifiers, and
--                         in Cert/Cleanup what is freed with them.
--   Ocsp                  src/tls_ocsp.c: priming of certificates, keys with an OCSP response.
--   Cache, Cache/*        src/tls_cache.c: the session cache, its set-up (Cache, Cache/Setup) and its
--                         get and put (Cache/Access), and the directive TLSSessionCache.
--   Var, Var/*            src/tls_var.c: the variables of connections and requests.
--   Base, Base/*          shared types and lemmas; Hash: tables of APR as association lists.
--   Filter, Filter/*      src/tls_filter.c: the states that a connection goes through in the
--                         filters, with the calls on the way as arguments. Filter/Output is the way
--                         from a brigade to the network (buffer, rustls, TLS data); Filter/Input the
--                         way from the network to rustls, the client hello and its replay, the
--                         handshake, and plain data for the caller, with `tls_util_brigade_split_line`
--                         of src/tls_util.c; Filter/Setup makes the context of both.
--   Hooks                 src/mod_tls.c: the hooks that decide something.
--   Examples, Examples/*  runs on concrete inputs.
--
-- How the parts interact: the directives of Conf fill configurations, with Proto for names of ciphers
-- and versions and Files for paths. At start Hooks calls `tls_core_init` of Core/Start in two steps:
-- Core/Listen enables servers, Cache makes the session cache, Core/Start loads the keys of each server
-- by Cert and computes its ciphers by Ciphers, and Ocsp primes the certificates. A connection of Conn
-- gets its state and its client authentication from the base server, and Filter/Setup its filters.
-- Filter/Input feeds rustls; the client hello makes Core/Callbacks note what the client wants and
-- Core/Hello choose a server, for which Core/Build makes the session with the versions of Proto and
-- the verifiers of Cert, and the data received so far is replayed to it. Filter/Output sends.
-- Core/Handshake takes over what was negotiated and fills the table of Var; Core/Request and Var
-- decide about each request.
--
-- State and operations: a struct of C is a record with the fields that the modelled code reads or
-- writes; an operation takes the record and returns it changed, with its status. Pointers to servers
-- and to objects of rustls are numbers, NULL is `none`, an array is a list. apr_status_t is `Status`,
-- and a call that gives a value or a status is `Result`. Log messages and memory pools are left out.
-- A function of the C code keeps its name, less the prefix tls_ and the name of its part.
--
-- Code of other projects (httpd, APR, rustls) is a parameter: a field of a record (`Apr`, `CmdEnv`,
-- `FileSystem`, `HelloEnv`, `BuildEnv`, `VarEnv`, `CertEnv`, `Session`, `OutEnv`, `OcspEnv`, `Io` for
-- what the output filter calls, `InIo` for the input filter, `Socache` and `Table` for a provider of
-- a session cache, `Mutex` for its mutex). What a theorem needs to know of it is a hypothesis, or a record of laws
-- (`AprLaws`, `Base64Laws`, `Works` for the output, `Network` for the input, `TableLaws`) that
-- Examples shows to hold of a concrete implementation. Tables of APR are association lists. `Phases`
-- is what `tls_core_init` calls, as a parameter of its status machine.
-- The functions of Filter/Input and Filter/Output take the state progress, and those of Filter/Input
-- the write to the network, as arguments, so that each part is proved for any behaviour of the other.
--
-- Fuel: `Core.Build.cleanup` runs on fuel, since the loop in the C code may not end;
-- `Core.Handshake.collect` on one unit for each certificate of the peer; `Cert.pem_lines` on one unit
-- for each byte, of which every round takes 48. In Filter/Output, `write_tls_loop` runs on `rounds`,
-- which by a law of `Works` covers what the session has to write; `write_loop` on the length of the
-- data, of which each round takes a byte or returns; `append_loop` on the `rounds` of the brigade.
-- In Filter/Input, `read_loop` runs on the load of the brigade; the loops for the client hello, the
-- handshake and plain data on fuel that is given, since the client decides how often they run.
-- `Core.Start.Outgoing.conn_init_cleanup` is a loop that may not end. The other loops are recursion on
-- a list.
--
-- Machine integers: ids of versions and ciphers are cut to 16 bits where the code casts (`to_uint16`);
-- sizes of files and of DER data are tested against the bounds of the code.
--
-- Not modelled: `tls_write_callback` (dead code, since TLS_WRITE_VECTORED is 1), `setup_hello_config`
-- and `tls_core_free`, `conf_global_get_or_make`, `nullify_key_pem` (it overwrites key data in
-- memory), `tls_cache_init_server` and the other functions that register hooks, filters and
-- callbacks; output for logs, and the test suite. No theorem here depends on them.
pub mod Base
pub mod Hash
pub mod Files
pub mod Ciphers
pub mod Proto
pub mod Conf
pub mod Brigade
pub mod Conn
pub mod Core
pub mod Var
pub mod Cert
pub mod Cache
pub mod Ocsp
pub mod Filter
pub mod Hooks
pub mod Examples
