-- ===== src/Lib.antt =====
-- aas-sign, a tool that signs PE images, MSI installers and MSIX packages with Azure Artifact
-- Signing. The command line resolves who signs and with which token; the service signs a digest;
-- the program assembles an Authenticode CMS around the answer and has osslsigncode attach it.
--
-- Parts, and the code each one is about:
--   * Base: the result of a call that may throw (`Result`), tests, byte lists, bits, and the
--     well-founded order. An unsigned width is written out where the code wraps.
--   * Base64: src/base64.cpp, with the 32-bit accumulator of its decoders.
--   * Web: src/urlenc.cpp, and parse_query, form_encode and hex_encode of src/auth_laptop.cpp.
--   * Der: src/der.cpp. Der/Sets, Der/Oid and Der/Integers are der_set, der_oid and der_integer.
--   * X509: src/x509.cpp. X509/Split is x509_split_certs; X509/Reader and X509/Tlv prove things of
--     der_read_tlv.
--   * Cms: src/cms.cpp. Cms/Oids, Cms/Build: the assembly. Cms/Fields: the class DerFields.
--     Cms/Extract, Cms/Signers: the readers. The other files under Cms are proofs.
--   * Signer: src/signer.cpp.
--   * Azure: src/azure.cpp in Azure/Sign, src/oidc.cpp in Azure/Oidc, parse_https_url of
--     src/posix.cpp in Azure/Urls.
--   * Pe: pe_has_signature of src/signing.cpp, on a file given as its bytes.
--   * Files: the files of the disk by their paths, actions that may throw, and the operations of
--     src/platform.hpp as a record with their promises; the directory of a TempDir.
--   * Signing: the rest of src/signing.cpp. Signing/Tool: the calls of osslsigncode.
--     Signing/Staged: sign_staged and sign_file. Signing/Resolve: resolve_osslsigncode. The other
--     files under Signing are proofs.
--   * Msi: src/msi_recursive.cpp. Msi/Folders, Msi/Cabinet and Msi/Ranges: inspect_cabinet, on a
--     cabinet given as its bytes. Msi/Media: the tables of an installer. Msi/Unpack and Msi/Rewrite:
--     the two halves of rewrite_msi_payload. Msi/Restore: preserve_cabinet_metadata. Msi/Database:
--     what they use of src/msi_package.hpp, with its laws. The other files under Msi are proofs.
--   * Cli: src/main.cpp. Cli/Args: the loop over the arguments of sign_main. Cli/Prepare: what
--     it resolves before it signs. Cli/Pool: its worker threads. Cli/Run: sign_one_file, and the
--     summary with the exit status. Cli/Dispatch: aas_sign_main.
--   * Auth: src/auth_laptop.cpp. Auth: the JSON library and the files as records with what the code
--     relies on, the cache, and save_signing_defaults. Auth/Options: the command lines of login,
--     config and logout. Auth/Login: login_main. Auth/Refresh: try_cached_refresh. The other files
--     under Auth are proofs.
--   * Process: how a child is started, src/posix.cpp in Process and src/win32.cpp in
--     Process/Windows. The other files under Process are proofs.
--   * Http: the responses of src/posix.cpp and the requests of do_request; retry_transient of
--     src/platform.hpp in Http/Retry. Http/Client: the HTTPS client, over what the calls of the TLS
--     library return one after the other; behind the last of them the connection is closed. Http/Tls:
--     the opening of a connection. Http/Binary: http_post_binary, over those of a socket.
--     The other files under Http are proofs.
--   * Examples: runs at concrete inputs, and the results below applied there.
-- A function of the code keeps its name; a loop or a run of statements in the middle of a function
-- is a definition of its own, named for what it does.
--
-- How the parts meet: Cms builds with Der and reads with X509; Azure and Web share the form coding;
-- Azure decodes with Base64; Cli calls Signer, and takes the exchange of Azure/Oidc, the search of
-- the companion program and the token of a login as arguments; Signing calls Cms and Pe, and takes
-- the signer of a digest and the rewriting of an installer as arguments, with what it relies on as a
-- record of laws, which Msi proves of its own rewriting. Cli/Run takes sign_file of Signing, and
-- Cli/Exit joins the promises of Signing and of the worker pool to what the exit status says.
--
-- Errors: a throw is `err` with the constant part of its message; the parts of a message made of
-- input are left out. `stuck` is a loop whose fuel has run out. The loops of the readers take the
-- length of their input as fuel, which is enough since each round reads a field of two bytes or
-- more; termination results say where `stuck` cannot come up. The polling loop takes its rounds as
-- a list, so that a result says how many a clock that counts the sleeps leaves time for. The loop
-- over the chunks of a response has a round for each of its characters and one more, and a result
-- says when these are not enough.
--
-- Assumptions: `size_t` has 64 bits and a buffer is shorter than 2^64. isalnum, isspace, and the
-- strtoul of der_oid are those of the C locale, this strtoul on texts without blanks and signs. What
-- an error leaves in a cabinet that is being rebuilt goes with its directory, and is left out.
-- A replacement of a file that fails is taken to have failed before it changed the destination, and
-- two paths lead to the same file only if they are equal.
--
-- Parameters, for what lies outside of the repository: SHA-256, the JSON library, the clock, the
-- environment, atoi, std::filesystem's paths, towupper, the conversions of wide texts, osslsigncode,
-- and what the calls of mbedTLS, of sockets and of getaddrinfo return. Also arguments, though of the
-- repository: the HTTPS client where Azure and Auth use it, the operations of the platform layers, the
-- installer databases and the compression of cabinets, the random bytes and the browser of a login.
--
-- Not modelled: file access, cryptography, the loopback server and the spawning of processes in the
-- platform layers (src/posix.cpp, src/win32.cpp), and WinHTTP, which are calls of system libraries;
-- the calls of the cabinet and installer libraries (src/msi_package_posix.cpp,
-- src/msi_package_win32.cpp); usage texts and logs.
pub mod Base
pub mod Base64
pub mod Web
pub mod Signer
pub mod Azure
pub mod Cli
pub mod Der
pub mod X509
pub mod Cms
pub mod Pe
pub mod Files
pub mod Signing
pub mod Msi
pub mod Auth
pub mod Process
pub mod Http
mod Examples
