-- ===== src/Lib.antt =====
-- A verification library for rskrb5, a Kerberos library in Rust: the keytab and credential cache
-- files, the validation of AP-REQ messages by a service, and the tokens and ciphers around them.
--
-- The parts. A service loads a keytab (src/keytab.rs), whose `find_key` gives the validator of
-- src/service.rs the key for a ticket; a client keeps its tickets in a credential cache
-- (src/ccache.rs). The validator reads the request through src/ap_req.rs and src/ticket.rs, which trim
-- decrypted bytes with src/der.rs, and asks a replay cache of its own or a shared one. The request
-- reaches it in a negotiation token (src/spnego.rs, over src/spnego/der.rs and src/spnego/oid.rs); the
-- messages that follow travel in MIC and wrap tokens of the same file, which src/crypto.rs signs and
-- encrypts.
--
-- The files:
-- - Prelude and its children: Boolean tests, lists, signed integers and texts on the native numbers;
--   a text is the list of its UTF-8 bytes.
-- - Result: `Result`, `?` as `bind`, and two postconditions, `Ensures` and `Yields`.
-- - Utf8: `str::from_utf8` as a state machine over the bytes.
-- - Wire and its children: `checked_end`, `read_*` and `write_*` of src/keytab.rs and src/ccache.rs.
--   The cursor `&mut usize` is an offset that a reader takes and returns, and the output
--   `&mut Vec<u8>` a list that a writer takes and returns.
-- - Keytab: `Keytab::parse` and what it calls; Keytab/Writer: `Keytab::to_bytes`; Keytab/Lookup:
--   `Keytab::find_key`; Keytab/Names: `Principal::from_name`, `name_string` and the strings made of
--   it. Keytab/Format is the format written as a function of the data, Keytab/Blocks a file with
--   deleted records; the other children are proofs.
-- - CCache: the data; CCache/Parser: `CCache::parse` and what it calls; CCache/Writer:
--   `CCache::to_bytes`; CCache/Store: the operations on credentials and configuration entries.
--   CCache/Format is the format as a function of the data; the other children are proofs.
-- - Der: `trim_zero_padded_der` of src/der.rs; Der/Format is the octets of a DER value.
-- - Service: the messages and the errors; Service/Time: `SystemTime` and the skew tests;
--   Service/Replay: `ReplayCache` and `SharedReplayCache`; Service/Messages: src/ap_req.rs and
--   src/ticket.rs; Service/Validator: the checks of `ServiceValidator`; Service/Validate:
--   `validate_ap_req` in the order of the code; the other children are proofs.
-- - Spnego: the errors and the tags; Spnego/Oid: src/spnego/oid.rs; Spnego/Reader and Spnego/Writer:
--   src/spnego/der.rs; Spnego/Krb5: `Krb5MechToken`; Spnego/Negotiation: `NegTokenInit`,
--   `NegTokenResp` and `SpnegoToken`, with Spnego/Decoding and Spnego/Encoding; Spnego/Acceptor:
--   `krb5_ap_req` and the choice of `parse_negotiate_header` between a negotiation token and a raw
--   one. Spnego/Layout is the bytes of a token as a function of it; the other children are proofs.
-- - ApRep: src/ap_rep.rs; Spnego/Initiator: `InitiatorContext::verify_ap_rep` of src/spnego.rs, and
--   Spnego/MutualAuthentication joins them.
-- - Gss: headers and flags; Gss/Mic: `MicToken` and `constant_time_eq`; Gss/Wrap: `WrapToken` and the
--   rotations; Gss/ContextFlags: `authenticator_checksum`; the other children are proofs.
-- - Crypto: the errors; Crypto/Modes: AES-CTS; Crypto/Folding: the n-fold; Crypto/Sha1, Crypto/Sha2,
--   Crypto/Des3 and Crypto/Rc4: `AesSha1Etype`, `AesSha2Etype`, `Des3CbcSha1KdEtype` and
--   `Rc4HmacEtype`; Crypto/Des3Keys: the keys of DES3; Crypto/Etypes: `KerberosEtype`;
--   Crypto/Parameters: the parameters of string-to-key; the other children are proofs.
-- - Tests: runs at concrete inputs.
--
-- Bounds. Numbers are native, with the wrap of a machine word written out where a byte sequence is
-- read or written. A parser's loop takes fuel, the number of bytes of the file: each round reads a byte
-- at least, and running out is the separate result `stuck`; so it is with the values of a token. The
-- derivation of a key takes as many rounds as a key has bytes, and each adds a block. `usize` has 64
-- bits. A time
-- is the number of nanoseconds since the earliest `SystemTime` of a 64-bit Unix.
--
-- State. A validator is passed and returned; a shared replay cache is a cell of a heap that two
-- validators may name, with the poisoning of its lock. The clock of the system is an argument for each
-- of its readings.
--
-- Parameters. The byte order of the host (`cfg!(target_endian)`) is an argument. The DER codec (the
-- crate rasn), the ciphers and the PAC are the fields of Service/Messages.`Primitives`, of which
-- nothing is assumed but that they are functions; so it is with ApRep.`Replies`. Gss.`Ciphers` is what the tokens call of
-- src/crypto.rs, and Crypto.`Algorithms` what that file calls of the crates; a theorem that needs more
-- of them than that they are functions says so in its hypotheses.
--
-- Not modelled: file access and environment variables, JSON metadata, password entries, the
-- inside of the PAC, the texts of HTTP headers and the contexts around SPNEGO tokens,
-- passwords to keys, random numbers, the client exchanges, kadmin, HTTP, the configuration file.
pub mod Prelude
pub mod Result
pub mod Utf8
pub mod Wire
pub mod Der
pub mod Keytab
pub mod CCache
pub mod Service
pub mod Spnego
pub mod ApRep
pub mod Gss
pub mod Crypto
mod Tests
