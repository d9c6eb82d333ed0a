-- ===== src/Lib.antt =====
-- Weaver is a local-first network layer. Its members trust a network root key; the root signs
-- certificates of administrators and members, members sign the bindings of their endpoints and the
-- requests to join, application owners sign the bindings of their applications, and the state of a
-- member or an authority is kept in a versioned store. This library models the parts of the program
-- that decide what is trusted, named and stored, and proves what they promise.
--
-- Parts and files:
--   Prelude: Boolean tests, lists and byte strings over the native numbers, results with `?`,
--     loops with a state and tables by key (Loops).
--   Wire: the `Decoder` of crates/weaver-crypto/src/lib.rs and big-endian integers. A decoding
--     function is a parser, a function of the decoder's bytes and offset; `usize` has 64 bits.
--     Wire/Ints and Wire/Reads carry the round trips of every codec, Wire/Fails the refusals.
--   Crypto: crates/weaver-crypto/src/lib.rs. Each signed object is a module with its payload codec
--     (Codec), its operations, and what its checks accept (Verify): Admin for `AdminCertificate`,
--     Member for `MemberCertificate`, Endpoint for `EndpointBinding`, Join for `JoinRequest` and
--     `PreparedJoinRequest` (Join/Prepared, Join/Candidate), App for `AppRegistrationRequest` and
--     `AppRegistration`, Binding for `AppBinding`. Crypto/Laws has the laws of the checks that they
--     share, Crypto/Delegation puts the root's and the administrator's checks together, Crypto/Exact
--     relates what is read to what is signed.
--   Store: crates/weaver-store/src/lib.rs. Store has the batches, Store/Records the ordered map,
--     Store/Memory the operations of `MemoryStateStore`, Store/Secrets those of
--     `MemorySecretStore`. Store/Applied says what the preconditions and the operations of a batch
--     mean; Batch, Commit, Reads, Fresh and Conflicts prove the laws.
--   Config: crates/weaver-config/src/lib.rs. Config has the errors and the envelope,
--     Config/Encode its signed bytes, Config/Chain its decoding, the chain of revisions and
--     `ConfigUpdateBatch::new` (Laws, Expectation), Config/Chain/Batch and BatchCodec the encoding of
--     a batch. Config/Open opens an envelope: Successor says what is accepted, Updates follows a
--     reader from revision to revision.
--     Config/Snapshot: `NetworkConfigV1` of crates/weaver-config/src/snapshot.rs and its encoding;
--     Codec and Decode read it, Validate is `validate` with each loop a step under `for_each`,
--     Valid, Loops, Bindings and Accepted say what it accepts, Resolve and Admins are the queries of
--     a validated snapshot.
--   Authority: crates/weaver-relay-core/src/lib.rs. Authority/Ticket has the tickets and the record
--     of a head (Codec, Checks), Authority/Invitation the invitations of
--     crates/weaver-relay-core/src/invitation.rs (Signed; Texts, Issued and Reading for its codec;
--     Accepts) and the record that a redeemed one leaves (Consumed), Authority/Revision the checks
--     before a revision is written: serial numbers (Serial) and whether a device is new (Unique),
--     Authority/Bootstrap the messages of a redemption (Messages, Requests) and that they are read
--     back (Answers).
--   Core: `VirtualName` of crates/weaver-core/src/lib.rs, its labels (Labels) and names (Names).
--   Tests: a concrete instance of the primitives, and the theorems at concrete inputs.
--
-- How the code is read: a byte string or a byte array is a list of numbers, an `Option` an option,
-- and a function that returns `Result` a function into `Result`, with `?` as bind and an early
-- return as `fail_if`. An array of fixed size is a list whose length is a hypothesis (`Fits`) where
-- a theorem needs it. `u32` and `u64` values are numbers; a bound is a hypothesis where bytes are
-- written, and the counters of the store wrap at 2^64 as written out in Store/Memory. A function
-- that signs a payload is split into the payload (`issued_payload`) and the signing
-- (`sign_payload`). An asynchronous operation holds its mutex from beginning to end and is one step
-- of the state. A `HashMap` that only grows is the list of its entries, and a `HashSet` such a map
-- to units. No definition needs fuel: every loop is structural recursion.
--
-- Parameters: Ed25519, BLAKE3, XChaCha20-Poly1305 and HPKE are other packages. `Hashing` is
-- `blake3::hash`; `Ciphers` has the two decryptions that opening an envelope calls, of which nothing
-- is assumed; `Addresses` has the texts of socket addresses and the test of an endpoint identifier;
-- `Primitives` has the operations that signing, checking and deriving identifiers call, and
-- `IsSound` what their documentation says: a signature is accepted under the public key of its
-- secret key, such a key is a valid key, and keys, signatures and hashes have fixed sizes. That
-- signatures cannot be forged is no hypothesis: theorems say which signatures a check has accepted.
--
-- Not modelled: key generation and zeroizing; text forms of identifiers; the durable store and the
-- secret files of crates/weaver-store; sealing of configuration envelopes (its random keys and the
-- shuffle of the wraps) in crates/weaver-config; the operations of an authority on its store in
-- crates/weaver-relay-core; crates/weaver-discovery and crates/weaver-net; the
-- programs crates/weaver-relay, crates/weaver-cli and crates/weaver-net-sim and the examples, which
-- are sockets, files and command lines around the libraries.
pub mod Prelude
pub mod Wire
pub mod Crypto
pub mod Tests
pub mod Store
pub mod Core
pub mod Config
pub mod Authority
