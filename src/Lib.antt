-- ===== src/Lib.antt =====
-- A model of the Rust crate `verusid-cmm-encrypt`, which turns a payload into the encrypted entry of
-- an identity's content multimap and the scripts of the outputs that deposit its evidence.
--
-- The call `encrypt_public_decrypt` (rust/src/api.rs) samples a viewing key and a diversifier, seals
-- the payload under an ephemeral key, frames the ciphertext as notary evidence, puts the evidence into
-- scripts, in pieces when one would reach 6000 bytes, and seals a pointer to it in the descriptor that
-- the entry holds. Every layer serializes through rust/src/wire.rs.
--
-- The files, by the code they are about:
--   Wire            rust/src/wire.rs: the buffer discipline (Writer, Reader, Fresh, Reads), the codecs
--                   CompactSize and VarInt, and Strings. The children of a codec are named for what
--                   they are about: the bytes of a value (Encoding), what a read that succeeds has
--                   seen (Inverse), the two together (RoundTrip), and all that a read can answer
--                   (Outcomes; Exact, over unbounded numbers). Cursor is about where a reader leaves
--                   its cursor.
--   Vdxf            rust/src/vdxf.rs, with a reference reader of the framing in Reading
--   DataDescriptor  rust/src/data_descriptor.rs, with Wrap for `wrap_encrypted_with_key`
--                   and a reference reader in RoundTrip
--   DataRef         rust/src/data_ref.rs, with a reference reader in Reading
--   NotaryEvidence  rust/src/notary_evidence.rs, with Split for the pieces of `break_apart` and
--                   Reassembly for the test that joins them, and a reference reader in Reading
--   CcScript        rust/src/cc_script.rs
--   Crypto          rust/src/crypto.rs
--   Ephemeral       rust/src/ephemeral.rs, with Agreement for the two sides of the key agreement,
--                   Sealing for what a holder of the viewing key reads, and Trips for the tests that
--                   run both sides
--   Deposit         section 4 of `encrypt_public_decrypt` in rust/src/api.rs
--   Api             the rest of rust/src/api.rs: Search, Scalars, Passes, Size, Envelope, Draws, Returns,
--                   Outcomes and Returned
--   TwoStage        the readers of the tests of rust/src/api.rs that decrypt a result: the two-stage one
--                   here, the two that read a pointer in Pointers, and in Wrapped that of
--                   rust/src/data_descriptor.rs. Parts and Layout say what a read finds where a writer
--                   put it, Scripts which scripts the reader takes, Size bounds what the readers take
--                   for short, RoundTrip and Delivery join the call and the reader. Receive joins a
--                   deposit in one script or in pieces, and Received is a reference reader of all
--                   that it carries.
--   Assertions      the tests of rust/src/api.rs that assert the shape of a result: what they assert, for
--                   the entry (Entry) and for the scripts (Scripts, with Occurrences for the count of a
--                   key)
--   Wasm            wasm/src/lib.rs: Number (the test on an `f64`), Request (the field readers), Response
--                   (the result object) and Call; Host has what they call of `wasm_bindgen` and
--                   `js_sys`; Represents and Shows say which object stands for which request and
--                   result, and Reading and Answers that the binding keeps to it.
--   Vectors         the unit tests of rust/src that run one function on fixed bytes, as programs: the
--                   children are for wire.rs (CompactSizes, VarInts), vdxf.rs and data_ref.rs (Framing),
--                   data_descriptor.rs, cc_script.rs, notary_evidence.rs, and for the two tests of
--                   crypto.rs and ephemeral.rs that hold for any crates' code (Ciphers)
--   Fixture         the two tests of rust/tests/stage1_decrypt.rs that rebuild the evidence and the script
--                   of a transaction which the daemon wrote, run on that transaction
--   Examples        the programs of rust/examples: what they print
--   Primitives      the crates that are called: parameters, and their documented behaviour
--   Common          names and lemmas that the components share
--   Toy, Runs       instances of the parameters (Toy for the crates, Toy.Browser for the host), and runs
--
-- How the code is rendered. A definition has the name of its Rust function. A byte, a machine word and
-- a `usize` (64 bits) are native numbers; casts and sums that can wrap have their modulus written out.
-- A function on `buf: &mut Vec<u8>` is a `Writer`, a map from the buffer to a status and the buffer;
-- one on `buf: &[u8], cursor: &mut usize` is a `Reader`. A panic (an index out of range, an `expect`,
-- a failed assertion) is a status of its own. A call on a generator is a map on its state. Arrays of
-- fixed size are lists, and their width is a hypothesis where a theorem needs it. Strings are their
-- UTF-8 bytes.
--
-- Loops. The VarInt writer runs on 11 turns of fuel, one more than its array has places; the reader
-- recurses on the bytes that are left; `break_apart` has a turn for each byte and one more, and each
-- turn takes a byte at least; the diversifier search counts its 64 draws. The search of the tests in
-- rust/src/ephemeral.rs has no bound: its theorems ask for fuel up to the first valid draw.
--
-- Not modelled: the text of the errors, capacity hints, the crates' own code (Jubjub, BLAKE2,
-- ChaCha20Poly1305, the generator), the host's own code and the TypeScript declarations in
-- wasm/src/lib.rs, the TypeScript in src/index.ts, the JSON text that the examples print, and the tests
-- that compare with bytes which the real cipher, hash, curve or generator makes (the others of
-- rust/tests/stage1_decrypt.rs, and the pinned ones of rust/src) or want it to reject a forgery. A
-- field of a JavaScript object is read once and is what it is then. The overflow of the u32 index of
-- `break_apart`, which would take 2 ^ 32 pieces, wraps as in a release build.
pub mod Common
pub mod Primitives
pub mod Wire
pub mod Vdxf
pub mod DataDescriptor
pub mod DataRef
pub mod NotaryEvidence
pub mod CcScript
pub mod Crypto
pub mod Ephemeral
pub mod Deposit
pub mod Api
pub mod TwoStage
pub mod Assertions
pub mod Wasm
pub mod Examples
pub mod Toy
mod Vectors
mod Fixture
mod Runs
