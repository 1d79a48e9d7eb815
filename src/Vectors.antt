-- ===== src/Vectors.antt =====
-- The unit tests of rust/src that run one function on fixed bytes, as programs over the model. `none` is
-- a panic: a failed assertion, an index out of range or an `unwrap` of an error. Each is followed by the
-- check that it passes.
mod CompactSizes
mod VarInts
mod Framing
mod Descriptor
mod Scripts
mod Evidence
mod Ciphers
use verusid_cmm_encrypt.Common.{
  ℕ, ◌+◌, [], ◌∷◌, List, Bytes, Bool, true, false, ◌&&◌, Option, none, some, ◌==◌, if◌then◌else◌,
  length,
}
use verusid_cmm_encrypt.Wire.Writer.{
  WireError, unexpected_eof, non_canonical_compact_size, compact_size_too_large, var_int_too_large,
  limited_string_too_long, Status, ok, err, panicked, Writer,
}
use verusid_cmm_encrypt.Wire.Reader.{ReadResult}
use verusid_cmm_encrypt.NotaryEvidence.{◌>>=◌, slice, written}
use verusid_cmm_encrypt.TwoStage.{same_bytes, ◌>>◌, assert}

-- The bytes that a writer puts into a fresh `Vec`.
abbrev pub encode : Writer → Option Bytes
encode w = written (w [])

-- `assert_eq!(bytes, expected)` and `assert_eq!(n, expected)`
abbrev pub assert_bytes : Bytes → Bytes → Option Bool
assert_bytes bytes expected = assert (same_bytes bytes expected)

abbrev pub assert_number : ℕ → ℕ → Option Bool
assert_number n expected = assert (n == expected)

-- `assert_eq!(&bytes[start..start + expected.len()], expected)`
abbrev pub assert_slice : Bytes → ℕ → Bytes → Option Bool
assert_slice bytes start expected =
    slice bytes start (start + length expected) >>= λ part. assert (same_bytes part expected)

-- `PartialEq` of the errors.
abbrev pub same_error : WireError → WireError → Bool
same_error unexpected_eof unexpected_eof = true
same_error non_canonical_compact_size non_canonical_compact_size = true
same_error compact_size_too_large compact_size_too_large = true
same_error var_int_too_large var_int_too_large = true
same_error (limited_string_too_long cap actual) (limited_string_too_long cap' actual') =
    cap == cap' && actual == actual'
same_error _ _ = false

-- `assert_eq!(w(&mut buf).unwrap_err(), e)`
abbrev pub assert_fails : Status → WireError → Option Bool
assert_fails ok e = none
assert_fails (err d) e = assert (same_error d e)
assert_fails panicked e = none

-- `read(&bytes, &mut cursor).expect("decode")`, which has to consume all bytes.
abbrev pub decoded : ReadResult ℕ × ℕ → ℕ → Option ℕ
decoded (ReadResult.ok n, cursor) len = if cursor == len then some n else none
decoded (ReadResult.err e, cursor) len = none

-- `for &n in values { assert_eq!(roundtrip(n), n) }`
unfoldable pub for_each : (ℕ → Option ℕ) → List ℕ → Option Bool
for_each roundtrip [] = some true
for_each roundtrip (n ∷ values) = do m ← roundtrip n; assert_number m n; for_each roundtrip values

-- `assert_eq!(encode(n), expected)`
abbrev pub encodes : (ℕ → Option Bytes) → ℕ → Bytes → Option Bool
encodes f n expected = f n >>= λ bytes. assert_bytes bytes expected
