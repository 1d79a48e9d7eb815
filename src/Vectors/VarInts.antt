-- ===== src/Vectors/VarInts.antt =====
-- The unit tests of rust/src/wire.rs on VarInt, var_bytes and LimitedString.
use verusid_cmm_encrypt.Common.{
  ℕ, ◌-◌, ◌^◌, ◌≡◌, refl, sym, append-nil, [], ◌∷◌, ◌++◌, Bytes, Bool, true, Option, some, arith,
  ◌==◌, length, drop, replicate, IsU64,
}
use verusid_cmm_encrypt.Wire.Writer.{
  ◌>>◌ as seq, limited_string_too_long, extend, extend-fresh, fail,
}
use native.Mathlib.Nat.{zero-add}
use verusid_cmm_encrypt.Wire.VarInt.Encoding.{varint, write_varint_u64_lem}
use verusid_cmm_encrypt.Wire.Reads.{Reads-varint}
use verusid_cmm_encrypt.Wire.CompactSize.{write_compact_size}
use verusid_cmm_encrypt.Wire.VarInt.{write_varint_u64, read_varint_u64}
use verusid_cmm_encrypt.Wire.Strings.{write_var_bytes, write_limited_string}
use verusid_cmm_encrypt.NotaryEvidence.{◌>>=◌, slice}
use verusid_cmm_encrypt.TwoStage.{◌>>◌, assert_byte}
use verusid_cmm_encrypt.Vectors.{
  decoded, for_each, encodes, encode, assert_bytes, assert_number, assert_fails,
}

vi_encode : ℕ → Option Bytes
vi_encode n = encode (write_varint_u64 n)

vi_roundtrip : ℕ → Option ℕ
vi_roundtrip n = vi_encode n >>= λ bytes. decoded (read_varint_u64 bytes 0) (length bytes)

vi_roundtrip_lem : (n : ℕ) → IsU64 n → vi_roundtrip n ≡ some n
unfolding vi_roundtrip vi_encode
vi_roundtrip_lem n h =
    let bytes = varint n in
    let none_behind : drop 0 bytes ≡ bytes ++ [] = sym (append-nil bytes) in
    let all : (length bytes == length bytes) ≡ true = ground arith in
    rw
      (
        write_varint_u64_lem n h,
        extend-fresh,
        Reads-varint n h bytes 0 [] none_behind,
        zero-add,
        all,
      )
      refl

varint_matches_daemon_reference_vectors : Option Bool
varint_matches_daemon_reference_vectors = do
  encodes vi_encode 0 (0x00 ∷ [])
  encodes vi_encode 1 (0x01 ∷ [])
  encodes vi_encode 127 (0x7f ∷ [])
  encodes vi_encode 128 (0x80 ∷ 0x00 ∷ [])
  encodes vi_encode 255 (0x80 ∷ 0x7f ∷ [])
  encodes vi_encode 256 (0x81 ∷ 0x00 ∷ [])
  encodes vi_encode 16383 (0xfe ∷ 0x7f ∷ [])
  encodes vi_encode 16384 (0xff ∷ 0x00 ∷ [])
  encodes vi_encode 16511 (0xff ∷ 0x7f ∷ [])
  encodes vi_encode 65535 (0x82 ∷ 0xfe ∷ 0x7f ∷ [])
  encodes vi_encode (2 ^ 32) (0x8e ∷ 0xfe ∷ 0xfe ∷ 0xff ∷ 0x00 ∷ [])

varint_flags13_and_version_encode_as_single_bytes : Option Bool
varint_flags13_and_version_encode_as_single_bytes = do
  encodes vi_encode 1 (0x01 ∷ [])
  encodes vi_encode 13 (0x0d ∷ [])

varint_round_trips_over_a_wide_range : Option Bool
varint_round_trips_over_a_wide_range =
    for_each vi_roundtrip
      (0 ∷ 1 ∷ 127 ∷ 128 ∷ 16383 ∷ 16384 ∷ 65535 ∷ (2 ^ 20) ∷ (2 ^ 32) ∷ (2 ^ 64 - 2) ∷ [])

varints_pass :
    (varint_matches_daemon_reference_vectors ≡ some true)
    × (varint_flags13_and_version_encode_as_single_bytes ≡ some true)
    × (varint_round_trips_over_a_wide_range ≡ some true)
unfolding varint_matches_daemon_reference_vectors varint_flags13_and_version_encode_as_single_bytes
    varint_round_trips_over_a_wide_range for_each vi_roundtrip vi_encode write_varint_u64
    read_varint_u64 extend seq
varints_pass = (refl, refl, refl)

write_var_bytes_prefixes_with_compact_size_length : Option Bool
write_var_bytes_prefixes_with_compact_size_length = do
  buf ← encode (write_var_bytes (0xde ∷ 0xad ∷ 0xbe ∷ 0xef ∷ []))
  assert_bytes buf (0x04 ∷ 0xde ∷ 0xad ∷ 0xbe ∷ 0xef ∷ [])

limited_string_within_cap_encodes_length_then_utf8 : Option Bool
limited_string_within_cap_encodes_length_then_utf8 = do
  buf ← encode (write_limited_string (b'o' ∷ b'k' ∷ []) 64)
  assert_bytes buf (0x02 ∷ b'o' ∷ b'k' ∷ [])

limited_string_rejects_overflow_at_cap_boundary : Option Bool
limited_string_rejects_overflow_at_cap_boundary = do
  let (status, buf) = write_limited_string (replicate 65 b'a') 64 []
  assert_fails status (limited_string_too_long 64 65)
  assert_number (length buf) 0

limited_string_accepts_exact_cap_length : Option Bool
limited_string_accepts_exact_cap_length = do
  buf ← encode (write_limited_string (replicate 64 b'b') 64)
  assert_byte buf 0 0x40
  rest ← slice buf 1 (length buf)
  assert_bytes rest (replicate 64 b'b')

strings_pass :
    (write_var_bytes_prefixes_with_compact_size_length ≡ some true)
    × (limited_string_within_cap_encodes_length_then_utf8 ≡ some true)
    × (limited_string_rejects_overflow_at_cap_boundary ≡ some true)
    × (limited_string_accepts_exact_cap_length ≡ some true)
unfolding write_var_bytes_prefixes_with_compact_size_length
    limited_string_within_cap_encodes_length_then_utf8
    limited_string_rejects_overflow_at_cap_boundary limited_string_accepts_exact_cap_length
    write_var_bytes write_limited_string write_compact_size extend fail seq
strings_pass = (refl, refl, refl, refl)
