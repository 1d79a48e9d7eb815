-- ===== src/Vectors/CompactSizes.antt =====
-- The unit tests of rust/src/wire.rs on CompactSize.
use verusid_cmm_encrypt.Common.{
  ℕ, ◌+◌, ◌≤◌, ◌≡◌, refl, sym, append-nil, [], ◌∷◌, ◌++◌, Bytes, Bool, true, Option, none, some,
  arith, ◌==◌, length, drop, to_le_bytes, IsU64,
}
use verusid_cmm_encrypt.Wire.Writer.{
  ◌>>◌ as seq, WireError, non_canonical_compact_size, compact_size_too_large, extend, extend-fresh,
}
use native.Mathlib.Nat.{zero-add}
use verusid_cmm_encrypt.Wire.CompactSize.Encoding.{compact_size, write_compact_size_lem}
use verusid_cmm_encrypt.Wire.Reads.{Reads-compact_size}
use verusid_cmm_encrypt.Wire.Reader.{ReadResult, read_u8, read_u16_le, read_u32_le, read_u64_le}
use verusid_cmm_encrypt.Wire.CompactSize.{max_size, write_compact_size, read_compact_size}
use verusid_cmm_encrypt.NotaryEvidence.{◌>>=◌}
use verusid_cmm_encrypt.TwoStage.{◌>>◌, assert}
use verusid_cmm_encrypt.Vectors.{decoded, for_each, encodes, encode, same_error}

abbrev assert_refused : ReadResult ℕ × ℕ → WireError → Option Bool
assert_refused (ReadResult.ok n, cursor) e = none
assert_refused (ReadResult.err d, cursor) e = assert (same_error d e)

cs_encode : ℕ → Option Bytes
cs_encode n = encode (write_compact_size n)

cs_roundtrip : ℕ → Option ℕ
cs_roundtrip n = cs_encode n >>= λ bytes. decoded (read_compact_size bytes 0) (length bytes)

compact_size_boundaries_match_daemon_encoding : Option Bool
compact_size_boundaries_match_daemon_encoding = do
  encodes cs_encode 0 (0x00 ∷ [])
  encodes cs_encode 0xfc (0xfc ∷ [])
  encodes cs_encode 0xfd (0xfd ∷ 0xfd ∷ 0x00 ∷ [])
  encodes cs_encode 0xffff (0xfd ∷ 0xff ∷ 0xff ∷ [])
  encodes cs_encode 0x1_0000 (0xfe ∷ 0x00 ∷ 0x00 ∷ 0x01 ∷ 0x00 ∷ [])
  encodes cs_encode 0xffff_ffff (0xfe ∷ 0xff ∷ 0xff ∷ 0xff ∷ 0xff ∷ [])
  encodes cs_encode 0x1_0000_0000
      (0xff ∷ 0x00 ∷ 0x00 ∷ 0x00 ∷ 0x00 ∷ 0x01 ∷ 0x00 ∷ 0x00 ∷ 0x00 ∷ [])

compact_size_boundaries_match_daemon_encoding_passes :
    compact_size_boundaries_match_daemon_encoding ≡ some true
unfolding compact_size_boundaries_match_daemon_encoding cs_encode write_compact_size extend seq
compact_size_boundaries_match_daemon_encoding_passes = refl

-- `roundtrip(n)` is `n` for every number that a reader accepts.
cs_roundtrip_lem : (n : ℕ) → n ≤ max_size → cs_roundtrip n ≡ some n
unfolding cs_roundtrip cs_encode
cs_roundtrip_lem n h =
    let word : IsU64 n = omega arith in
    let bytes = compact_size n in
    let none_behind : drop 0 bytes ≡ bytes ++ [] = sym (append-nil bytes) in
    let all : (length bytes == length bytes) ≡ true = ground arith in
    rw
      (
        write_compact_size_lem n,
        extend-fresh,
        Reads-compact_size n h bytes 0 [] none_behind,
        zero-add,
        all,
      )
      refl

compact_size_round_trips_over_all_size_classes : Option Bool
compact_size_round_trips_over_all_size_classes =
    for_each cs_roundtrip
      (0 ∷ 1 ∷ 252 ∷ 253 ∷ 0xff ∷ 0xffff ∷ 0x1_0000 ∷ 0x100_0000 ∷ max_size ∷ [])

compact_size_round_trips_over_all_size_classes_passes :
    compact_size_round_trips_over_all_size_classes ≡ some true
unfolding compact_size_round_trips_over_all_size_classes for_each cs_roundtrip cs_encode
    write_compact_size read_compact_size read_u8 read_u16_le read_u32_le extend seq
compact_size_round_trips_over_all_size_classes_passes = refl

compact_size_write_of_max_size_plus_one_is_rejected_on_read : Option Bool
compact_size_write_of_max_size_plus_one_is_rejected_on_read = do
  buf ← cs_encode (max_size + 1)
  assert_refused (read_compact_size buf 0) compact_size_too_large

compact_size_write_of_max_size_plus_one_is_rejected_on_read_passes :
    compact_size_write_of_max_size_plus_one_is_rejected_on_read ≡ some true
unfolding compact_size_write_of_max_size_plus_one_is_rejected_on_read cs_encode write_compact_size
    read_compact_size read_u8 read_u32_le extend seq
compact_size_write_of_max_size_plus_one_is_rejected_on_read_passes = refl

compact_size_rejects_non_canonical_two_byte_form : Option Bool
compact_size_rejects_non_canonical_two_byte_form =
    assert_refused (read_compact_size (0xfd ∷ 0x00 ∷ 0x00 ∷ []) 0) non_canonical_compact_size

compact_size_rejects_non_canonical_four_byte_form : Option Bool
compact_size_rejects_non_canonical_four_byte_form =
    assert_refused (read_compact_size (0xfe ∷ 0x00 ∷ 0x00 ∷ 0x00 ∷ 0x00 ∷ []) 0)
      non_canonical_compact_size

compact_size_rejects_non_canonical_eight_byte_form : Option Bool
compact_size_rejects_non_canonical_eight_byte_form =
    assert_refused (read_compact_size (0xff ∷ 0 ∷ 0 ∷ 0 ∷ 0 ∷ 0 ∷ 0 ∷ 0 ∷ 0 ∷ []) 0)
      non_canonical_compact_size

compact_size_rejects_values_above_max_size : Option Bool
compact_size_rejects_values_above_max_size =
    assert_refused (read_compact_size (0xfe ∷ to_le_bytes 4 (max_size + 1)) 0)
      compact_size_too_large

refusals_pass :
    (compact_size_rejects_non_canonical_two_byte_form ≡ some true)
    × (compact_size_rejects_non_canonical_four_byte_form ≡ some true)
    × (compact_size_rejects_non_canonical_eight_byte_form ≡ some true)
    × (compact_size_rejects_values_above_max_size ≡ some true)
unfolding compact_size_rejects_non_canonical_two_byte_form
    compact_size_rejects_non_canonical_four_byte_form
    compact_size_rejects_non_canonical_eight_byte_form compact_size_rejects_values_above_max_size
    read_compact_size read_u8 read_u16_le read_u32_le read_u64_le
refusals_pass = (refl, refl, refl, refl)
