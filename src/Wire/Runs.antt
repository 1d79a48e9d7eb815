-- ===== src/Wire/Runs.antt =====
-- Concrete runs of rust/src/wire.rs, and its theorems at concrete inputs.
use verusid_cmm_encrypt.Wire.Cursor.{Advances, read_compact_size-Advances}
use verusid_cmm_encrypt.Common.{
  ◌+◌, ◌≤◌, ◌<◌, ◌≡◌, ◌↔◌, refl, [], ◌∷◌, ◌++◌, Bytes, All, IsByte, IsU64, length, drop, arith,
}
use verusid_cmm_encrypt.Wire.Writer.{Status, ◌>>◌, extend, var_int_too_large}
use verusid_cmm_encrypt.Wire.Reader.{ok, err, read_u8, read_u32_le}
use verusid_cmm_encrypt.Wire.VarInt.{write_varint_u64, read_varint_u64}
use verusid_cmm_encrypt.Wire.CompactSize.{max_size, write_compact_size, read_compact_size}
use verusid_cmm_encrypt.Wire.CompactSize.Inverse.{checked}
use verusid_cmm_encrypt.Wire.CompactSize.RoundTrip.{
  read_compact_size-write_compact_size, read_compact_size_iff,
}
use verusid_cmm_encrypt.Wire.CompactSize.Outcomes.{Answer, read_compact_size-Answer}
use verusid_cmm_encrypt.Wire.VarInt.Encoding.{capacity}
use verusid_cmm_encrypt.Wire.VarInt.Exact.{exact, read_varint_u64-exact}
use verusid_cmm_encrypt.Wire.VarInt.RoundTrip.{
  write_varint_u64_total, length-write_varint_u64_iff, read_varint_u64_iff,
}

write_run : write_compact_size 0x1_0000 (7 ∷ []) ≡ (Status.ok, 7 ∷ 0xfe ∷ 0 ∷ 0 ∷ 1 ∷ 0 ∷ [])
unfolding write_compact_size extend ◌>>◌
write_run = refl

read_run : read_compact_size (7 ∷ 0xfe ∷ 0 ∷ 0 ∷ 1 ∷ 0 ∷ []) 1 ≡ (ok 0x1_0000, 6)
unfolding read_compact_size read_u8 read_u32_le
read_run = refl

varint_run : write_varint_u64 65535 [] ≡ (Status.ok, 0x82 ∷ 0xfe ∷ 0x7f ∷ [])
unfolding write_varint_u64 extend ◌>>◌
varint_run = refl

varint_read_run : read_varint_u64 (9 ∷ 0x82 ∷ 0xfe ∷ 0x7f ∷ 4 ∷ []) 1 ≡ (ok 65535, 4)
unfolding read_varint_u64
varint_read_run = refl

write_varint_u64_total_example :
    (bytes : Bytes) × (write_varint_u64 300 (7 ∷ []) ≡ (Status.ok, (7 ∷ []) ++ bytes))
    × All IsByte bytes
    × (1 ≤ length bytes)
    × (length bytes ≤ 10)
write_varint_u64_total_example = write_varint_u64_total 300 (7 ∷ []) (omega arith)

-- The three-byte forms end at 0x20407f.
length-write_varint_u64_iff_example :
    (length (write_varint_u64 0x204080 []).1 ≤ 3) ↔ (0x204080 < capacity 3)
length-write_varint_u64_iff_example = length-write_varint_u64_iff 3 0x204080 (omega arith)

abbrev stream : Bytes
stream = 9 ∷ 0x82 ∷ 0xfe ∷ 0x7f ∷ 4 ∷ []

stream-AllByte : All IsByte stream
stream-AllByte = (omega arith, (omega arith, (omega arith, (omega arith, (omega arith, tt)))))

read_varint_u64_iff_example : (read_varint_u64 stream 1 ≡ (ok 65535, 4)) ↔ (
    IsU64 65535
    × (drop 1 stream ≡ (write_varint_u64 65535 []).1 ++ drop 4 stream)
    × (4 ≡ 1 + length (write_varint_u64 65535 []).1))
read_varint_u64_iff_example = read_varint_u64_iff stream 1 65535 4 stream-AllByte

read_compact_size-write_compact_size_example :
    read_compact_size ((write_compact_size 300 (7 ∷ [])).1 ++ 4 ∷ []) 1
    ≡ (checked 300, length (write_compact_size 300 (7 ∷ [])).1)
read_compact_size-write_compact_size_example =
    read_compact_size-write_compact_size (7 ∷ []) (4 ∷ []) 300 (omega arith)

read_compact_size_iff_example : (read_compact_size stream 4 ≡ (ok 4, 5)) ↔ (
    (4 ≤ max_size)
    × (drop 4 stream ≡ (write_compact_size 4 []).1 ++ drop 5 stream)
    × (5 ≡ 4 + length (write_compact_size 4 []).1))
read_compact_size_iff_example = read_compact_size_iff stream 4 4 5 stream-AllByte

-- The value is below the range of its form.
read_compact_size-Answer_example :
    Answer
      (0xfe ∷ 0xff ∷ 0xff ∷ 0 ∷ 0 ∷ [])
      1
      (read_compact_size (7 ∷ 0xfe ∷ 0xff ∷ 0xff ∷ 0 ∷ 0 ∷ []) 1)
read_compact_size-Answer_example =
    read_compact_size-Answer (7 ∷ 0xfe ∷ 0xff ∷ 0xff ∷ 0 ∷ 0 ∷ []) 1 (ground arith)

-- A form that is not the shortest: the read fails behind it.
read_compact_size-Advances_example :
    Advances (9 ∷ 0xfd ∷ 1 ∷ 0 ∷ []) 1 9 (read_compact_size (9 ∷ 0xfd ∷ 1 ∷ 0 ∷ []) 1).1
read_compact_size-Advances_example =
    read_compact_size-Advances (9 ∷ 0xfd ∷ 1 ∷ 0 ∷ []) 1 (omega arith)

-- The digits of 2 ^ 64, which does not fit.
abbrev digits_of_2_64 : Bytes
digits_of_2_64 = 0x80 ∷ 0xfe ∷ 0xfe ∷ 0xfe ∷ 0xfe ∷ 0xfe ∷ 0xfe ∷ 0xfe ∷ 0xff ∷ 0x00 ∷ []

digits_of_2_64_run : exact digits_of_2_64 1 0 ≡ (err var_int_too_large, 11)
unfolding exact
digits_of_2_64_run = refl

read_varint_u64-exact_example : read_varint_u64 (7 ∷ digits_of_2_64) 1 ≡ exact digits_of_2_64 1 0
read_varint_u64-exact_example = read_varint_u64-exact (7 ∷ digits_of_2_64) 1 (ground arith)
