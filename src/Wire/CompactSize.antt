-- ===== src/Wire/CompactSize.antt =====
-- rust/src/wire.rs: `write_compact_size` and `read_compact_size`.
pub mod Encoding
pub mod RoundTrip
pub mod Inverse
pub mod Outcomes
use verusid_cmm_encrypt.Common.{
  ℕ, ◌%◌, ◌^◌, ◌≡◌, refl, [], ◌∷◌, ltb, leb, ◌==◌, if◌then◌else◌, to_le_bytes,
}
use verusid_cmm_encrypt.Wire.Writer.{
  Status, non_canonical_compact_size, compact_size_too_large, Writer, ◌>>◌, extend, push,
}
use verusid_cmm_encrypt.Wire.Reader.{
  Reader, ok, ◌>>=◌, return, throw, read_u8, read_u16_le, read_u32_le, read_u64_le,
}

abbrev pub max_size : ℕ
max_size = 0x0200_0000

unfoldable pub write_compact_size : ℕ → Writer
write_compact_size n =
    if ltb n 253
    then push (n % 2 ^ 8)
    else if leb n 0xffff
    then (do push 0xfd; extend (to_le_bytes 2 (n % 2 ^ 16)))
    else if leb n 0xffff_ffff
    then (do push 0xfe; extend (to_le_bytes 4 (n % 2 ^ 32)))
    else (do push 0xff; extend (to_le_bytes 8 n))

-- `if v < least { return Err(NonCanonicalCompactSize) }`
abbrev pub at_least : ℕ → ℕ → Reader ℕ
at_least least v = if ltb v least then throw non_canonical_compact_size else return v

-- The `match` on the tag, and the guard behind it.
abbrev pub untag : ℕ → Reader ℕ
untag tag =
    if ltb tag 253
    then return tag
    else if tag == 253
    then (do v ← read_u16_le; at_least 253 v)
    else if tag == 254
    then (do v ← read_u32_le; at_least 0x1_0000 v)
    else (do v ← read_u64_le; at_least 0x1_0000_0000 v)

unfoldable pub read_compact_size : Reader ℕ
unfolding ◌>>=◌ return throw
read_compact_size = do
  tag ← read_u8
  n ← untag tag
  if ltb max_size n then throw compact_size_too_large else return n
