-- ===== src/Wire/CompactSize/RoundTrip.antt =====
-- `write_compact_size` and `read_compact_size` of rust/src/wire.rs as an encoder and its decoder.
use verusid_cmm_encrypt.Common.{
  ℕ, ◌+◌, ◌≤◌, ◌<◌, ◌^◌, ◌≡◌, sym, ap, ◌∙◌, le→ltb, ◌↔◌, [], ◌∷◌, ◌++◌, append_assoc, Bytes, arith,
  IsU64, IsByte, All, length, length-append, drop, drop-append, to_le_bytes,
}
use verusid_cmm_encrypt.Wire.Writer.{extend-buffer, non_canonical_compact_size}
use verusid_cmm_encrypt.Wire.Reader.{
  ok, err, ◌>>=◌, return, throw, read_u16_le, read_u32_le, read_u64_le,
}
use verusid_cmm_encrypt.Wire.Reader.At.{read_u8-of_drop, word-of_drop}
use verusid_cmm_encrypt.Wire.CompactSize.{max_size, write_compact_size, read_compact_size}
use verusid_cmm_encrypt.Wire.CompactSize.Encoding.{
  compact_size, write_compact_size_lem, compact_size-Form,
}
use verusid_cmm_encrypt.Wire.CompactSize.Inverse.{
  checked, read_Form, read_compact_size_step, read_compact_size_inv,
}

pub write_compact_size-buffer :
    (n : ℕ) (pre : Bytes) → (write_compact_size n pre).1 ≡ pre ++ compact_size n
write_compact_size-buffer n pre =
    rw write_compact_size_lem (ap (λ r. r.1) (extend-buffer (compact_size n) pre))

-- Reading where a u64 was written as a CompactSize gives it back and stops behind it, whatever
-- stands before and behind; above MAX_SIZE the read fails with CompactSizeTooLarge at the same
-- place.
pub read_compact_size-write_compact_size :
    (pre rest : Bytes) (n : ℕ)
    → IsU64 n
    → read_compact_size ((write_compact_size n pre).1 ++ rest) (length pre)
      ≡ (checked n, length (write_compact_size n pre).1)
read_compact_size-write_compact_size pre rest n fits =
    rw (write_compact_size-buffer n pre, append_assoc, length-append)
      (read_Form _ (length pre) n (compact_size n) rest (compact_size-Form n fits)
        (drop-append pre (compact_size n ++ rest)))

-- On a buffer of bytes, a CompactSize read returns n and the cursor c' exactly when n is at most
-- MAX_SIZE and the bytes between the two cursors are those that the writer appends for n.
pub read_compact_size_iff :
    (buf : Bytes) (c n c' : ℕ)
    → All IsByte buf
    → (read_compact_size buf c ≡ (ok n, c')) ↔ (
        (n ≤ max_size)
        × (drop c buf ≡ (write_compact_size n []).1 ++ drop c' buf)
        × (c' ≡ c + length (write_compact_size n []).1))
read_compact_size_iff buf c n c' bytes = rw (write_compact_size-buffer n []) (
  (λ e. read_compact_size_inv buf bytes c n c' e),
  (λ (small, here, after).
      read_Form buf c n (compact_size n) (drop c' buf) (compact_size-Form n (omega arith)) here
      ∙ rw (le→ltb max_size n small) (ap (λ (t : ℕ). (ok n, t)) (sym after))),
)

-- The three forms with a tag: the tag, the width of the word, and the least value it is for.
pub data LongForm : Type 0 where
  u16 u32 u64 : LongForm

abbrev pub tag : LongForm → ℕ
tag u16 = 0xfd
tag u32 = 0xfe
tag u64 = 0xff

abbrev pub width : LongForm → ℕ
width u16 = 2
width u32 = 4
width u64 = 8

abbrev pub least : LongForm → ℕ
least u16 = 253
least u32 = 2 ^ 16
least u64 = 2 ^ 32

-- A CompactSize whose value is below the range of its form is refused as NonCanonicalCompactSize,
-- with the cursor behind it.
pub read_compact_size_overlong :
    (f : LongForm) (buf : Bytes) (c n : ℕ) (rest : Bytes)
    → n < least f
    → drop c buf ≡ tag f ∷ to_le_bytes (width f) n ++ rest
    → read_compact_size buf c ≡ (err non_canonical_compact_size, c + 1 + width f)
unfolding ◌>>=◌ return throw read_u16_le read_u32_le read_u64_le
read_compact_size_overlong u16 buf c n rest low here = ground (
  arith,
  read_compact_size_step buf c 0xfd (to_le_bytes 2 n ++ rest),
  read_u8-of_drop buf c 0xfd (to_le_bytes 2 n ++ rest),
  word-of_drop 2 n buf (c + 1) rest,
)
read_compact_size_overlong u32 buf c n rest low here = ground (
  arith,
  read_compact_size_step buf c 0xfe (to_le_bytes 4 n ++ rest),
  read_u8-of_drop buf c 0xfe (to_le_bytes 4 n ++ rest),
  word-of_drop 4 n buf (c + 1) rest,
)
read_compact_size_overlong u64 buf c n rest low here = ground (
  arith,
  read_compact_size_step buf c 0xff (to_le_bytes 8 n ++ rest),
  read_u8-of_drop buf c 0xff (to_le_bytes 8 n ++ rest),
  word-of_drop 8 n buf (c + 1) rest,
)
