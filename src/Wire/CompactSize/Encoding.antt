-- ===== src/Wire/CompactSize/Encoding.antt =====
-- What `write_compact_size` of rust/src/wire.rs appends.
use verusid_cmm_encrypt.Common.{
  ℕ, ◌≤◌, ◌<◌, ◌^◌, ◌%◌, ◌≡◌, [], ◌∷◌, Bytes, arith, ltb, leb, if◌then◌else◌, IsU64, IsByte, All,
  length, to_le_bytes, Bool-cases, inl, inr,
}
use verusid_cmm_encrypt.Wire.Writer.{extend, writer_laws}
use verusid_cmm_encrypt.Wire.CompactSize.{write_compact_size}

unfoldable pub compact_size : ℕ → Bytes
compact_size n =
    if ltb n 253
    then (n % 2 ^ 8) ∷ []
    else if leb n 0xffff
    then 0xfd ∷ to_le_bytes 2 (n % 2 ^ 16)
    else if leb n 0xffff_ffff
    then 0xfe ∷ to_le_bytes 4 (n % 2 ^ 32)
    else 0xff ∷ to_le_bytes 8 n

pub write_compact_size_lem : (n : ℕ) → write_compact_size n ≡ extend (compact_size n)
unfolding write_compact_size compact_size
write_compact_size_lem n = simp writer_laws

pub length-compact_size :
    (n : ℕ)
    → length (compact_size n)
      ≡ (if ltb n 253 then 1 else if leb n 0xffff then 3 else if leb n 0xffff_ffff then 5 else 9)
unfolding compact_size
length-compact_size n = ground arith

pub All-compact_size : (n : ℕ) → All IsByte (compact_size n)
unfolding compact_size
All-compact_size n = ground arith

-- The four forms, each with the range of values that it is for.
pub data Form (n : ℕ) (bytes : Bytes) : Type 0 where
  one_byte : n < 253 → bytes ≡ n ∷ [] → Form n bytes
  tag_253 : 253 ≤ n → n < 2 ^ 16 → bytes ≡ 0xfd ∷ to_le_bytes 2 n → Form n bytes
  tag_254 : 2 ^ 16 ≤ n → n < 2 ^ 32 → bytes ≡ 0xfe ∷ to_le_bytes 4 n → Form n bytes
  tag_255 : 2 ^ 32 ≤ n → n < 2 ^ 64 → bytes ≡ 0xff ∷ to_le_bytes 8 n → Form n bytes

pub compact_size-Form : (n : ℕ) → IsU64 n → Form n (compact_size n)
unfolding compact_size
compact_size-Form n h = elim (Bool-cases (ltb n 253)) [
  | inl small ↦ one_byte (ground arith) (ground arith)
  | inr large ↦ elim (Bool-cases (leb n 0xffff)) [
    | inl two ↦ tag_253 (ground arith) (ground arith) (ground arith)
    | inr more ↦ elim (Bool-cases (leb n 0xffff_ffff)) [
      | inl four ↦ tag_254 (ground arith) (ground arith) (ground arith)
      | inr eight ↦ tag_255 (ground arith) (ground arith) (ground arith)
    ]
  ]
]

pub Form-compact_size : (n : ℕ) (bytes : Bytes) → Form n bytes → compact_size n ≡ bytes
unfolding compact_size
Form-compact_size n bytes (one_byte lo e) = ground arith
Form-compact_size n bytes (tag_253 lo hi e) = ground arith
Form-compact_size n bytes (tag_254 lo hi e) = ground arith
Form-compact_size n bytes (tag_255 lo hi e) = ground arith
