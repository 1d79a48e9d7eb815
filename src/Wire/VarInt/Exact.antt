-- ===== src/Wire/VarInt/Exact.antt =====
-- `read_varint_u64` of rust/src/wire.rs without a machine word: what it answers is what a reader over
-- unbounded numbers answers that gives up as soon as the number does not fit.
use verusid_cmm_encrypt.Common.{
  ℕ, ◌+◌, ◌*◌, ◌/◌, ◌%◌, ◌^◌, ◌≤◌, ◌≡◌, refl, [], ◌∷◌, Bytes, bit_and, arith, ltb, leb, ◌==◌,
  if◌then◌else◌, Bool-cases, inl, inr, true, false, IsU64, IsByte, All, All-drop, drop,
}
use verusid_cmm_encrypt.Common.Bits.{bit_and_top}
use verusid_cmm_encrypt.Wire.Writer.{unexpected_eof, var_int_too_large}
use verusid_cmm_encrypt.Wire.Reader.{ReadResult, ok, err}
use verusid_cmm_encrypt.Wire.VarInt.{u64_max, read_varint_loop, read_varint_u64}
use verusid_cmm_encrypt.Wire.VarInt.Inverse.{group}

-- A byte below 128 is the last digit; another one counts for one more than its digit.
abbrev pub next : ℕ → ℕ → ℕ
next n ch = if ltb ch 128 then n * 128 + ch else n * 128 + ch % 128 + 1

unfoldable pub exact : Bytes → ℕ → ℕ → ReadResult ℕ × ℕ
exact [] cursor n = (err unexpected_eof, cursor)
exact (ch ∷ rest) cursor n =
    let more = exact rest (cursor + 1) (next n ch) in
    if leb (2 ^ 64) (next n ch)
    then (err var_int_too_large, cursor + 1)
    else if ltb ch 128
    then (ok (next n ch), cursor + 1)
    else more

loop-exact :
    (rest : Bytes) (c n : ℕ)
    → IsU64 n
    → All IsByte rest
    → read_varint_loop rest c n ≡ exact rest c n
unfolding read_varint_loop exact
loop-exact [] c n h bytes = refl
loop-exact (ch ∷ rest) c n h (byte, bytes) = elim (Bool-cases (ltb (u64_max / 2 ^ 7) n)) [
  | inl big ↦ let over : leb (2 ^ 64) (next n ch) ≡ true = ground arith in rw (big, over) refl
  | inr fits ↦
      let low : n ≤ u64_max / 2 ^ 7 = ground arith in
      let value = group ch n low in
      let top = bit_and_top ch byte in
      elim (Bool-cases (ltb ch 128)) [
        | inl last ↦
            let ends : (bit_and ch 0x80 == 0) ≡ true = ground arith in
            let digit : n * 128 + ch % 128 ≡ n * 128 + ch = ground arith in
            let small : leb (2 ^ 64) (n * 128 + ch) ≡ false = ground arith in
            rw (fits, value, ends, last, digit, small) refl
        | inr marked ↦
            let goes_on : (bit_and ch 0x80 == 0) ≡ false = ground arith in
            elim (Bool-cases (n * 128 + ch % 128 == u64_max)) [
              | inl full ↦
                  let over : leb (2 ^ 64) (n * 128 + ch % 128 + 1) ≡ true = ground arith in
                  rw (fits, value, goes_on, full, marked, over) refl
              | inr room ↦
                  let small : leb (2 ^ 64) (n * 128 + ch % 128 + 1) ≡ false = ground arith in
                  rw (fits, value, goes_on, room, marked, small)
                    (loop-exact rest (c + 1) (n * 128 + ch % 128 + 1) (ground arith) bytes)
            ]
      ]
]

-- On a buffer of bytes, a VarInt read, which computes in 64-bit words that wrap, answers what a
-- reader over unbounded numbers answers that gives up with VarIntTooLarge at the first byte by
-- which the number is 2 ^ 64 or more and with UnexpectedEof at the end of the buffer, with the same
-- cursor.
pub read_varint_u64-exact :
    (buf : Bytes) (c : ℕ) → All IsByte buf → read_varint_u64 buf c ≡ exact (drop c buf) c 0
unfolding read_varint_u64
read_varint_u64-exact buf c bytes =
    loop-exact (drop c buf) c 0 (omega arith) (All-drop IsByte c buf bytes)
