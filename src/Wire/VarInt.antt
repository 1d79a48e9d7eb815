-- ===== src/Wire/VarInt.antt =====
-- rust/src/wire.rs: `write_varint_u64` and `read_varint_u64`.
pub mod Encoding
pub mod Inverse
pub mod RoundTrip
pub mod Exact
use verusid_cmm_encrypt.Common.{
  ℕ, zero, suc, ◌+◌, ◌-◌, ◌*◌, ◌/◌, ◌%◌, ◌^◌, bit_and, bit_or, [], ◌∷◌, Bytes, Option, none, some,
  ltb, leb, ◌==◌, if◌then◌else◌, get_elem?, set, replicate, drop,
}
use verusid_cmm_encrypt.Wire.Writer.{
  WireError, unexpected_eof, var_int_too_large, Writer, ◌>>◌, push, panic,
}
use verusid_cmm_encrypt.Wire.Reader.{Reader, ReadResult, ok, err}

-- The first loop: `tmp[len]` gets the lowest group until the value fits in seven bits. The result
-- is the array and the index of its last digit; `none` is an index out of bounds. Each round raises
-- `len`, so eleven rounds reach the bound of the array: the fuel is never what ends the loop.
fill : ℕ → Bytes → ℕ → ℕ → Option (Bytes × ℕ)
fill zero tmp len n = none
fill (suc fuel) tmp len n =
    let marker = if len == 0 then 0x00 else 0x80 in
    let tmp' = set tmp len (bit_or (bit_and n 0x7f % 2 ^ 8) marker) in
    let more = fill fuel tmp' (len + 1) (n / 2 ^ 7 - 1) in
    if ltb len 10 then (if leb n 0x7f then some (tmp', len) else more) else none

-- `buf.push(tmp[at])`
push_at : Bytes → ℕ → Writer
push_at tmp at = elim (get_elem? tmp at) [ none ↦ panic | some b ↦ push b ]

-- The second loop: the digits from `tmp[len]` down to `tmp[0]`.
emit : Bytes → ℕ → Writer
unfolding push_at
emit tmp zero = push_at tmp zero
emit tmp (suc len) = push_at tmp (suc len) >> emit tmp len

abbrev emit_all : Option (Bytes × ℕ) → Writer
emit_all none = panic
emit_all (some (tmp, len)) = emit tmp len

unfoldable pub write_varint_u64 : ℕ → Writer
unfolding fill emit
write_varint_u64 n = emit_all (fill 11 (replicate 10 0) 0 n)

abbrev pub u64_max : ℕ
u64_max = 2 ^ 64 - 1

-- The loop of the reader. The list is what the buffer holds from the cursor on, so that the read of
-- a byte, `read_u8`, is the match. `<<` drops the bits above the word.
unfoldable pub read_varint_loop : Bytes → ℕ → ℕ → ReadResult ℕ × ℕ
read_varint_loop [] cursor n = (err unexpected_eof, cursor)
read_varint_loop (ch ∷ rest) cursor n =
    let n' = bit_or (n * 2 ^ 7 % 2 ^ 64) (bit_and ch 0x7f) in
    let more = read_varint_loop rest (cursor + 1) (n' + 1) in
    if ltb (u64_max / 2 ^ 7) n
    then (err var_int_too_large, cursor + 1)
    else if bit_and ch 0x80 == 0
    then (ok n', cursor + 1)
    else if n' == u64_max
    then (err var_int_too_large, cursor + 1)
    else more

unfoldable pub read_varint_u64 : Reader ℕ
unfolding read_varint_loop
read_varint_u64 buf cursor = read_varint_loop (drop cursor buf) cursor 0
