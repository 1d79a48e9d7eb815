-- ===== src/Wire/VarInt/RoundTrip.antt =====
-- `write_varint_u64` and `read_varint_u64` of rust/src/wire.rs as an encoder and its decoder.
use verusid_cmm_encrypt.Common.{
  ℕ, ◌+◌, ◌≤◌, ◌<◌, ◌≡◌, sym, ap, ◌∙◌, ◌↔◌, [], ◌++◌, Bytes, arith, IsU64, IsByte, All, All-drop,
  length, drop, drop-append, drop-drop,
}
use verusid_cmm_encrypt.Wire.Writer.{Status, extend-buffer}
use verusid_cmm_encrypt.Wire.Reader.{ok}
use verusid_cmm_encrypt.Wire.VarInt.{write_varint_u64, read_varint_u64}
use verusid_cmm_encrypt.Wire.VarInt.Encoding.{
  varint, write_varint_u64_lem, All-varint, capacity, length-varint_iff, length-varint_pos,
}
use verusid_cmm_encrypt.Wire.VarInt.Inverse.{loop-varint, loop_inv}

write_varint_u64-run :
    (n : ℕ) (buf : Bytes) → IsU64 n → write_varint_u64 n buf ≡ (Status.ok, buf ++ varint n)
write_varint_u64-run n buf h = rw (write_varint_u64_lem n h) (extend-buffer (varint n) buf)

write_varint_u64-buffer :
    (n : ℕ) (buf : Bytes) → IsU64 n → (write_varint_u64 n buf).1 ≡ buf ++ varint n
write_varint_u64-buffer n buf h = ap (λ r. r.1) (write_varint_u64-run n buf h)

-- On every u64 the VarInt writer returns without overrunning its scratch array, keeps what is in
-- the buffer and appends between one and ten bytes.
pub write_varint_u64_total :
    (n : ℕ) (buf : Bytes)
    → IsU64 n
    → (bytes : Bytes) × (write_varint_u64 n buf ≡ (Status.ok, buf ++ bytes))
      × All IsByte bytes
      × (1 ≤ length bytes)
      × (length bytes ≤ 10)
write_varint_u64_total n buf h = (
  varint n,
  write_varint_u64-run n buf h,
  All-varint n h,
  length-varint_pos n,
  (length-varint_iff 10 n h).1 (omega arith),
)

-- A u64 takes at most k bytes as a VarInt exactly when it is below 128 + 128 ^ 2 + … + 128 ^ k.
pub length-write_varint_u64_iff :
    (k n : ℕ) → IsU64 n → (length (write_varint_u64 n []).1 ≤ k) ↔ (n < capacity k)
length-write_varint_u64_iff k n h = rw (write_varint_u64-buffer n [] h) (length-varint_iff k n h)

-- On a buffer of bytes, a VarInt read returns n and the cursor c' exactly when n is a u64 and the
-- bytes between the two cursors are those that the writer appends for n.
pub read_varint_u64_iff :
    (buf : Bytes) (c n c' : ℕ)
    → All IsByte buf
    → (read_varint_u64 buf c ≡ (ok n, c')) ↔ (
        IsU64 n
        × (drop c buf ≡ (write_varint_u64 n []).1 ++ drop c' buf)
        × (c' ≡ c + length (write_varint_u64 n []).1))
unfolding read_varint_u64 varint
read_varint_u64_iff buf c n c' bytes = (forth, back)
  where
    forth :
        read_varint_u64 buf c ≡ (ok n, c')
        → IsU64 n
          × (drop c buf ≡ (write_varint_u64 n []).1 ++ drop c' buf)
          × (c' ≡ c + length (write_varint_u64 n []).1)
    forth e =
        let (taken, rest, split, after, digits_of, word) =
          loop_inv (drop c buf) c 0 n c' (All-drop IsByte c buf bytes) e in
        let writes : (write_varint_u64 n []).1 ≡ taken =
          write_varint_u64-buffer n [] word ∙ sym digits_of in
        let left : drop c' buf ≡ rest = rw (after, drop-drop, split) (drop-append taken rest) in
        rw (writes, left) (word, split, after)

    back :
        IsU64 n
          × (drop c buf ≡ (write_varint_u64 n []).1 ++ drop c' buf)
          × (c' ≡ c + length (write_varint_u64 n []).1)
        → read_varint_u64 buf c ≡ (ok n, c')
    back (word, split, after) =
        let split' : drop c buf ≡ varint n ++ drop c' buf =
          rw (write_varint_u64-buffer n [] word) at split in
        let after' : c' ≡ c + length (varint n) = rw (write_varint_u64-buffer n [] word) at after in
        rw split' (loop-varint n c (drop c' buf) word ∙ ap (λ (t : ℕ). (ok n, t)) (sym after'))
