-- ===== src/Wire/Cursor.antt =====
-- Where the readers of rust/src/wire.rs leave the cursor, whether they succeed or fail.
use verusid_cmm_encrypt.Common.{
  ℕ, zero, suc, ◌+◌, ◌*◌, ◌%◌, ◌/◌, ◌^◌, ◌≤◌, ◌≡◌, [], ◌∷◌, Bytes, Option-cases, ◌&&◌, ◌<◌, some,
  Bool, true, false, Bool-cases, inl, inr, arith, ltb, leb, ◌==◌, if◌then◌else◌, bit_and, bit_or,
  length, drop, length-drop, get_elem?,
}
use verusid_cmm_encrypt.Wire.Writer.{
  WireError, non_canonical_compact_size, compact_size_too_large, var_int_too_large,
}
use verusid_cmm_encrypt.Wire.Reader.{
  Reader, ReadResult, ok, err, continue, ◌>>=◌, return, throw, step_word, get_range?, read_u8,
  read_u16_le, read_u32_le, read_u64_le,
}
use verusid_cmm_encrypt.Wire.CompactSize.{max_size, at_least, untag, read_compact_size}
use verusid_cmm_encrypt.Wire.VarInt.{u64_max, read_varint_loop, read_varint_u64}

-- Never back, never past the end, and at most `k` bytes ahead.
pub record Advances (buf : Bytes) (c k c' : ℕ) : Type 0 where
  pub forth : c ≤ c'
  pub inside : c' ≤ length buf
  pub near : c' ≤ c + k

abbrev pub IsBounded : ℕ → Reader ℕ → Type 0
IsBounded k r = (buf : Bytes) (c : ℕ) → c ≤ length buf → Advances buf c k (r buf c).1

stays : (buf : Bytes) (c k : ℕ) → c ≤ length buf → Advances buf c k c
stays buf c k h = record { forth = omega arith; inside = h; near = omega arith }

return-IsBounded : (k a : ℕ) → IsBounded k (return a)
unfolding return
return-IsBounded k a buf c h = stays buf c k h

throw-IsBounded : (k : ℕ) (e : WireError) → IsBounded k (throw e)
unfolding throw
throw-IsBounded k e buf c h = stays buf c k h

if-IsBounded :
    (k : ℕ) (b : Bool) (r s : Reader ℕ)
    → IsBounded k r
    → IsBounded k s
    → IsBounded k (if b then r else s)
if-IsBounded k true r s h g = h
if-IsBounded k false r s h g = g

-- A chain takes what its steps take.
bind-IsBounded :
    (j k : ℕ) (r : Reader ℕ) (f : ℕ → Reader ℕ)
    → IsBounded j r
    → ((a : ℕ) → IsBounded k (f a))
    → IsBounded (j + k) (r >>= f)
unfolding ◌>>=◌
bind-IsBounded j k r f h g buf c hc = by_result (r buf c).0 (r buf c).1 (h buf c hc)
  where
    by_result :
        (a : ReadResult ℕ) (c' : ℕ)
        → Advances buf c j c'
        → Advances buf c (j + k) (continue a f buf c').1
    by_result (ok a) c' adv =
        let next = g a buf c' adv.inside in
        record {
          forth = omega (arith, adv.forth, next.forth);
          inside = next.inside;
          near = omega (arith, adv.near, next.near);
        }
    by_result (err e) c' adv = record {
      forth = adv.forth;
      inside = adv.inside;
      near = omega (arith, adv.near);
    }

present_lt : (buf : Bytes) (c b : ℕ) → get_elem? buf c ≡ some b → c < length buf
present_lt [] c b e = absurd (cc e)
present_lt (x ∷ xs) zero b e = omega arith
present_lt (x ∷ xs) (suc c) b e = let h = present_lt xs c b e in omega arith

read_u8-IsBounded : IsBounded 1 read_u8
unfolding read_u8
read_u8-IsBounded buf c h = elim (Option-cases (get_elem? buf c)) [
  | inl e ↦ rw e (stays buf c 1 h)
  | inr (b, e) ↦
      let lt = present_lt buf c b e in
      rw e (record { forth = omega arith; inside = omega arith; near = omega arith })
]

word-IsBounded : (w : ℕ) → IsBounded w (λ buf c. step_word w (get_range? buf c (c + w)) c)
word-IsBounded w buf c h = elim (Bool-cases (leb c (c + w) && leb (c + w) (length buf))) [
  | inl e ↦
      let fits : c + w ≤ length buf = ground arith in
      rw e (record { forth = omega arith; inside = fits; near = omega arith })
  | inr e ↦ rw e (stays buf c w h)
]

at_least-IsBounded : (least v : ℕ) → IsBounded 0 (at_least least v)
at_least-IsBounded least v =
    if-IsBounded 0 (ltb v least) (throw non_canonical_compact_size) (return v)
      (throw-IsBounded 0 non_canonical_compact_size) (return-IsBounded 0 v)

weaker : (j k : ℕ) (r : Reader ℕ) → j ≤ k → IsBounded j r → IsBounded k r
weaker j k r le h buf c hc =
    let adv = h buf c hc in
    record { forth = adv.forth; inside = adv.inside; near = omega (arith, adv.near) }

untag-IsBounded : (tag : ℕ) → IsBounded 8 (untag tag)
unfolding read_u16_le read_u32_le read_u64_le
untag-IsBounded tag =
    let two =
      bind-IsBounded 2 0 read_u16_le (at_least 253) (word-IsBounded 2) (at_least-IsBounded 253) in
    let four =
      bind-IsBounded 4 0 read_u32_le (at_least 0x1_0000) (word-IsBounded 4)
        (at_least-IsBounded 0x1_0000) in
    let eight =
      bind-IsBounded 8 0 read_u64_le (at_least 0x1_0000_0000) (word-IsBounded 8)
        (at_least-IsBounded 0x1_0000_0000) in
    if-IsBounded 8 (ltb tag 253) _ _ (return-IsBounded 8 tag) (
      if-IsBounded 8 (tag == 253) _ _ (weaker 2 8 (read_u16_le >>= at_least 253) (omega arith) two)
        (if-IsBounded 8 (tag == 254) _ _
          (weaker 4 8 (read_u32_le >>= at_least 0x1_0000) (omega arith) four) eight))

-- Within a buffer, a CompactSize read leaves the cursor where it was or ahead of it by at most nine
-- bytes, and never past the end, whether it succeeds or fails.
pub read_compact_size-Advances :
    (buf : Bytes) (c : ℕ) → c ≤ length buf → Advances buf c 9 (read_compact_size buf c).1
unfolding read_compact_size
read_compact_size-Advances = bind-IsBounded 1 8 read_u8 _ read_u8-IsBounded λ tag.
    bind-IsBounded 8 0 (untag tag) _ (untag-IsBounded tag) λ n.
      if-IsBounded 0 (ltb max_size n) (throw compact_size_too_large) (return n)
        (throw-IsBounded 0 compact_size_too_large) (return-IsBounded 0 n)

record Within (c end : ℕ) (read : ReadResult ℕ × ℕ) : Type 0 where
  forth : c ≤ read.1
  inside : read.1 ≤ end

if-Within :
    (c end : ℕ) (b : Bool) (r s : ReadResult ℕ × ℕ)
    → Within c end r
    → Within c end s
    → Within c end (if b then r else s)
if-Within c end true r s h g = h
if-Within c end false r s h g = g

-- The loop of the VarInt reader, on what the buffer holds from the cursor on.
loop-Within : (rest : Bytes) (c n : ℕ) → Within c (c + length rest) (read_varint_loop rest c n)
unfolding read_varint_loop
loop-Within [] c n = record { forth = omega arith; inside = omega arith }
loop-Within (ch ∷ rest) c n =
    let n' = bit_or (n * 2 ^ 7 % 2 ^ 64) (bit_and ch 0x7f) in
    let w = loop-Within rest (c + 1) (n' + 1) in
    let stop : (r : ReadResult ℕ) → Within c (c + suc (length rest)) (r, c + 1) =
      λ r. record { forth = omega arith; inside = omega arith } in
    let more : Within c (c + suc (length rest)) (read_varint_loop rest (c + 1) (n' + 1)) = record {
      forth = omega (arith, w.forth);
      inside = omega (arith, w.inside);
    } in
    let end = c + suc (length rest) in
    if-Within c end (ltb (u64_max / 2 ^ 7) n) (err var_int_too_large, c + 1) _ (stop _)
      (if-Within c end (bit_and ch 0x80 == 0) (ok n', c + 1)
        (if n' == u64_max
          then (err var_int_too_large, c + 1)
          else read_varint_loop rest (c + 1) (n' + 1))
        (stop _)
        (if-Within c end (n' == u64_max) (err var_int_too_large, c + 1)
          (read_varint_loop rest (c + 1) (n' + 1)) (stop _) more))

-- Within a buffer, a VarInt read leaves the cursor where it was or ahead of it, and never past the
-- end, whether it succeeds or fails.
pub read_varint_u64-Within :
    (buf : Bytes) (c : ℕ)
    → c ≤ length buf
    → (c ≤ (read_varint_u64 buf c).1) × ((read_varint_u64 buf c).1 ≤ length buf)
unfolding read_varint_u64
read_varint_u64-Within buf c h =
    let w = loop-Within (drop c buf) c 0 in (w.forth, omega (arith, w.inside, length-drop c buf))
