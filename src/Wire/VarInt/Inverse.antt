-- ===== src/Wire/VarInt/Inverse.antt =====
-- The loop of `read_varint_u64` of rust/src/wire.rs, on the digits that the writer appends and on
-- any bytes.
use verusid_cmm_encrypt.Common.{
  ℕ, zero, suc, ◌+◌, ◌-◌, ◌*◌, ◌/◌, ◌%◌, ◌^◌, ◌≤◌, ◌<◌, ◌≡◌, ◌≢◌, refl, ap, sym, ◌∙◌, [], ◌∷◌, ◌++◌,
  append_assoc, Bytes, bit_and, bit_or, arith, ltb, leb, lt→leb, Bool-cases, inl, inr, IsU64,
  IsByte, All, length, length-append,
}
use verusid_cmm_encrypt.Common.Bits.{bit_and_seven_ones, bit_or_group, bit_and_top}
use verusid_cmm_encrypt.Wire.Reader.{ReadResult, ok}
use verusid_cmm_encrypt.Wire.VarInt.{u64_max, read_varint_loop}
use verusid_cmm_encrypt.Wire.VarInt.Encoding.{
  digits, varint, digits_small, digits_large, digits_equation,
}
use native.Mathlib.Nat.{pow-suc, add-zero}
use mathlib.Core.Path.{subst}

-- The value behind one byte, as arithmetic.
pub group :
    (ch n : ℕ)
    → n ≤ u64_max / 2 ^ 7
    → bit_or (n * 2 ^ 7 % 2 ^ 64) (bit_and ch 0x7f) ≡ n * 128 + ch % 128
group ch n h =
    let whole : n * 2 ^ 7 % 2 ^ 64 ≡ n * 128 = omega arith in
    rw (whole, bit_and_seven_ones ch) (bit_or_group n (ch % 128) (omega arith))

-- One round, on a byte without and with the top bit.
loop_last :
    (d : ℕ) (rest : Bytes) (c n : ℕ)
    → d < 128
    → n ≤ u64_max / 2 ^ 7
    → read_varint_loop (d ∷ rest) c n ≡ (ok (n * 128 + d), c + 1)
unfolding read_varint_loop
loop_last d rest c n hd hn = ground (arith, group d n, bit_and_top d)

loop_marked :
    (d : ℕ) (rest : Bytes) (c n : ℕ)
    → d < 128
    → n ≤ u64_max / 2 ^ 7
    → n * 128 + d ≢ u64_max
    → read_varint_loop ((d + 128) ∷ rest) c n ≡ read_varint_loop rest (c + 1) (n * 128 + d + 1)
unfolding read_varint_loop
loop_marked d rest c n hd hn ne = ground (arith, group (d + 128) n, bit_and_top (d + 128))

loop_at :
    (rest : Bytes) {c c' n n' : ℕ}
    → c ≡ c'
    → n ≡ n'
    → read_varint_loop rest c n ≡ read_varint_loop rest c' n'
loop_at rest p q = cc

-- Marked digits of `v` leave `v + 1` in the accumulator.
AfterDigits : ℕ → ℕ → Type 0
AfterDigits k v =
    (c : ℕ) (rest : Bytes)
    → read_varint_loop (digits k v 128 ++ rest) c 0
      ≡ read_varint_loop rest (c + length (digits k v 128)) (v + 1)

after_small : (k v : ℕ) → v ≤ 127 → AfterDigits (suc k) v
unfolding AfterDigits
after_small k v small c rest = rw (digits_small k v 128 small) (
    loop_marked v rest c 0 (omega arith) (omega arith) (omega arith)
    ∙ loop_at rest refl (omega arith))

after_large :
    (k v : ℕ) → 127 < v → v < u64_max → AfterDigits k (v / 128 - 1) → AfterDigits (suc k) v
unfolding AfterDigits
after_large k v large low before c rest =
    rw (digits_large k v 128 large, append_assoc, length-append)
      (before c ((v % 128 + 128) ∷ rest)
        ∙ loop_marked (v % 128) rest (c + length (digits k (v / 128 - 1) 128)) (v / 128 - 1 + 1)
            (omega arith) (omega arith) (omega arith)
        ∙ loop_at rest (omega arith) (omega arith))

after_digits : (k v : ℕ) → v < 128 ^ suc k → v < u64_max → AfterDigits (suc k) v
after_digits zero v fits low = after_small zero v (omega arith)
after_digits (suc k) v fits low = elim (Bool-cases (leb v 127)) [
  | inl small ↦ after_small (suc k) v (ground arith)
  | inr large ↦
      after_large (suc k) v (ground arith) low
        (after_digits k (v / 128 - 1) (omega (arith, pow-suc 128 (suc k))) (omega arith))
]

ok_at : {n n' c c' : ℕ} → n ≡ n' → c ≡ c' → ◌≡◌ {A = ReadResult ℕ × ℕ} (ok n, c) (ok n', c')
ok_at p q = cc

-- The reader on what the writer appends.
pub loop-varint :
    (n c : ℕ) (rest : Bytes)
    → IsU64 n
    → read_varint_loop (varint n ++ rest) c 0 ≡ (ok n, c + length (varint n))
unfolding varint
loop-varint n c rest fits = elim (Bool-cases (leb n 127)) [
  | inl small ↦
      let low : n ≤ 127 = ground arith in
      rw (digits_small 9 n 0 low) (
        loop_last (n + 0) rest c 0 (omega arith) (omega arith)
        ∙ ap (λ (v : ℕ). (ok v, c + 1)) (omega arith))
  | inr large ↦
      let high : 127 < n = ground arith in
      let more : Bytes = digits 9 (n / 128 - 1) 128 in
      let before : AfterDigits 9 (n / 128 - 1) =
        after_digits 8 (n / 128 - 1) (omega arith) (omega arith) in
      rw (digits_large 9 n 0 high, append_assoc, length-append)
        (unfold AfterDigits in
          before c ((n % 128 + 0) ∷ rest)
          ∙ loop_last (n % 128 + 0) rest (c + length more) (n / 128 - 1 + 1) (omega arith)
              (omega arith)
          ∙ ok_at (omega arith) (omega arith))
]

-- The digits that an accumulator stands for: none at first, and marked ones later.
abbrev pub seen : ℕ → Bytes
seen zero = []
seen (suc a) = digits 10 a 128

-- A byte behind them makes the next digits, whatever its marker.
seen_next :
    (a d m : ℕ) → a ≤ u64_max / 2 ^ 7 → d < 128 → seen a ++ (d + m) ∷ [] ≡ digits 10 (a * 128 + d) m
seen_next zero d m h hd =
    rw (digits_small 9 (0 * 128 + d) m (omega arith)) (ap (λ (t : ℕ). (t + m) ∷ []) (omega arith))
seen_next (suc a) d m h hd =
    let high : suc a * 128 + d ≡ 128 + (a * 128 + d) = omega arith in
    let before : (suc a * 128 + d) / 128 - 1 ≡ a = omega arith in
    let last : (suc a * 128 + d) % 128 ≡ d = omega arith in
    sym (
      digits_equation (suc a * 128 + d) m (omega arith)
      ∙ rw (lt→leb (suc a * 128 + d) 127 (omega arith), before, last))

-- The bytes taken, with those seen before them, are the digits of the value returned.
abbrev pub Decoded : Bytes → ℕ → ℕ → ℕ → ℕ → Type 0
Decoded bs c a n c' =
    (taken rest : Bytes) × (bs ≡ taken ++ rest)
    × (c' ≡ c + length taken)
    × (seen a ++ taken ≡ digits 10 n 0)
    × IsU64 n

loop_low :
    (ch : ℕ) (bs : Bytes) (c a n c' : ℕ)
    → ch < 128
    → read_varint_loop (ch ∷ bs) c a ≡ (ok n, c')
    → (a ≤ u64_max / 2 ^ 7) × (n ≡ a * 128 + ch) × (c' ≡ c + 1)
unfolding read_varint_loop
loop_low ch bs c a n c' low e = ground (arith, group ch a, bit_and_top ch)

loop_high :
    (d : ℕ) (bs : Bytes) (c a n c' : ℕ)
    → d < 128
    → read_varint_loop ((d + 128) ∷ bs) c a ≡ (ok n, c')
    → (a ≤ u64_max / 2 ^ 7)
      × (a * 128 + d < u64_max)
      × (read_varint_loop bs (c + 1) (suc (a * 128 + d)) ≡ (ok n, c'))
unfolding read_varint_loop
loop_high d bs c a n c' low e = ground (arith, group (d + 128) a, bit_and_top (d + 128))

taken_last :
    (ch : ℕ) (bs : Bytes) (c a n c' : ℕ)
    → ch < 128
    → read_varint_loop (ch ∷ bs) c a ≡ (ok n, c')
    → Decoded (ch ∷ bs) c a n c'
taken_last ch bs c a n c' low e =
    let (fits, value, after) = loop_low ch bs c a n c' low e in
    (ch ∷ [], bs, refl, after, rw value (rw add-zero at (seen_next a ch 0 fits low)), omega arith)

taken_next :
    (d : ℕ) (bs : Bytes) (c a n c' : ℕ)
    → d < 128
    → a ≤ u64_max / 2 ^ 7
    → Decoded bs (c + 1) (suc (a * 128 + d)) n c'
    → Decoded ((d + 128) ∷ bs) c a n c'
taken_next d bs c a n c' low fits (taken, rest, split, after, digits_of, word) = (
  (d + 128) ∷ taken,
  rest,
  ap (λ (t : Bytes). (d + 128) ∷ t) split,
  omega arith,
  sym (append_assoc (seen a) ((d + 128) ∷ []) taken) ∙ (rw (seen_next a d 128 fits low) digits_of),
  word,
)

pub loop_inv :
    (bs : Bytes) (c a n c' : ℕ)
    → All IsByte bs
    → read_varint_loop bs c a ≡ (ok n, c')
    → Decoded bs c a n c'
loop_inv [] c a n c' bytes e = unfold read_varint_loop in cc
loop_inv (ch ∷ bs) c a n c' (byte, bytes) e = elim (Bool-cases (ltb ch 128)) [
  | inl low ↦ taken_last ch bs c a n c' (ground arith) e
  | inr high ↦
      let d : ℕ = ch - 128 in
      let same : d + 128 ≡ ch = ground arith in
      let (fits, below, next) =
        loop_high d bs c a n c' (omega arith)
          (ap (λ (t : ℕ). read_varint_loop (t ∷ bs) c a) same ∙ e) in
      subst (λ (t : ℕ). Decoded (t ∷ bs) c a n c') same
        (taken_next d bs c a n c' (omega arith) fits
          (loop_inv bs (c + 1) (suc (a * 128 + d)) n c' bytes next))
]
