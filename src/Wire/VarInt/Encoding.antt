-- ===== src/Wire/VarInt/Encoding.antt =====
-- What `write_varint_u64` of rust/src/wire.rs appends: base 128, highest digit first, with every
-- digit but the last marked and lowered by one.
mod Digits
use verusid_cmm_encrypt.Common.{
  ℕ, zero, suc, ◌+◌, ◌-◌, ◌*◌, ◌/◌, ◌%◌, ◌^◌, ◌≤◌, ◌<◌, ◌≡◌, refl, ap, ◌∙◌, [], ◌∷◌, ◌++◌,
  append_assoc, append-nil, Bytes, some, bit_and, bit_or, arith, leb, ◌==◌, Bool-cases, inl, inr,
  if◌then◌else◌, IsU64, length, get_or, set, replicate, lt→leb, length-set, get_or-set_self,
  get_or-set_lt, get_elem?-get_or,
}
use verusid_cmm_encrypt.Common.Bits.{bit_and_seven_ones, bit_or-zero, bit_or_top}
use verusid_cmm_encrypt.Wire.Writer.{push, extend, extend-extend}
use verusid_cmm_encrypt.Wire.VarInt.{fill, push_at, emit, write_varint_u64}
use native.Mathlib.Nat.{pow-suc}
use native.Mathlib.Numerals.{add-one}
unfoldable pub use verusid_cmm_encrypt.Wire.VarInt.Encoding.Digits.*

-- The entries of `tmp` below `len`, downwards.
down : Bytes → ℕ → Bytes
down tmp zero = []
down tmp (suc l) = get_or tmp l 0 ∷ down tmp l

down-set : (tmp : Bytes) (i l v : ℕ) → l ≤ i → down (set tmp i v) l ≡ down tmp l
unfolding down
down-set tmp i zero v h = refl
down-set tmp i (suc l) v h =
    rw (get_or-set_lt tmp i l v 0 (omega arith), down-set tmp i l v (omega arith))

push_at_lem : (tmp : Bytes) (i : ℕ) → i < length tmp → push_at tmp i ≡ push (get_or tmp i 0)
unfolding push_at
push_at_lem tmp i h = rw (get_elem?-get_or tmp i 0 h, push_at)

emit_lem : (tmp : Bytes) (len : ℕ) → len < length tmp → emit tmp len ≡ extend (down tmp (suc len))
unfolding emit down
emit_lem tmp zero h = push_at_lem tmp zero h
emit_lem tmp (suc len) h =
    rw (push_at_lem tmp (suc len) h, emit_lem tmp len (omega arith)) (extend-extend _ _)

abbrev marker : ℕ → ℕ
marker len = if len == 0 then 0x00 else 0x80

digit : (n len : ℕ) → bit_or (bit_and n 0x7f % 2 ^ 8) (marker len) ≡ n % 128 + marker len
digit n len =
    let group : bit_and n 0x7f % 2 ^ 8 ≡ n % 128 = omega (arith, bit_and_seven_ones n) in
    rw group (ground (arith, bit_or-zero (n % 128), bit_or_top (n % 128)))

-- One round.
fill_last :
    (fuel : ℕ) (tmp : Bytes) (len n : ℕ)
    → len < 10
    → n ≤ 127
    → fill (suc fuel) tmp len n ≡ some (set tmp len (n % 128 + marker len), len)
unfolding fill
fill_last fuel tmp len n room low = ground (arith, digit n len)

fill_more :
    (fuel : ℕ) (tmp : Bytes) (len n : ℕ)
    → len < 10
    → 127 < n
    → fill (suc fuel) tmp len n
      ≡ fill fuel (set tmp len (n % 128 + marker len)) (len + 1) (n / 128 - 1)
unfolding fill
fill_more fuel tmp len n room high = ground (arith, digit n len)

down-set_top :
    (tmp : Bytes) (len v : ℕ) → len < length tmp → down (set tmp len v) (suc len) ≡ v ∷ down tmp len
unfolding down
down-set_top tmp len v h = rw (get_or-set_self tmp len v 0 h, down-set tmp len len v (omega arith))

-- What the first loop leaves, when as many entries are free as `n` has digits.
abbrev Filled : ℕ → ℕ → Bytes → ℕ → ℕ → Type 0
Filled fuel k tmp len n =
    (tmp' : Bytes) × (len' : ℕ) × (fill fuel tmp len n ≡ some (tmp', len'))
    × (len' < length tmp')
    × (down tmp' (suc len') ≡ digits k n (marker len) ++ down tmp len)

-- The digits of one round and of the rounds behind it.
digits_more :
    (k n len v : ℕ) (tmp : Bytes)
    → len < length tmp
    → 127 < n
    → v ≡ n % 128 + marker len
    → digits k (n / 128 - 1) (marker (len + 1)) ++ down (set tmp len v) (len + 1)
      ≡ digits (suc k) n (marker len) ++ down tmp len
digits_more k n len v tmp room high e =
    let mark : marker (len + 1) ≡ 128 = ground arith in
    rw (mark, add-one, down-set_top tmp len v room, e)
      (unfold digits in rw (lt→leb n 127 high, append_assoc))

fill_stops :
    (k fuel : ℕ) (tmp : Bytes) (len n : ℕ)
    → length tmp ≡ 10
    → len < 10
    → n ≤ 127
    → Filled (suc fuel) (suc k) tmp len n
fill_stops k fuel tmp len n size room low =
    let v : ℕ = n % 128 + marker len in
    (
      set tmp len v,
      len,
      fill_last fuel tmp len n room low,
      omega (arith, length-set tmp len v),
      down-set_top tmp len v (omega arith) ∙ unfold digits in ground arith,
    )

fill_lem :
    (k fuel : ℕ) (tmp : Bytes) (len n : ℕ)
    → length tmp ≡ 10
    → len + suc k ≡ 10
    → k < fuel
    → n < 128 ^ suc k
    → Filled fuel (suc k) tmp len n
fill_lem k zero tmp len n size room more h = absurd (omega arith)
fill_lem zero (suc fuel) tmp len n size room more h =
    fill_stops zero fuel tmp len n size (omega arith) (omega arith)
fill_lem (suc k) (suc fuel) tmp len n size room more h = elim (Bool-cases (leb n 127)) [
  | inl last ↦ fill_stops (suc k) fuel tmp len n size (omega arith) (ground arith)
  | inr longer ↦
      let high : 127 < n = ground arith in
      let v : ℕ = n % 128 + marker len in
      let (tmp', len', filled, bound, written) =
        fill_lem k fuel (set tmp len v) (len + 1) (n / 128 - 1) (length-set tmp len v ∙ size)
          (omega arith) (omega arith) (omega (arith, pow-suc 128 (suc k))) in
      (
        tmp',
        len',
        fill_more fuel tmp len n (omega arith) high ∙ filled,
        bound,
        written ∙ digits_more (suc k) n len v tmp (omega arith) high refl,
      )
]

-- On a u64 the array is never overrun, and the writer appends the digits.
pub write_varint_u64_lem : (n : ℕ) → IsU64 n → write_varint_u64 n ≡ extend (varint n)
unfolding write_varint_u64 varint
write_varint_u64_lem n h =
    let (tmp, len, filled, bound, written) =
      fill_lem 9 11 (replicate 10 0) 0 n refl refl (omega arith) (omega arith) in
    rw filled
      (emit_lem tmp len bound ∙ ap extend (written ∙ (unfold down in append-nil (digits 10 n 0))))
