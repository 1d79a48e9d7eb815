-- ===== src/Wire/VarInt/Encoding/Digits.antt =====
-- The digits of a VarInt of rust/src/wire.rs: their equations, their range and how many there are.
use verusid_cmm_encrypt.Common.{
  ℕ, zero, suc, ◌+◌, ◌-◌, ◌*◌, ◌/◌, ◌%◌, ◌^◌, ◌≤◌, ◌<◌, ◌≡◌, refl, ap, ◌∙◌, [], ◌∷◌, ◌++◌, Bytes,
  arith, leb, Bool-cases, inl, inr, if◌then◌else◌, IsU64, IsByte, All, All-append, ◌↔◌,
  length-append, length, le→leb, lt→leb,
}
use native.Mathlib.Nat.{pow-suc, add-zero}

-- At most `k` digits of `n`, the last of them with the marker `m`.
unfoldable pub digits : ℕ → ℕ → ℕ → Bytes
digits zero n m = []
digits (suc k) n m =
    let more = digits k (n / 128 - 1) 128 in
    if leb n 127 then (n + m) ∷ [] else more ++ (n % 128 + m) ∷ []

unfoldable pub varint : ℕ → Bytes
varint n = digits 10 n 0

-- The rounds do not matter, as long as they are enough.
digits_rounds :
    (k j n m : ℕ) → n < 128 ^ suc k → n < 128 ^ suc j → digits (suc k) n m ≡ digits (suc j) n m
unfolding digits
digits_rounds zero zero n m p q = refl
digits_rounds zero (suc j) n m p q = rw (le→leb n 127 (omega arith))
digits_rounds (suc k) zero n m p q = rw (le→leb n 127 (omega arith))
digits_rounds (suc k) (suc j) n m p q = ground (
  arith,
  pow-suc 128 (suc k),
  pow-suc 128 (suc j),
  digits_rounds k j (n / 128 - 1) 128 (omega (arith, pow-suc 128 (suc k)))
      (omega (arith, pow-suc 128 (suc j))),
)

pub digits-suc :
    (k n m : ℕ)
    → digits (suc k) n m
      ≡ (if leb n 127 then (n + m) ∷ [] else digits k (n / 128 - 1) 128 ++ (n % 128 + m) ∷ [])
unfolding digits
digits-suc k n m = refl

pub digits_small : (k n m : ℕ) → n ≤ 127 → digits (suc k) n m ≡ (n + m) ∷ []
digits_small k n m h = rw (digits-suc, le→leb n 127 h)

pub digits_large :
    (k n m : ℕ) → 127 < n → digits (suc k) n m ≡ digits k (n / 128 - 1) 128 ++ (n % 128 + m) ∷ []
digits_large k n m h = rw (digits-suc, lt→leb n 127 h)

pub digits_equation :
    (n m : ℕ)
    → n < 128 ^ 10
    → digits 10 n m
      ≡ (if leb n 127 then (n + m) ∷ [] else digits 10 (n / 128 - 1) 128 ++ (n % 128 + m) ∷ [])
digits_equation n m h =
    digits-suc 9 n m
    ∙ ap (λ (t : Bytes). if leb n 127 then (n + m) ∷ [] else t ++ (n % 128 + m) ∷ [])
        (digits_rounds 8 9 (n / 128 - 1) 128 (omega arith) (omega arith))

-- The size of the digits, and that they are bytes.
All-digits : (k n m : ℕ) → n < 128 ^ suc k → m ≤ 128 → All IsByte (digits (suc k) n m)
All-digits zero n m h marker = rw (digits_small 0 n m (omega arith)) (omega arith)
All-digits (suc k) n m h marker = elim (Bool-cases (leb n 127)) [
  | inl small ↦ let low : n ≤ 127 = ground arith in rw (digits_small (suc k) n m low) (omega arith)
  | inr large ↦ rw (digits_large (suc k) n m (ground arith)) (
      All-append IsByte (digits (suc k) (n / 128 - 1) 128) ((n % 128 + m) ∷ [])
        (All-digits k (n / 128 - 1) 128 (omega (arith, pow-suc 128 (suc k))) (omega arith))
        (omega arith))
]

pub All-varint : (n : ℕ) → IsU64 n → All IsByte (varint n)
unfolding varint
All-varint n h = All-digits 9 n 0 (omega arith) (omega arith)

-- The values that fit in `k` digits are those below 128 + 128 ^ 2 + … + 128 ^ k.
abbrev pub capacity : ℕ → ℕ
capacity zero = 0
capacity (suc k) = 128 * (capacity k + 1)

length-digits_pos : (k n m : ℕ) → 0 < length (digits (suc k) n m)
length-digits_pos k n m = elim (Bool-cases (leb n 127)) [
  | inl small ↦ let low : n ≤ 127 = ground arith in rw (digits_small k n m low) (omega arith)
  | inr large ↦ rw (digits_large k n m (ground arith), length-append) (omega arith)
]

length-digits_iff :
    (k j n m : ℕ) → n < 128 ^ suc k → (length (digits (suc k) n m) ≤ j) ↔ (n < capacity j)
length-digits_iff k zero n m h =
    ((λ p. absurd (omega (arith, length-digits_pos k n m))), λ p. absurd (omega arith))
length-digits_iff zero (suc j) n m h =
    rw (digits_small 0 n m (omega arith)) ((λ p. omega arith), λ p. omega arith)
length-digits_iff (suc k) (suc j) n m h = elim (Bool-cases (leb n 127)) [
  | inl small ↦
      let low : n ≤ 127 = ground arith in
      rw (digits_small (suc k) n m low) ((λ p. omega arith), λ p. omega arith)
  | inr large ↦
      let high : 127 < n = ground arith in
      let less : (length (digits (suc k) (n / 128 - 1) 128) ≤ j) ↔ (n / 128 - 1 < capacity j) =
        length-digits_iff k j (n / 128 - 1) 128 (omega (arith, pow-suc 128 (suc k))) in
      rw (digits_large (suc k) n m high, length-append)
        ((λ p. omega (arith, less.0 (omega arith))), λ p. omega (arith, less.1 (omega arith)))
]

pub length-varint_iff : (j n : ℕ) → IsU64 n → (length (varint n) ≤ j) ↔ (n < capacity j)
unfolding varint
length-varint_iff j n h = length-digits_iff 9 j n 0 (omega arith)

pub length-varint_pos : (n : ℕ) → 0 < length (varint n)
unfolding varint
length-varint_pos n = length-digits_pos 9 n 0

pub varint_low : (n : ℕ) → n ≤ 127 → varint n ≡ n ∷ []
unfolding varint
varint_low n h = rw (digits_small 9 n 0 h, add-zero)
