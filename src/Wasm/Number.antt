-- ===== src/Wasm/Number.antt =====
-- The tests of wasm/src/lib.rs on an `f64`. Each finite `f64` is a fraction of a power of two.
use native.Mathlib.Nat.{
  le_of_mul-le-mul_right, mul-le-mul_right, div-add-mod', mul-div_cancel, mul-mod_left, one-le-pow,
  zero-mod,
}
use verusid_cmm_encrypt.Common.{
  ℕ, zero, suc, ◌-◌, ◌*◌, ◌/◌, ◌%◌, ◌^◌, ◌≤◌, ◌<◌, min, ◌≡◌, refl, Bool, true, false, ◌&&◌, ◌||◌,
  ltb, ◌==◌, if◌then◌else◌, arith, IsU32, le→ltb, ◌↔◌,
}
use mathlib.Core.Bool.{not}

-- `finite neg num shift` is `num / 2 ^ shift`, negated if `neg`.
pub data F64 : Type 0 where
  nan : F64
  infinite : (neg : Bool) → F64
  finite : (neg : Bool) (num shift : ℕ) → F64

abbrev pub u32_max : ℕ
u32_max = 2 ^ 32 - 1

-- `n.is_finite()`
abbrev pub is_finite : F64 → Bool
is_finite nan = false
is_finite (infinite neg) = false
is_finite (finite neg num shift) = true

-- `n < 0.0`: not for the zero with a sign.
abbrev pub is_negative : F64 → Bool
is_negative nan = false
is_negative (infinite neg) = neg
is_negative (finite neg num shift) = neg && not (num == 0)

-- `n > f64::from(u32::MAX)`
abbrev pub above_u32 : F64 → Bool
above_u32 nan = false
above_u32 (infinite neg) = not neg
above_u32 (finite neg num shift) = not neg && ltb (u32_max * 2 ^ shift) num

-- `n.fract() != 0.0`
abbrev pub has_fraction : F64 → Bool
has_fraction nan = true
has_fraction (infinite neg) = true
has_fraction (finite neg num shift) = not (num % 2 ^ shift == 0)

-- `n as u32`, which saturates.
abbrev pub as_u32 : F64 → ℕ
as_u32 nan = 0
as_u32 (infinite neg) = if neg then 0 else u32_max
as_u32 (finite neg num shift) = if neg then 0 else min (num / 2 ^ shift) u32_max

-- The guard of `read_u32`.
abbrev pub out_of_u32 : F64 → Bool
out_of_u32 n = not (is_finite n) || is_negative n || above_u32 n || has_fraction n

-- `n` is the value of `f`.
pub data IsInteger (n : ℕ) : F64 → Type 0 where
  positive : (num shift : ℕ) → num ≡ n * 2 ^ shift → IsInteger n (finite false num shift)
  minus_zero : (shift : ℕ) → n ≡ 0 → IsInteger n (finite true 0 shift)

-- Below `p` times a bound, a multiple of `p` is that of its quotient.
quotient_lem :
    (num p : ℕ)
    → 0 < p
    → num % p ≡ 0
    → num ≤ u32_max * p
    → (num ≡ num / p * p) × (num / p ≤ u32_max)
quotient_lem num p pos whole small =
    let parts = div-add-mod' num p in
    let exact : num ≡ num / p * p = omega (arith, parts) in
    let below : num / p * p ≤ u32_max * p = omega (arith, exact) in
    (exact, le_of_mul-le-mul_right below pos)

multiple_lem :
    (n p : ℕ) → 0 < p → n ≤ u32_max → (n * p % p ≡ 0) × (n * p / p ≡ n) × (n * p ≤ u32_max * p)
multiple_lem n p pos small = (mul-mod_left n p, mul-div_cancel n pos, mul-le-mul_right p small)

guard_passes : (f : F64) → out_of_u32 f ≡ false → IsInteger (as_u32 f) f × IsU32 (as_u32 f)
guard_passes nan e = cc
guard_passes (infinite neg) e = cc
guard_passes (finite true zero shift) e = (minus_zero shift refl, omega arith)
guard_passes (finite true (suc num) shift) e =
    let nonzero : (suc num == 0) ≡ false = ground arith in cc
guard_passes (finite false num shift) e =
    let pos : 0 < 2 ^ shift = one-le-pow shift 2 (omega arith) in
    let whole : num % 2 ^ shift ≡ 0 = ground arith in
    let small : num ≤ u32_max * 2 ^ shift = ground arith in
    let (exact, bound) = quotient_lem num (2 ^ shift) pos whole small in
    let saturates : min (num / 2 ^ shift) u32_max ≡ num / 2 ^ shift = omega arith in
    rw saturates (positive num shift exact, omega arith)

passes_guard : (n : ℕ) (f : F64) → IsInteger n f → IsU32 n → (out_of_u32 f ≡ false) × (as_u32 f ≡ n)
passes_guard n _ (positive num shift e) h =
    let pos : 0 < 2 ^ shift = one-le-pow shift 2 (omega arith) in
    let (whole, divides, small) = multiple_lem n (2 ^ shift) pos (omega arith) in
    rw (e, whole, divides, le→ltb _ _ small) (refl, omega arith)
passes_guard n _ (minus_zero shift e) h = (rw (zero-mod (2 ^ shift)) refl, omega arith)

-- The guard of read_u32 lets a number pass and the cast gives n exactly when n is the number's
-- value and below 2 ^ 32: a fraction, an infinity, a NaN and a negative number are refused, and the
-- zero with a sign passes as 0.
pub out_of_u32_iff :
    (f : F64) (n : ℕ) → ((out_of_u32 f ≡ false) × (as_u32 f ≡ n)) ↔ (IsInteger n f × IsU32 n)
out_of_u32_iff f n = ((λ (e, v). rw (← v) (guard_passes f e)), (λ (is, h). passes_guard n f is h))
