-- ===== src/Common/Bits.antt =====
-- `&` with a mask of low ones and `|` of disjoint bits, as plain arithmetic.
use Prim.Native.Nat.{
  ℕ, zero, suc, ◌+◌, ◌*◌, ◌/◌, ◌%◌, ◌≤◌, ◌<◌, min, max, digits, bit_and, bit_or, bit_and-bitwise,
  bit_or-bitwise,
}
use verusid_cmm_encrypt.Common.Tests.{◌==◌}
use mathlib.Core.Bool.{Bool, true, ◌&&◌}
use mathlib.Core.Path.{◌≡◌, refl, ◌∙◌}
use native.Mathlib.Omega.{arith}

-- Any count of digits that the first number does not exceed gives one and the same result.
count_free :
    (z : ℕ → ℕ) (f : ℕ → ℕ → ℕ) (n m a b : ℕ) → a ≤ n → a ≤ m → digits z f n a b ≡ digits z f m a b
count_free z f zero zero zero b p q = refl
count_free z f zero (suc m) zero b p q = refl
count_free z f (suc n) zero zero b p q = refl
count_free z f (suc n) (suc m) zero b p q = refl
count_free z f zero m (suc a) b p q = absurd (omega arith)
count_free z f (suc n) zero (suc a) b p q = absurd (omega arith)
count_free z f (suc n) (suc m) (suc a) b p q =
    omega (arith, count_free z f n m (suc a / 2) (b / 2) (omega arith) (omega arith))

and_halves : (a b : ℕ) → bit_and a b ≡ 2 * bit_and (a / 2) (b / 2) + min (a % 2) (b % 2)
and_halves zero b = omega (arith, bit_and-bitwise 0 b, bit_and-bitwise 0 (b / 2))
and_halves (suc a) b = omega (
  arith,
  bit_and-bitwise (suc a) b,
  bit_and-bitwise (suc a / 2) (b / 2),
  count_free (λ _. 0) min a (suc a / 2) (suc a / 2) (b / 2) (omega arith) (omega arith),
)

or_halves : (a b : ℕ) → bit_or a b ≡ 2 * bit_or (a / 2) (b / 2) + max (a % 2) (b % 2)
or_halves zero b = omega (arith, bit_or-bitwise 0 b, bit_or-bitwise 0 (b / 2))
or_halves (suc a) b = omega (
  arith,
  bit_or-bitwise (suc a) b,
  bit_or-bitwise (suc a / 2) (b / 2),
  count_free (λ y. y) max a (suc a / 2) (suc a / 2) (b / 2) (omega arith) (omega arith),
)

and_zero : (k a : ℕ) → a ≤ k → bit_and a 0 ≡ 0
and_zero k zero h = bit_and-bitwise 0 0
and_zero zero (suc a) h = absurd (omega arith)
and_zero (suc k) (suc a) h =
    omega (arith, and_halves (suc a) 0, and_zero k (suc a / 2) (omega arith))

or_zero : (k a : ℕ) → a ≤ k → bit_or a 0 ≡ a
or_zero k zero h = bit_or-bitwise 0 0
or_zero zero (suc a) h = absurd (omega arith)
or_zero (suc k) (suc a) h = omega (arith, or_halves (suc a) 0, or_zero k (suc a / 2) (omega arith))

pub bit_or-zero : (a : ℕ) → bit_or a 0 ≡ a
bit_or-zero a = or_zero a a (omega arith)

or_none : (a b : ℕ) → b ≡ 0 → bit_or a b ≡ a
or_none a b e = rw e (bit_or-zero a)

-- One more low one in the mask.
and_next : (n m p : ℕ) → bit_and (n / 2) m ≡ p → bit_and n (2 * m + 1) ≡ 2 * p + n % 2
and_next n m p h =
    let half : (2 * m + 1) / 2 ≡ m = omega arith in
    let low : min (n % 2) ((2 * m + 1) % 2) ≡ n % 2 = omega arith in
    and_halves n (2 * m + 1) ∙ rw (half, low, h) refl

and_one : (n : ℕ) → bit_and n 1 ≡ n % 2
and_one n = and_next n 0 0 (and_zero (n / 2) (n / 2) (omega arith)) ∙ omega arith

and_three : (n : ℕ) → bit_and n 3 ≡ n % 4
and_three n = and_next n 1 _ (and_one (n / 2)) ∙ omega arith

and_seven : (n : ℕ) → bit_and n 7 ≡ n % 8
and_seven n = and_next n 3 _ (and_three (n / 2)) ∙ omega arith

and_fifteen : (n : ℕ) → bit_and n 15 ≡ n % 16
and_fifteen n = and_next n 7 _ (and_seven (n / 2)) ∙ omega arith

and_thirty_one : (n : ℕ) → bit_and n 31 ≡ n % 32
and_thirty_one n = and_next n 15 _ (and_fifteen (n / 2)) ∙ omega arith

and_sixty_three : (n : ℕ) → bit_and n 63 ≡ n % 64
and_sixty_three n = and_next n 31 _ (and_thirty_one (n / 2)) ∙ omega arith

-- `n & 0x7f`
pub bit_and_seven_ones : (n : ℕ) → bit_and n 0x7f ≡ n % 128
bit_and_seven_ones n = and_next n 63 _ (and_sixty_three (n / 2)) ∙ omega arith

-- One more low zero on the left.
or_next : (a r : ℕ) → bit_or a (r / 2) ≡ a + r / 2 → bit_or (2 * a) r ≡ 2 * a + r
or_next a r h =
    let half : 2 * a / 2 ≡ a = omega arith in
    let low : max (2 * a % 2) (r % 2) ≡ r % 2 = omega arith in
    or_halves (2 * a) r ∙ rw (half, low, h) (omega arith)

-- `(n << 7) | r` for a group `r` of seven bits
pub bit_or_group : (n r : ℕ) → r < 128 → bit_or (n * 128) r ≡ n * 128 + r
bit_or_group n r h =
    let r1 : ℕ = r / 2 in
    let r2 : ℕ = r1 / 2 in
    let r3 : ℕ = r2 / 2 in
    let r4 : ℕ = r3 / 2 in
    let r5 : ℕ = r4 / 2 in
    let r6 : ℕ = r5 / 2 in
    let gone : r6 / 2 ≡ 0 = omega arith in
    let e0 : bit_or n (r6 / 2) ≡ n + r6 / 2 = or_none n (r6 / 2) gone ∙ omega arith in
    let shifted : n * 128 ≡ 2 * (2 * (2 * (2 * (2 * (2 * (2 * n)))))) = omega arith in
    rw shifted (
      or_next _ r (
        or_next _ r1 (or_next _ r2 (or_next _ r3 (or_next _ r4 (or_next _ r5 (or_next n r6 e0)))))))

-- Facts about one byte are tables, checked by evaluation.
table : (f g : ℕ → ℕ) → ℕ → Bool
table f g zero = true
table f g (suc n) = f n == g n && table f g n

table_sound : (f g : ℕ → ℕ) (n i : ℕ) → table f g n ≡ true → i < n → f i ≡ g i
unfolding table
table_sound f g zero i e h = absurd (omega arith)
table_sound f g (suc n) i e h = ground (arith, table_sound f g n i)

-- `g | 0x80` for a group of seven bits, and `b & 0x80` for a byte
pub bit_or_top : (g : ℕ) → g < 128 → bit_or g 0x80 ≡ g + 128
unfolding table
bit_or_top g = table_sound (λ x. bit_or x 0x80) (λ x. x + 128) 128 g refl

pub bit_and_top : (b : ℕ) → b < 256 → bit_and b 0x80 ≡ b / 128 * 128
unfolding table
bit_and_top b = table_sound (λ x. bit_and x 0x80) (λ x. x / 128 * 128) 256 b refl
