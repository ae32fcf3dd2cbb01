-- ===== src/Common/Bits.antt =====
-- C's bit operations at a mask `2 ^ k - 1`, for every width: `x & mask` is a remainder and
-- `x | mask` is the last value of the block of `x`.
use Prim.Native.Nat.{
  ℕ, zero, suc, ◌+◌, ◌-◌, ◌*◌, ◌/◌, ◌%◌, ◌^◌, ◌≤◌, ◌<◌, min, max, bit_and, bit_or, digits,
  bit_and-bitwise, bit_or-bitwise,
}
use mathlib.Core.Path.{◌≡◌, refl, sym, ap, ◌∙◌}
use native.Mathlib.Nat.{pow-suc, mul_comm, div-div-eq-div-mul, div-add-mod'}
use native.Mathlib.Omega.{arith}

pub pow_pos : (k : ℕ) → 0 < 2 ^ k
pow_pos zero = omega arith
pow_pos (suc k) = omega (arith, pow-suc 2 k, pow_pos k)

-- An operation on binary digits: `left` is its value where the first number has no digits left, `one`
-- is what it does to two digits.
module _ (left : ℕ → ℕ) (one : ℕ → ℕ → ℕ) where
  one_more : (x n y : ℕ) → x ≤ n → digits left one (suc n) x y ≡ digits left one n x y
  one_more zero zero y h = refl
  one_more zero (suc n) y h = refl
  one_more (suc x) zero y h = absurd (omega arith)
  one_more (suc x) (suc n) y h =
      ap (λ r. r * 2 + one (suc x % 2) (y % 2)) (one_more (suc x / 2) n (y / 2) (omega arith))

  spare_fuel : (k x n y : ℕ) → x ≤ n → digits left one (n + k) x y ≡ digits left one n x y
  spare_fuel zero x n y h =
      let e : n + 0 ≡ n = omega arith in ap (λ fuel. digits left one fuel x y) e
  spare_fuel (suc k) x n y h =
      let e : n + suc k ≡ suc (n + k) = omega arith in
      ap (λ fuel. digits left one fuel x y) e
      ∙ one_more x (n + k) y (omega arith)
      ∙ spare_fuel k x n y h

  lowest_digit :
      (x y : ℕ)
      → digits left one (suc x) (suc x) y
        ≡ digits left one (suc x / 2) (suc x / 2) (y / 2) * 2 + one (suc x % 2) (y % 2)
  lowest_digit x y =
      let half = suc x / 2 in
      let split : x ≡ half + (x - half) = omega arith in
      ap (λ r. r * 2 + one (suc x % 2) (y % 2))
        (ap (λ n. digits left one n half (y / 2)) split
          ∙ spare_fuel (x - half) half half (y / 2) (omega arith))

bit_and_step : (a b : ℕ) → bit_and a b ≡ bit_and (a / 2) (b / 2) * 2 + min (a % 2) (b % 2)
bit_and_step zero b = omega (arith, bit_and-bitwise 0 b, bit_and-bitwise 0 (b / 2))
bit_and_step (suc a) b = omega (
  arith,
  lowest_digit (λ _. zero) min a b,
  bit_and-bitwise (suc a) b,
  bit_and-bitwise (suc a / 2) (b / 2),
)

bit_or_step : (a b : ℕ) → bit_or a b ≡ bit_or (a / 2) (b / 2) * 2 + max (a % 2) (b % 2)
bit_or_step zero b = omega (arith, bit_or-bitwise 0 b, bit_or-bitwise 0 (b / 2))
bit_or_step (suc a) b = omega (
  arith,
  lowest_digit (λ rest. rest) max a b,
  bit_or-bitwise (suc a) b,
  bit_or-bitwise (suc a / 2) (b / 2),
)

-- Both operations at 0, for all numbers below a bound.
at_zero : (bound a : ℕ) → a < bound → (bit_and a 0 ≡ 0) × (bit_or a 0 ≡ a)
at_zero zero a h = absurd (omega arith)
at_zero (suc bound) zero h = (refl, refl)
at_zero (suc bound) (suc a) h =
    let ih = at_zero bound (suc a / 2) (omega arith) in
    (omega (arith, bit_and_step (suc a) 0, ih.0), omega (arith, bit_or_step (suc a) 0, ih.1))

pub bit_and-zero : (a : ℕ) → bit_and a 0 ≡ 0
bit_and-zero a = (at_zero (suc a) a (omega arith)).0

pub bit_or-zero : (a : ℕ) → bit_or a 0 ≡ a
bit_or-zero a = (at_zero (suc a) a (omega arith)).1

div_step : (x p : ℕ) → x / (p * 2) ≡ x / 2 / p
div_step x p = ap (◌/◌ x) (mul_comm p 2) ∙ sym (div-div-eq-div-mul x 2 p)

-- One digit of a remainder.
mod_step : (x p : ℕ) → x % (p * 2) ≡ x / 2 % p * 2 + x % 2
mod_step x p = omega (
  arith,
  ap (λ (t : ℕ). t * (p * 2)) (div_step x p),
  div-add-mod' x (p * 2),
  div-add-mod' (x / 2) p,
)

bit_and-mask_step :
    (x p : ℕ) → 0 < p → bit_and (x / 2) (p - 1) ≡ x / 2 % p → bit_and x (p * 2 - 1) ≡ x % (p * 2)
bit_and-mask_step x p h ih =
    let e : (p * 2 - 1) / 2 ≡ p - 1 = omega arith in
    omega (arith, bit_and_step x (p * 2 - 1), ap (bit_and (x / 2)) e, mod_step x p)

pub bit_and-mask : (k x : ℕ) → bit_and x (2 ^ k - 1) ≡ x % 2 ^ k
bit_and-mask zero x = omega (arith, bit_and-zero x)
bit_and-mask (suc k) x =
    rw (pow-suc 2 k) (bit_and-mask_step x (2 ^ k) (pow_pos k) (bit_and-mask k (x / 2)))

bit_or-mask_step :
    (x p : ℕ)
    → 0 < p
    → bit_or (x / 2) (p - 1) ≡ x / 2 / p * p + (p - 1)
    → bit_or x (p * 2 - 1) ≡ x / (p * 2) * (p * 2) + (p * 2 - 1)
bit_or-mask_step x p h ih =
    let e : (p * 2 - 1) / 2 ≡ p - 1 = omega arith in
    omega (
      arith,
      bit_or_step x (p * 2 - 1),
      ap (bit_or (x / 2)) e,
      ap (λ (t : ℕ). t * (p * 2)) (div_step x p),
    )

pub bit_or-mask : (k x : ℕ) → bit_or x (2 ^ k - 1) ≡ x / 2 ^ k * 2 ^ k + (2 ^ k - 1)
bit_or-mask zero x = omega (arith, bit_or-zero x)
bit_or-mask (suc k) x =
    rw (pow-suc 2 k) (bit_or-mask_step x (2 ^ k) (pow_pos k) (bit_or-mask k (x / 2)))

-- `a << k | b` for a `b` of `k` bits.
bit_or-shift_step :
    (a b p : ℕ) → bit_or (a * p) (b / 2) ≡ a * p + b / 2 → bit_or (a * (p * 2)) b ≡ a * (p * 2) + b
bit_or-shift_step a b p ih =
    let e : a * (p * 2) / 2 ≡ a * p = omega arith in
    omega (arith, bit_or_step (a * (p * 2)) b, ap (λ x. bit_or x (b / 2)) e)

pub bit_or-shift : (k a b : ℕ) → b < 2 ^ k → bit_or (a * 2 ^ k) b ≡ a * 2 ^ k + b
bit_or-shift zero a b h =
    let e : b ≡ 0 = omega arith in rw e (omega (arith, bit_or-zero (a * 2 ^ 0)))
bit_or-shift (suc k) a b h =
    rw (pow-suc 2 k)
      (bit_or-shift_step a b (2 ^ k) (bit_or-shift k a (b / 2) (omega (arith, pow-suc 2 k))))

bit_or_comm_below : (bound a b : ℕ) → a + b < bound → bit_or a b ≡ bit_or b a
bit_or_comm_below zero a b h = absurd (omega arith)
bit_or_comm_below (suc bound) zero zero h = refl
bit_or_comm_below (suc bound) zero (suc b) h = omega (
  arith,
  bit_or_step 0 (suc b),
  bit_or_step (suc b) 0,
  bit_or_comm_below bound (0 / 2) (suc b / 2) (omega arith),
)
bit_or_comm_below (suc bound) (suc a) b h = omega (
  arith,
  bit_or_step (suc a) b,
  bit_or_step b (suc a),
  bit_or_comm_below bound (suc a / 2) (b / 2) (omega arith),
)

pub bit_or_comm : (a b : ℕ) → bit_or a b ≡ bit_or b a
bit_or_comm a b = bit_or_comm_below (suc (a + b)) a b (omega arith)
