-- ===== src/Common/Remainders.antt =====
-- Remainders by a power of two, and by a multiple of a number.
use Prim.Native.Nat.{ℕ, zero, suc, ◌+◌, ◌-◌, ◌*◌, ◌/◌, ◌%◌, ◌^◌, ◌≤◌, ◌<◌}
use mathlib.Core.Path.{◌≡◌, sym, ap, ◌∙◌}
use mathlib.Core.Logic.{inl, inr}
use native.Mathlib.Nat.{
  pow-suc, mul_comm, mul_assoc, div-add-mod', mul-add-mod_self_right, mod-eq_of_lt, mod-lt, mul-suc,
}
use native.Mathlib.Omega.{arith}
use m2_server.Common.Tests.{ltb, Bool-cases, ltb→lt, ltb→le}
use m2_server.Common.Bits.{pow_pos}

pub mod_multiple : (q p x : ℕ) → (q * p + x) % p ≡ x % p
mod_multiple q p x = mul-add-mod_self_right q p x

pub mod_mod : (x p q : ℕ) → x % (p * q) % p ≡ x % p
mod_mod x p q =
    let d = x / (p * q) in
    let e : d * (p * q) ≡ d * q * p = ap (λ t. d * t) (mul_comm p q) ∙ sym (mul_assoc d q p) in
    let split : d * q * p + x % (p * q) ≡ x = omega (arith, e, div-add-mod' x (p * q)) in
    sym (mod_multiple (d * q) p (x % (p * q))) ∙ ap (λ t. t % p) split

pub pow_split : (k j : ℕ) → 2 ^ (k + j) ≡ 2 ^ k * 2 ^ j
pow_split k zero = omega (arith, ap (λ x. 2 ^ x) (add_zero k))
  where
    add_zero : (k : ℕ) → k + 0 ≡ k
    add_zero k = omega arith
pow_split k (suc j) =
    let e : k + suc j ≡ suc (k + j) = omega arith in
    ap (λ x. 2 ^ x) e
    ∙ pow-suc 2 (k + j)
    ∙ ap (λ x. x * 2) (pow_split k j)
    ∙ mul_assoc (2 ^ k) (2 ^ j) 2
    ∙ ap (λ x. 2 ^ k * x) (sym (pow-suc 2 j))

pow_larger : (k n : ℕ) → k ≤ n → 2 ^ n ≡ 2 ^ k * 2 ^ (n - k)
pow_larger k n h = let e : n ≡ k + (n - k) = omega arith in ap (λ x. 2 ^ x) e ∙ pow_split k (n - k)

le-multiple : (a b : ℕ) → 0 < b → a ≤ a * b
le-multiple a zero h = absurd (omega arith)
le-multiple a (suc b) h = omega (arith, mul-suc a b)

pub pow-le : (k n : ℕ) → k ≤ n → 2 ^ k ≤ 2 ^ n
pow-le k n h = omega (arith, pow_larger k n h, le-multiple (2 ^ k) (2 ^ (n - k)) (pow_pos (n - k)))

pub mod-pow : (k n x : ℕ) → k ≤ n → x % 2 ^ n % 2 ^ k ≡ x % 2 ^ k
mod-pow k n x h = ap (λ m. x % m % 2 ^ k) (pow_larger k n h) ∙ mod_mod x (2 ^ k) (2 ^ (n - k))

-- A multiple of the larger power is one of the smaller.
pub mod_multiple_pow : (k n b x : ℕ) → k ≤ n → (b * 2 ^ n + x) % 2 ^ k ≡ x % 2 ^ k
mod_multiple_pow k n b x h =
    sym (mod-pow k n (b * 2 ^ n + x) h)
    ∙ ap (λ t. t % 2 ^ k) (mod_multiple b (2 ^ n) x)
    ∙ mod-pow k n x h

-- Counting on from any number, every remainder comes up within one round.
pub comes_up : (p start t : ℕ) → t < p → (j : ℕ) × (j < p) × ((j + start) % p ≡ t)
comes_up p start t h =
    let r = start % p in
    let r_lt : r < p = mod-lt start (omega arith) in
    let split : start / p * p + r ≡ start = div-add-mod' start p in
    elim (Bool-cases (ltb t r)) [
      | inr le ↦
          let j = t - r in
          let e : j + start ≡ start / p * p + t = omega (arith, split, ltb→le t r le) in
          (j, omega arith, ap (λ x. x % p) e ∙ mod_multiple (start / p) p t ∙ mod-eq_of_lt h)
      | inl lt ↦
          let j = t + p - r in
          let e : j + start ≡ (start / p + 1) * p + t = omega (arith, split, ltb→lt t r lt) in
          (
            j,
            omega (arith, ltb→lt t r lt),
            ap (λ x. x % p) e ∙ mod_multiple (start / p + 1) p t ∙ mod-eq_of_lt h,
          )
    ]
