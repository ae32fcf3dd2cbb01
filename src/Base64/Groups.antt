-- ===== src/Base64/Groups.antt =====
-- Three, two and one bytes, from the digits that the writer makes of them.
use Prim.Native.Nat.{bit_and, bit_or}
use m2_server.Common.{
  ℕ, ◌+◌, ◌*◌, ◌/◌, ◌%◌, ◌^◌, ◌<◌, ◌≡◌, ap, arith, some, [], ◌∷◌, bit_and-mask, bit_or-shift, ne→==,
}
use m2_server.Base64.{pad, group_bytes}

-- What is put together by shifts is a sum.
pub join3 :
    (a b c : ℕ)
    → b < 256
    → c < 256
    → bit_or (bit_or (a * 2 ^ 16) (b * 2 ^ 8)) c ≡ a * 65536 + b * 256 + c
join3 a b c hb hc =
    let high : bit_or (a * 2 ^ 16) (b * 2 ^ 8) ≡ (a * 256 + b) * 2 ^ 8 =
      omega (arith, bit_or-shift 16 a (b * 2 ^ 8) (omega arith)) in
    omega (arith, ap (λ x. bit_or x c) high, bit_or-shift 8 (a * 256 + b) c hc)

join4 :
    (c0 c1 c2 c3 : ℕ)
    → c1 < 64
    → c2 < 64
    → c3 < 64
    → bit_or (bit_or (bit_or (c0 * 2 ^ 18) (c1 * 2 ^ 12)) (c2 * 2 ^ 6)) c3
      ≡ c0 * 262144 + c1 * 4096 + c2 * 64 + c3
join4 c0 c1 c2 c3 h1 h2 h3 =
    let first : bit_or (c0 * 2 ^ 18) (c1 * 2 ^ 12) ≡ (c0 * 64 + c1) * 2 ^ 12 =
      omega (arith, bit_or-shift 18 c0 (c1 * 2 ^ 12) (omega arith)) in
    let second : bit_or ((c0 * 64 + c1) * 2 ^ 12) (c2 * 2 ^ 6)
        ≡ (c0 * 4096 + c1 * 64 + c2) * 2 ^ 6 =
      omega (arith, bit_or-shift 12 (c0 * 64 + c1) (c2 * 2 ^ 6) (omega arith)) in
    omega (
      arith,
      ap (λ x. bit_or (bit_or x (c2 * 2 ^ 6)) c3) first,
      ap (λ x. bit_or x c3) second,
      bit_or-shift 6 (c0 * 4096 + c1 * 64 + c2) c3 h3,
    )

-- Four digits of three bytes.
pub three_bytes :
    (v : ℕ)
    → v < 2 ^ 24
    → group_bytes (v / 2 ^ 18) (v / 2 ^ 12 % 64) (v / 2 ^ 6 % 64) (v % 64)
      ≡ some (v / 65536 ∷ v / 256 % 256 ∷ v % 256 ∷ [])
unfolding group_bytes
three_bytes v h =
    let c0 = v / 2 ^ 18 in
    let c1 = v / 2 ^ 12 % 64 in
    let c2 = v / 2 ^ 6 % 64 in
    let c3 = v % 64 in
    let joined : bit_or (bit_or (bit_or (c0 * 2 ^ 18) (c1 * 2 ^ 12)) (c2 * 2 ^ 6)) c3 ≡ v =
      omega (arith, join4 c0 c1 c2 c3 (omega arith) (omega arith) (omega arith)) in
    rw (ne→== c0 pad (omega arith)) (
      rw (ne→== c1 pad (omega arith)) (
        rw (ne→== c2 pad (omega arith)) (
          rw (ne→== c3 pad (omega arith)) (
            rw joined (
              rw (bit_and-mask 8 (v / 2 ^ 8)) (
                rw (bit_and-mask 8 v)
                  (ap (λ x. some (x ∷ v / 256 % 256 ∷ v % 256 ∷ [])) (omega arith))))))))

-- Three digits of two bytes, and two digits of one.
pub two_bytes :
    (v : ℕ)
    → v < 2 ^ 16
    → group_bytes (v / 2 ^ 10) (v / 2 ^ 4 % 64) (v % 16 * 2 ^ 2) pad ≡ some (v / 256 ∷ v % 256 ∷ [])
unfolding group_bytes
two_bytes v h =
    let c0 = v / 2 ^ 10 in
    let c1 = v / 2 ^ 4 % 64 in
    let c2 = v % 16 * 2 ^ 2 in
    let high : bit_or (c0 * 2 ^ 10) (c1 * 2 ^ 4) ≡ (c0 * 64 + c1) * 2 ^ 4 =
      omega (arith, bit_or-shift 10 c0 (c1 * 2 ^ 4) (omega arith)) in
    let joined : bit_or (bit_or (c0 * 2 ^ 10) (c1 * 2 ^ 4)) (c2 / 2 ^ 2) ≡ v = omega (
      arith,
      ap (λ x. bit_or x (c2 / 2 ^ 2)) high,
      bit_or-shift 4 (c0 * 64 + c1) (c2 / 2 ^ 2) (omega arith),
    ) in
    let low_bits : bit_and c2 3 ≡ 0 = omega (arith, bit_and-mask 2 c2) in
    rw (ne→== c0 pad (omega arith)) (
      rw (ne→== c1 pad (omega arith)) (
        rw (ne→== c2 pad (omega arith)) (
          rw low_bits
            (rw joined (rw (bit_and-mask 8 v) (ap (λ x. some (x ∷ v % 256 ∷ [])) (omega arith)))))))

pub one_byte : (a : ℕ) → a < 256 → group_bytes (a / 2 ^ 2) (a % 4 * 2 ^ 4) pad pad ≡ some (a ∷ [])
unfolding group_bytes
one_byte a h =
    let c0 = a / 2 ^ 2 in
    let c1 = a % 4 * 2 ^ 4 in
    let joined : bit_or (c0 * 2 ^ 2) (c1 / 2 ^ 4) ≡ a =
      omega (arith, bit_or-shift 2 c0 (c1 / 2 ^ 4) (omega arith)) in
    let low_bits : bit_and c1 15 ≡ 0 = omega (arith, bit_and-mask 4 c1) in
    rw (ne→== c0 pad (omega arith)) (
      rw (ne→== c1 pad (omega arith))
        (rw low_bits (rw joined (ap (λ x. some (x ∷ [])) (omega arith)))))
