-- ===== src/Timer/Placing.antt =====
-- `add_node` chooses a list that fits the tick of the event.
use Prim.Native.Nat.{bit_and, bit_or}
use native.Mathlib.Nat.{eq_of_mul-eq-mul_right}
use m2_server.Common.{
  pow_pos, ℕ, ◌+◌, ◌-◌, ◌*◌, ◌/◌, ◌^◌, ◌<◌, ◌≤◌, ◌≡◌, ◌≢◌, ◌⊎◌, inl, inr, refl, sym, ap, subst, ◌∙◌,
  arith, List, [], ◌∷◌, ◌==◌, Bool-cases, eq_of_==, ne_of_==, bit_or-mask, bit_and-mask, true,
  false,
}
use m2_server.Timer.{TimerNode, Timer, link_near, link_level, find_level, add_node, add_all}
use m2_server.Timer.Wheel.{In, FitsLevel, IsPlaced, Waits}
use m2_server.Timer.Adding.{Adds, link_near_lem, link_level_lem}

-- An event that can be added at a tick: where it is in the same block of 2^26 ticks, it is not over.
pub record CanAdd (now e : ℕ) : Type 0 where
  pub small : e < 2 ^ 32
  pub ahead : e / 2 ^ 26 ≡ now / 2 ^ 26 → now ≤ e

-- The level, by the blocks that two ticks share.
module _ (e now : ℕ) where
  abbrev level : ℕ
  level = find_level 3 0 (2 ^ 8 * 2 ^ 6) e now

  level_zero : (bit_or e 16383 == bit_or now 16383) ≡ true → level ≡ 0
  unfolding find_level
  level_zero h = rw h refl

  level_one :
      (bit_or e 16383 == bit_or now 16383) ≡ false
      → (bit_or e 1048575 == bit_or now 1048575) ≡ true
      → level ≡ 1
  unfolding find_level
  level_one h k = rw h (rw k refl)

  level_two :
      (bit_or e 16383 == bit_or now 16383) ≡ false
      → (bit_or e 1048575 == bit_or now 1048575) ≡ false
      → (bit_or e 67108863 == bit_or now 67108863) ≡ true
      → level ≡ 2
  unfolding find_level
  level_two h k l = rw h (rw k (rw l refl))

  level_three :
      (bit_or e 16383 == bit_or now 16383) ≡ false
      → (bit_or e 1048575 == bit_or now 1048575) ≡ false
      → (bit_or e 67108863 == bit_or now 67108863) ≡ false
      → level ≡ 3
  unfolding find_level
  level_three h k l = rw h (rw k (rw l refl))

  same_block :
      (k : ℕ) → (bit_or e (2 ^ k - 1) == bit_or now (2 ^ k - 1)) ≡ true → e / 2 ^ k ≡ now / 2 ^ k
  same_block k h =
      let q = eq_of_== (bit_or e (2 ^ k - 1)) (bit_or now (2 ^ k - 1)) h in
      eq_of_mul-eq-mul_right (2 ^ k) (pow_pos k) (e / 2 ^ k) (now / 2 ^ k)
        (omega (arith, bit_or-mask k e, q, bit_or-mask k now))

  other_block :
      (k : ℕ) → (bit_or e (2 ^ k - 1) == bit_or now (2 ^ k - 1)) ≡ false → e / 2 ^ k ≢ now / 2 ^ k
  other_block k h same =
      ne_of_== (bit_or e (2 ^ k - 1)) (bit_or now (2 ^ k - 1)) h
        (bit_or-mask k e ∙ ap (λ x. x * 2 ^ k + (2 ^ k - 1)) same ∙ sym (bit_or-mask k now))

  fits_level :
      CanAdd now e
      → e / 2 ^ 8 ≢ now / 2 ^ 8
      → FitsLevel now level (bit_and (e / 2 ^ (8 + level * 6)) 63) e
  fits_level c ne =
      let fits : (l : ℕ)
          → level ≡ l
          → FitsLevel now l (bit_and (e / 2 ^ (8 + l * 6)) 63) e
          → FitsLevel now level (bit_and (e / 2 ^ (8 + level * 6)) 63) e =
        λ l eq f. subst (λ i. FitsLevel now i (bit_and (e / 2 ^ (8 + i * 6)) 63) e) (sym eq) f in
      elim (Bool-cases (bit_or e 16383 == bit_or now 16383)) [
        | inl h14 ↦
            let s = same_block 14 h14 in
            fits 0 (level_zero h14)
              (sym (bit_and-mask 6 (e / 2 ^ 8)), omega (arith, c.ahead (omega (arith, s))), s)
        | inr h14 ↦ elim (Bool-cases (bit_or e 1048575 == bit_or now 1048575)) [
          | inl h20 ↦
              let s = same_block 20 h20 in
              let apart = other_block 14 h14 in
              fits 1 (level_one h14 h20) (
                sym (bit_and-mask 6 (e / 2 ^ 14)),
                omega (arith, c.ahead (omega (arith, s)), apart),
                s,
              )
          | inr h20 ↦ elim (Bool-cases (bit_or e 67108863 == bit_or now 67108863)) [
            | inl h26 ↦
                let s = same_block 26 h26 in
                let apart = other_block 20 h20 in
                fits 2 (level_two h14 h20 h26)
                  (sym (bit_and-mask 6 (e / 2 ^ 20)), omega (arith, c.ahead s, apart), s)
            | inr h26 ↦
                fits 3 (level_three h14 h20 h26)
                  (sym (bit_and-mask 6 (e / 2 ^ 26)), other_block 26 h26)
          ]
        ]
      ]

pub add_near :
    (T : Timer) (node : TimerNode)
    → (bit_or node.expire 255 == bit_or T.time 255) ≡ true
    → add_node node T ≡ link_near (bit_and node.expire 255) node T
unfolding add_node
add_near T node h = rw h refl

pub add_level :
    (T : Timer) (node : TimerNode)
    → (bit_or node.expire 255 == bit_or T.time 255) ≡ false
    → add_node node T ≡ (
        let i = find_level 3 0 (2 ^ 8 * 2 ^ 6) node.expire T.time in
        link_level i (bit_and (node.expire / 2 ^ (8 + i * 6)) 63) node T)
unfolding add_node
add_level T node h = rw h refl

-- An event that can be added stands in the wheel after `add_node`, and so do all others.
pub add_node_lem :
    {T : Timer} (node : TimerNode)
    → IsPlaced T
    → CanAdd T.time node.expire
    → Adds node T (add_node node T)
add_node_lem {T} node p c =
    let e = node.expire in
    elim (Bool-cases (bit_or e 255 == bit_or T.time 255)) [
      | inl h8 ↦
          let s = same_block e T.time 8 h8 in
          subst (Adds node T) (sym (add_near T node h8)) (
            link_near_lem p node c.small (bit_and e 255)
              (s, sym (bit_and-mask 8 e), c.ahead (omega (arith, s))))
      | inr h8 ↦
          subst (Adds node T) (sym (add_level T node h8))
            (link_level_lem p node c.small _ _ (fits_level e T.time c (other_block e T.time 8 h8)))
    ]

-- What a change of the wheel by several events does.
pub record AddsAll (nodes : List TimerNode) (T T' : Timer) : Type 0 where
  pub placed : IsPlaced T'
  pub same_time : T'.time ≡ T.time
  pub new : (n : TimerNode) → In n nodes → Waits n T'
  pub old : (n : TimerNode) → Waits n T → Waits n T'
  pub only : (n : TimerNode) → Waits n T' → Waits n T ⊎ In n nodes

pub add_all_lem :
    {T : Timer} (nodes : List TimerNode)
    → IsPlaced T
    → ((n : TimerNode) → In n nodes → CanAdd T.time n.expire)
    → AddsAll nodes T (add_all nodes T)
add_all_lem {T} [] p c = record {
  placed = p;
  same_time = refl;
  new = λ n h. absurd h;
  old = λ n w. w;
  only = λ n w. inl w;
}
add_all_lem {T} (node ∷ nodes) p c =
    let a = add_node_lem node p (c node (inl refl)) in
    let r =
      add_all_lem {T = add_node node T} nodes a.placed
        (λ n h. subst (λ now. CanAdd now n.expire) (sym a.same_time) (c n (inr h))) in
    record {
      placed = r.placed;
      same_time = r.same_time ∙ a.same_time;
      new = λ n h. elim h [
        | inl e ↦ subst (λ x. Waits x (add_all nodes (add_node node T))) (sym e) (r.old node a.new)
        | inr h' ↦ r.new n h'
      ];
      old = λ n w. r.old n (a.old n w);
      only = λ n w. elim (r.only n w) [
        | inr h ↦ inr (inr h)
        | inl w' ↦ elim (a.only n w') [ inl w'' ↦ inl w'' | inr e ↦ inr (inl e) ]
      ];
    }
