-- ===== src/Timer/Shifting.antt =====
-- One tick on: `timer_shift` moves the events of the block that begins, and every event stands in a
-- list that fits its tick at the new time.
use m2_server.Common.{
  ℕ, ◌+◌, ◌/◌, ◌%◌, ◌^◌, ◌<◌, ◌≡◌, ◌≢◌, ◌⊎◌, inl, inr, refl, arith, ◌==◌, Bool-cases, eq_of_==,
  ne_of_==,
}
use m2_server.Timer.Wheel.{FitsNear, FitsLevel}

-- The next tick.
abbrev pub next : ℕ → ℕ
next now = (now + 1) % 2 ^ 32

-- Which list a tick moves, if any.
pub data Moves (now : ℕ) : Type 0 where
  wrap : next now ≡ 0 → Moves now
  none_moves : next now % 2 ^ 8 ≢ 0 → Moves now
  level_0 : next now % 2 ^ 8 ≡ 0 → next now / 2 ^ 8 % 64 ≢ 0 → Moves now
  level_1 : next now % 2 ^ 14 ≡ 0 → next now / 2 ^ 14 % 64 ≢ 0 → Moves now
  level_2 : next now % 2 ^ 20 ≡ 0 → next now / 2 ^ 20 % 64 ≢ 0 → Moves now
  level_3 : next now % 2 ^ 26 ≡ 0 → next now / 2 ^ 26 % 64 ≢ 0 → Moves now

pub moves : (now : ℕ) → now < 2 ^ 32 → Moves now
moves now lt = elim (Bool-cases (next now == 0)) [
  | inl e ↦ wrap (eq_of_== (next now) 0 e)
  | inr n ↦
      let ne = ne_of_== (next now) 0 n in
      elim (Bool-cases (next now % 2 ^ 8 == 0)) [
        | inr a ↦ none_moves (ne_of_== (next now % 2 ^ 8) 0 a)
        | inl a ↦
            let a' = eq_of_== (next now % 2 ^ 8) 0 a in
            elim (Bool-cases (next now / 2 ^ 8 % 64 == 0)) [
              | inr b ↦ level_0 a' (ne_of_== (next now / 2 ^ 8 % 64) 0 b)
              | inl b ↦
                  let b' = eq_of_== (next now / 2 ^ 8 % 64) 0 b in
                  elim (Bool-cases (next now / 2 ^ 14 % 64 == 0)) [
                    | inr c ↦ level_1 (omega arith) (ne_of_== (next now / 2 ^ 14 % 64) 0 c)
                    | inl c ↦
                        let c' = eq_of_== (next now / 2 ^ 14 % 64) 0 c in
                        elim (Bool-cases (next now / 2 ^ 20 % 64 == 0)) [
                          | inr d ↦ level_2 (omega arith) (ne_of_== (next now / 2 ^ 20 % 64) 0 d)
                          | inl d ↦
                              let d' = eq_of_== (next now / 2 ^ 20 % 64) 0 d in
                              level_3 (omega arith) (omega arith)
                        ]
                  ]
            ]
      ]
]

-- The level and the list that are moved.
abbrev pub moved_level : {now : ℕ} → Moves now → ℕ
moved_level (wrap e) = 3
moved_level (none_moves a) = 4
moved_level (level_0 a b) = 0
moved_level (level_1 a b) = 1
moved_level (level_2 a b) = 2
moved_level (level_3 a b) = 3

abbrev pub moved_list : {now : ℕ} → Moves now → ℕ
moved_list (wrap e) = 0
moved_list (none_moves a) = 0
moved_list {now} (level_0 a b) = next now / 2 ^ 8 % 64
moved_list {now} (level_1 a b) = next now / 2 ^ 14 % 64
moved_list {now} (level_2 a b) = next now / 2 ^ 20 % 64
moved_list {now} (level_3 a b) = next now / 2 ^ 26 % 64

-- An event of a near list that is not due yet still fits.
pub near_stays :
    (now i e : ℕ) → now < 2 ^ 32 → e < 2 ^ 32 → e ≢ now → FitsNear now i e → FitsNear (next now) i e
near_stays now i e lt small ne (block, at, ahead) = (omega arith, at, omega arith)

-- An event of a level that is not in the list that is moved still fits.

pub level_first_stays :
    (now j e : ℕ) (m : Moves now)
    → now < 2 ^ 32
    → e < 2 ^ 32
    → FitsLevel now 0 j e
    → (0 ≢ moved_level m) ⊎ (j ≢ moved_list m)
    → FitsLevel (next now) 0 j e
level_first_stays now j e (wrap w) lt small (at, later, block) other =
    (at, omega arith, omega arith)
level_first_stays now j e (none_moves a) lt small (at, later, block) other =
    (at, omega arith, omega arith)
level_first_stays now j e (level_0 a b) lt small (at, later, block) (inl ne) = absurd (ne refl)
level_first_stays now j e (level_0 a b) lt small (at, later, block) (inr ne) =
    (at, omega (arith, ne), omega (arith, ne))
level_first_stays now j e (level_1 a b) lt small (at, later, block) other =
    (at, omega arith, omega arith)
level_first_stays now j e (level_2 a b) lt small (at, later, block) other =
    (at, omega arith, omega arith)
level_first_stays now j e (level_3 a b) lt small (at, later, block) other =
    (at, omega arith, omega arith)

pub level_second_stays :
    (now j e : ℕ) (m : Moves now)
    → now < 2 ^ 32
    → e < 2 ^ 32
    → FitsLevel now 1 j e
    → (1 ≢ moved_level m) ⊎ (j ≢ moved_list m)
    → FitsLevel (next now) 1 j e
level_second_stays now j e (wrap w) lt small (at, later, block) other =
    (at, omega arith, omega arith)
level_second_stays now j e (none_moves a) lt small (at, later, block) other =
    (at, omega arith, omega arith)
level_second_stays now j e (level_0 a b) lt small (at, later, block) other =
    (at, omega arith, omega arith)
level_second_stays now j e (level_1 a b) lt small (at, later, block) (inl ne) = absurd (ne refl)
level_second_stays now j e (level_1 a b) lt small (at, later, block) (inr ne) =
    (at, omega (arith, ne), omega (arith, ne))
level_second_stays now j e (level_2 a b) lt small (at, later, block) other =
    (at, omega arith, omega arith)
level_second_stays now j e (level_3 a b) lt small (at, later, block) other =
    (at, omega arith, omega arith)

pub level_third_stays :
    (now j e : ℕ) (m : Moves now)
    → now < 2 ^ 32
    → e < 2 ^ 32
    → FitsLevel now 2 j e
    → (2 ≢ moved_level m) ⊎ (j ≢ moved_list m)
    → FitsLevel (next now) 2 j e
level_third_stays now j e (wrap w) lt small (at, later, block) other =
    (at, omega arith, omega arith)
level_third_stays now j e (none_moves a) lt small (at, later, block) other =
    (at, omega arith, omega arith)
level_third_stays now j e (level_0 a b) lt small (at, later, block) other =
    (at, omega arith, omega arith)
level_third_stays now j e (level_1 a b) lt small (at, later, block) other =
    (at, omega arith, omega arith)
level_third_stays now j e (level_2 a b) lt small (at, later, block) (inl ne) = absurd (ne refl)
level_third_stays now j e (level_2 a b) lt small (at, later, block) (inr ne) =
    (at, omega (arith, ne), omega (arith, ne))
level_third_stays now j e (level_3 a b) lt small (at, later, block) other =
    (at, omega arith, omega arith)

pub level_last_stays :
    (now j e : ℕ) (m : Moves now)
    → now < 2 ^ 32
    → e < 2 ^ 32
    → FitsLevel now 3 j e
    → (3 ≢ moved_level m) ⊎ (j ≢ moved_list m)
    → FitsLevel (next now) 3 j e
level_last_stays now j e (wrap w) lt small (at, apart) (inl ne) = absurd (ne refl)
level_last_stays now j e (wrap w) lt small (at, apart) (inr ne) =
    (at, λ same. absurd (omega (arith, ne, apart, same)))
level_last_stays now j e (none_moves a) lt small (at, apart) other =
    (at, λ same. absurd (omega (arith, apart, same)))
level_last_stays now j e (level_0 a b) lt small (at, apart) other =
    (at, λ same. absurd (omega (arith, apart, same)))
level_last_stays now j e (level_1 a b) lt small (at, apart) other =
    (at, λ same. absurd (omega (arith, apart, same)))
level_last_stays now j e (level_2 a b) lt small (at, apart) other =
    (at, λ same. absurd (omega (arith, apart, same)))
level_last_stays now j e (level_3 a b) lt small (at, apart) (inl ne) = absurd (ne refl)
level_last_stays now j e (level_3 a b) lt small (at, apart) (inr ne) =
    (at, λ same. absurd (omega (arith, ne, apart, same)))
