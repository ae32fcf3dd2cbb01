-- ===== src/Timer/Wheel.antt =====
-- Which list of the wheel an event may stand in, at a given tick.
use m2_server.Common.{
  ℕ, zero, suc, ◌/◌, ◌%◌, ◌^◌, ◌<◌, ◌≤◌, ◌≡◌, ◌≢◌, ◌⊎◌, inl, inr, refl, List, [], ◌∷◌, ◌++◌,
}
use m2_server.Timer.{TimerNode, Timer}

-- The event stands in the list.
abbrev pub In : TimerNode → List TimerNode → Type 0
In n [] = ⊥
In n (x ∷ xs) = (n ≡ x) ⊎ In n xs

pub In-snoc : (n x : TimerNode) (xs : List TimerNode) → In n (xs ++ x ∷ []) → In n xs ⊎ (n ≡ x)
In-snoc n x [] (inl e) = inr e
In-snoc n x [] (inr h) = elim h [ ]
In-snoc n x (y ∷ xs) (inl e) = inl (inl e)
In-snoc n x (y ∷ xs) (inr h) = elim (In-snoc n x xs h) [ inl h' ↦ inl (inr h') | inr e ↦ inr e ]

pub In-left : (n : TimerNode) (xs ys : List TimerNode) → In n xs → In n (xs ++ ys)
In-left n [] ys h = elim h [ ]
In-left n (x ∷ xs) ys (inl e) = inl e
In-left n (x ∷ xs) ys (inr h) = inr (In-left n xs ys h)

pub In-last : (n : TimerNode) (xs : List TimerNode) → In n (xs ++ n ∷ [])
In-last n [] = inl refl
In-last n (x ∷ xs) = inr (In-last n xs)

-- At the tick `now`, an event for the tick `e` may stand in a near list, or in a list of a level.
abbrev pub FitsNear : ℕ → ℕ → ℕ → Type 0
FitsNear now i e = (e / 2 ^ 8 ≡ now / 2 ^ 8) × (e % 2 ^ 8 ≡ i) × (now ≤ e)

abbrev pub FitsLevel : ℕ → ℕ → ℕ → ℕ → Type 0
FitsLevel now zero j e =
    (e / 2 ^ 8 % 64 ≡ j) × (now / 2 ^ 8 < e / 2 ^ 8) × (e / 2 ^ 14 ≡ now / 2 ^ 14)
FitsLevel now (suc zero) j e =
    (e / 2 ^ 14 % 64 ≡ j) × (now / 2 ^ 14 < e / 2 ^ 14) × (e / 2 ^ 20 ≡ now / 2 ^ 20)
FitsLevel now (suc (suc zero)) j e =
    (e / 2 ^ 20 % 64 ≡ j) × (now / 2 ^ 20 < e / 2 ^ 20) × (e / 2 ^ 26 ≡ now / 2 ^ 26)
FitsLevel now (suc (suc (suc zero))) j e = (e / 2 ^ 26 % 64 ≡ j) × (e / 2 ^ 26 ≢ now / 2 ^ 26)
FitsLevel now (suc (suc (suc (suc l)))) j e = ⊥

-- Every event stands in a list that fits its tick, which is a number of 32 bits.
pub record IsPlaced (T : Timer) : Type 0 where
  pub near :
      (i : ℕ) (n : TimerNode) → In n (T.near i) → FitsNear T.time i n.expire × (n.expire < 2 ^ 32)
  pub level :
      (l j : ℕ) (n : TimerNode)
      → In n (T.t l j)
      → FitsLevel T.time l j n.expire × (n.expire < 2 ^ 32)
  pub now : T.time < 2 ^ 32

-- The event stands somewhere.
pub data Waits (n : TimerNode) (T : Timer) : Type 0 where
  in_near : (i : ℕ) → In n (T.near i) → Waits n T
  in_level : (l j : ℕ) → In n (T.t l j) → Waits n T
