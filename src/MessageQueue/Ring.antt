-- ===== src/MessageQueue/Ring.antt =====
-- Index arithmetic of a ring, and what its array holds. lualib-src/lua-netpack.c has such a ring too.
use native.Mathlib.Nat.{mod-eq_of_lt, mod-eq-sub-mod}
use native.Mathlib.Decide.{dec_lt}
use m2_server.Common.{
  ℕ, zero, suc, ◌+◌, ◌-◌, ◌%◌, ◌≤◌, ◌<◌, ◌≡◌, ◌≢◌, refl, arith, ◌⊎◌, inl, inr, Option, some, List,
  [], ◌∷◌, ◌++◌, length, get_elem?, drop, drop_all, set, map, ◌∙◌, ap, sym, get_elem?-set_self,
  get_elem?-set_ne, get_elem?-append_lt, get_elem?-append_length, length-append, drop-eq-cons,
}
use m2_server.MessageQueue.{gather}

-- `(head + i) % cap`, without the division, for indices at most one round ahead.
pub index_cases :
    (cap head i : ℕ)
    → head < cap
    → i ≤ cap
    → ((head + i < cap) × ((head + i) % cap ≡ head + i))
      ⊎ ((cap ≤ head + i) × ((head + i) % cap ≡ head + i - cap))
index_cases cap head i h k = elim (dec_lt (head + i) cap) [
  | yes p ↦ inl (p, mod-eq_of_lt p)
  | no p ↦ inr (
    omega arith,
    mod-eq-sub-mod {n = head + i} {m = cap} (omega arith)
        ∙ mod-eq_of_lt {n = head + i - cap} {m = cap} (omega arith),
  )
]

-- Fewer than `cap` steps round the ring do not come back.
index-ne : (cap head i n : ℕ) → head < cap → i < n → n < cap → (head + i) % cap ≢ (head + n) % cap
index-ne cap head i n h k l =
    omega (arith, index_cases cap head i h (omega arith), index_cases cap head n h (omega arith))

index-lt : (cap head i : ℕ) → head < cap → i ≤ cap → (head + i) % cap < cap
index-lt cap head i h k = omega (arith, index_cases cap head i h k)

-- One step on, then `i` more.
pub index-suc :
    (cap head head' i : ℕ)
    → head < cap
    → head' < cap
    → head' ≡ (head + 1) % cap
    → i < cap
    → (head' + i) % cap ≡ (head + suc i) % cap
index-suc cap head head' i hh hh' e h = omega (
  arith,
  index_cases cap head 1 hh (omega arith),
  index_cases cap head' i hh' (omega arith),
  index_cases cap head (suc i) hh (omega arith),
)

module _ {ℓ} {A : Type ℓ} where
  -- The cells from `head` on, round the ring, hold the messages `ms` in order.
  abbrev pub Holds : List (Option A) → ℕ → ℕ → List A → Type ℓ
  Holds queue cap head ms =
      (i : ℕ) → i < length ms → get_elem? queue ((head + i) % cap) ≡ some (get_elem? ms i)

  -- A write just past the messages extends them.
  pub Holds-set :
      (queue : List (Option A)) (cap head : ℕ) (ms : List A) (m : A)
      → length queue ≡ cap
      → head < cap
      → length ms < cap
      → Holds queue cap head ms
      → Holds (set queue ((head + length ms) % cap) (some m)) cap head (ms ++ m ∷ [])
  Holds-set queue cap head ms m len hh room holds i lt = elim (dec_lt i (length ms)) [
    | yes p ↦
        get_elem?-set_ne queue ((head + length ms) % cap) ((head + i) % cap) (some m)
          (λ e. index-ne cap head i (length ms) hh p room (sym e))
        ∙ holds i p
        ∙ ap some (sym (get_elem?-append_lt ms (m ∷ []) i p))
    | no p ↦
        let e : i ≡ length ms = omega (arith, length-append ms (m ∷ [])) in
        rw e (
          get_elem?-set_self queue ((head + length ms) % cap) (some m)
            (omega (arith, index-lt cap head (length ms) hh (omega arith)))
          ∙ ap some (sym (get_elem?-append_length ms m [])))
  ]

  -- Once the first message is read, the rest stands from the next index on.
  pub Holds-tail :
      (queue : List (Option A)) (cap head head' : ℕ) (m : A) (ms : List A)
      → head < cap
      → head' < cap
      → head' ≡ (head + 1) % cap
      → length ms < cap
      → Holds queue cap head (m ∷ ms)
      → Holds queue cap head' ms
  Holds-tail queue cap head head' m ms hh hh' e room holds i lt =
      rw (index-suc cap head head' i hh hh' e (omega arith)) (holds (suc i) (omega arith))

  -- The copy of `expand_queue` reads the messages in order, and no cell that was never written.
  pub gather_lem :
      (queue : List (Option A)) (cap head : ℕ) (ms : List A)
      → Holds queue cap head ms
      → (n i : ℕ) → i + n ≡ length ms
      → gather queue cap head n i ≡ some (map some (drop i ms))
  unfolding gather
  gather_lem queue cap head ms holds zero i e = rw (drop_all i ms (omega arith))
  gather_lem queue cap head ms holds (suc n) i e =
      let (a, get, rest) = drop-eq-cons ms i (omega arith) in
      rw (
        holds i (omega arith),
        gather_lem queue cap head ms holds n (i + 1) (omega arith),
        get,
        rest,
      )

  pub get_elem?-cells :
      (ms : List A) (fill : List (Option A)) (i : ℕ)
      → i < length ms
      → get_elem? (map some ms ++ fill) i ≡ some (get_elem? ms i)
  get_elem?-cells [] fill i h = absurd (omega arith)
  get_elem?-cells (m ∷ ms) fill zero h = refl
  get_elem?-cells (m ∷ ms) fill (suc i) h = get_elem?-cells ms fill i (omega arith)

  -- The copied messages stand at the front of the array of twice the size.
  pub Holds-cells :
      (ms : List A) (fill : List (Option A)) (cap : ℕ)
      → length ms < cap
      → Holds (map some ms ++ fill) cap 0 ms
  Holds-cells ms fill cap h i lt =
      let e : (0 + i) % cap ≡ i = omega (arith, index_cases cap 0 i (omega arith) (omega arith)) in
      rw e (get_elem?-cells ms fill i lt)
