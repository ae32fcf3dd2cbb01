-- ===== src/HashId/Chains.antt =====
-- Linked chains of nodes by index, and lists of different numbers.
use m2_server.Common.{
  ℕ, zero, suc, ◌≤◌, ◌<◌, ◌≡◌, refl, sym, ◌∙◌, arith, true, false, Option, none, some, List, [],
  ◌∷◌, ◌==◌, ◌&&◌, not, if◌then◌else◌, length, occurs, Distinct, Bool-cases, inl, inr, eq_of_==,
}

-- From `o` on, the links `next` lead through the nodes of the list and end.
abbrev pub Chain : (ℕ → Option ℕ) → Option ℕ → List ℕ → Type 0
Chain next o [] = o ≡ none
Chain next o (i ∷ xs) = (o ≡ some i) × Chain next (next i) xs

-- Only the links of the nodes in the chain matter.
pub Chain-ext :
    {next next' : ℕ → Option ℕ} (o : Option ℕ) (xs : List ℕ)
    → ((i : ℕ) → occurs i xs ≡ true → next' i ≡ next i)
    → Chain next o xs
    → Chain next' o xs
Chain-ext o [] same c = c
Chain-ext {next} {next'} o (i ∷ xs) same (e, c) = (
  e,
  rw (same i (ground arith))
      (Chain-ext {next = next} {next' = next'} (next i) xs (λ j h. same j (ground (arith, h))) c),
)

-- The list without its first entry `t`.
abbrev pub erase : ℕ → List ℕ → List ℕ
erase t [] = []
erase t (x ∷ xs) = if x == t then xs else x ∷ erase t xs

pub occurs-erase :
    (i t : ℕ) (xs : List ℕ) → Distinct xs → occurs i (erase t xs) ≡ (occurs i xs && not (i == t))
occurs-erase i t [] d = refl
occurs-erase i t (x ∷ xs) d = elim (Bool-cases (x == t)) [
  | inl here ↦ rw here (elim (Bool-cases (i == t)) [
    | inl same ↦
        let e : i ≡ x = omega (arith, eq_of_== i t same, eq_of_== x t here) in
        let gone : occurs i xs ≡ false = rw e d.0 in ground (arith, gone, same)
    | inr other ↦ ground (arith, other, here)
  ])
  | inr later ↦ rw later (ground (arith, occurs-erase i t xs d.1, later))
]

pub Distinct-erase : (t : ℕ) (xs : List ℕ) → Distinct xs → Distinct (erase t xs)
Distinct-erase t [] d = tt
Distinct-erase t (x ∷ xs) d = elim (Bool-cases (x == t)) [
  | inl here ↦ rw here d.1
  | inr later ↦ rw later (ground (arith, occurs-erase x t xs d.1, d.0), Distinct-erase t xs d.1)
]

length-erase : (t : ℕ) (xs : List ℕ) → length xs ≤ suc (length (erase t xs))
length-erase t [] = omega arith
length-erase t (x ∷ xs) = ground (arith, length-erase t xs)

-- There are at most `n` different numbers below `n`.
pub Distinct-length :
    (n : ℕ) (xs : List ℕ) → Distinct xs → ((i : ℕ) → occurs i xs ≡ true → i < n) → length xs ≤ n
Distinct-length zero [] d h = omega arith
Distinct-length zero (x ∷ xs) d h = absurd (omega (arith, h x (ground arith)))
Distinct-length (suc n) xs d h =
    let smaller = Distinct-length n (erase n xs) (Distinct-erase n xs d) (λ i o.
      let both : (occurs i xs && not (i == n)) ≡ true = sym (occurs-erase i n xs d) ∙ o in
      let i_lt : i < suc n = h i (ground (arith, both)) in ground (arith, both, i_lt)) in
    omega (arith, smaller, length-erase n xs)
