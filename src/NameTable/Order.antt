-- ===== src/NameTable/Order.antt =====
-- `strcmp` is a strict order.
use m2_server.Common.{
  ℕ, ◌≡◌, refl, ap₂, arith, List, [], ◌∷◌, ◌==◌, ltb, ◌⊎◌, inl, inr, ==_self, Bool-cases, eq_of_==,
  le→ltb,
}
use m2_server.NameTable.{Sign, below, same, above, strcmp}

pub Sign-cases : (c : Sign) → (c ≡ below) ⊎ ((c ≡ same) ⊎ (c ≡ above))
Sign-cases below = inl refl
Sign-cases same = inr (inl refl)
Sign-cases above = inr (inr refl)

pub strcmp_self : (m : List ℕ) → strcmp m m ≡ same
unfolding strcmp
strcmp_self [] = refl
strcmp_self (a ∷ m) = rw (le→ltb a a (omega arith)) (rw (==_self a) (strcmp_self m))

pub strcmp-same : (m n : List ℕ) → strcmp m n ≡ same → m ≡ n
unfolding strcmp
strcmp-same [] [] h = refl
strcmp-same [] (b ∷ n) h = absurd (cc h)
strcmp-same (a ∷ m) [] h = absurd (cc h)
strcmp-same (a ∷ m) (b ∷ n) h = elim (Bool-cases (ltb a b)) [
  | inl lt ↦ absurd (ground (arith, lt, h))
  | inr ge ↦ elim (Bool-cases (a == b)) [
    | inl e ↦ ap₂ (λ x xs. x ∷ xs) (eq_of_== a b e) (strcmp-same m n (ground (arith, ge, e, h)))
    | inr ne ↦ absurd (ground (arith, ge, ne, h))
  ]
]

pub strcmp_trans : (l m n : List ℕ) → strcmp l m ≡ below → strcmp m n ≡ below → strcmp l n ≡ below
unfolding strcmp
strcmp_trans l [] [] h k = absurd (cc k)
strcmp_trans [] [] (c ∷ n) h k = absurd (cc h)
strcmp_trans (a ∷ l) [] (c ∷ n) h k = absurd (cc h)
strcmp_trans l (b ∷ m) [] h k = absurd (cc k)
strcmp_trans [] (b ∷ m) (c ∷ n) h k = refl
strcmp_trans (a ∷ l) (b ∷ m) (c ∷ n) h k = ground (arith, h, k, strcmp_trans l m n)

pub above-below : (m n : List ℕ) → strcmp m n ≡ above → strcmp n m ≡ below
unfolding strcmp
above-below [] [] h = absurd (cc h)
above-below [] (b ∷ n) h = absurd (cc h)
above-below (a ∷ m) [] h = refl
above-below (a ∷ m) (b ∷ n) h = ground (arith, h, above-below m n)

pub below-above : (m n : List ℕ) → strcmp m n ≡ below → strcmp n m ≡ above
unfolding strcmp
below-above [] [] h = absurd (cc h)
below-above (a ∷ m) [] h = absurd (cc h)
below-above [] (b ∷ n) h = refl
below-above (a ∷ m) (b ∷ n) h = ground (arith, h, below-above m n)
