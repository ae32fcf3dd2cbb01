-- ===== src/Common/Maps.antt =====
-- Memory as a function from addresses, and membership in a list of addresses.
use Prim.Native.Nat.{ℕ}
use mathlib.Core.Path.{◌≡◌, refl, sym, ap, ◌∙◌, fun_ext}
use mathlib.Core.Logic.{◌≢◌, ◌⊎◌, inl, inr}
use mathlib.Core.Bool.{Bool, true, false, ◌||◌}
use mathlib.Core.List.{List, [], ◌∷◌, ◌++◌, head?}
use mathlib.Core.Option.{Option, none, some}
use native.Mathlib.Omega.{arith}
use m2_server.Common.Tests.{◌==◌, if◌then◌else◌, ==_self, ne→==, eq_of_==, ne_of_==, Bool-cases}

module _ {ℓ} {A : Type ℓ} where
  abbrev pub update : (ℕ → A) → ℕ → A → ℕ → A
  update f k v j = if j == k then v else f j

  pub update_self : (f : ℕ → A) (k : ℕ) (v : A) → update f k v k ≡ v
  update_self f k v = rw (==_self k)

  pub update_ne : (f : ℕ → A) (k j : ℕ) (v : A) → j ≢ k → update f k v j ≡ f j
  update_ne f k j v h = rw (ne→== j k h)

abbrev pub occurs : ℕ → List ℕ → Bool
occurs a [] = false
occurs a (x ∷ xs) = a == x || occurs a xs

abbrev pub Distinct : List ℕ → Type 0
Distinct [] = Unit
Distinct (x ∷ xs) = (occurs x xs ≡ false) × Distinct xs

pub occurs-append : (a : ℕ) (xs ys : List ℕ) → occurs a (xs ++ ys) ≡ (occurs a xs || occurs a ys)
occurs-append a [] ys = refl
occurs-append a (x ∷ xs) ys = ground (arith, occurs-append a xs ys)

pub Distinct-snoc :
    (xs : List ℕ) (a : ℕ) → occurs a xs ≡ false → Distinct xs → Distinct (xs ++ a ∷ [])
Distinct-snoc [] a h d = (refl, tt)
Distinct-snoc (x ∷ xs) a h d =
    (ground (arith, occurs-append x xs (a ∷ [])), Distinct-snoc xs a (ground arith) d.1)

-- The last entry.
abbrev pub last? : List ℕ → Option ℕ
last? [] = none
last? (x ∷ []) = some x
last? (x ∷ y ∷ ys) = last? (y ∷ ys)

pub last?-snoc : (xs : List ℕ) (a : ℕ) → last? (xs ++ a ∷ []) ≡ some a
last?-snoc [] a = refl
last?-snoc (x ∷ []) a = refl
last?-snoc (x ∷ y ∷ ys) a = last?-snoc (y ∷ ys) a

pub occurs-last : (x : ℕ) (xs : List ℕ) (t : ℕ) → last? (x ∷ xs) ≡ some t → occurs t (x ∷ xs) ≡ true
occurs-last x [] t e = ground arith
occurs-last x (y ∷ ys) t e = ground (arith, occurs-last y ys t)

pub last?-cons : (x : ℕ) (xs : List ℕ) → (t : ℕ) × (last? (x ∷ xs) ≡ some t)
last?-cons x [] = (x, refl)
last?-cons x (y ∷ ys) = last?-cons y ys

pub occurs-ne : (a b : ℕ) (xs : List ℕ) → occurs a xs ≡ false → occurs b xs ≡ true → a ≢ b
occurs-ne a b xs h k e = cc

pub occurs_of_append :
    (a : ℕ) (xs ys : List ℕ)
    → occurs a (xs ++ ys) ≡ false
    → (occurs a xs ≡ false) × (occurs a ys ≡ false)
occurs_of_append a [] ys h = (refl, h)
occurs_of_append a (x ∷ xs) ys h = ground (arith, occurs_of_append a xs ys)

-- What a write leaves to be read.
pub update-inv {ℓ} :
    {A : Type ℓ} (f : ℕ → Option A) (k : ℕ) (v : Option A) (j : ℕ) {r : A}
    → update f k v j ≡ some r
    → ((j ≡ k) × (v ≡ some r)) ⊎ ((j ≢ k) × (f j ≡ some r))
update-inv f k v j h = elim (Bool-cases (j == k)) [
  | inl same ↦ inl (eq_of_== j k same, rw (if_eq same) at h)
  | inr other ↦ inr (ne_of_== j k other, rw (if_ne other) at h)
]
  where
    if_eq : (j == k) ≡ true → update f k v j ≡ v
    if_eq e = rw e

    if_ne : (j == k) ≡ false → update f k v j ≡ f j
    if_ne e = rw e

pub update-some {ℓ} :
    {A : Type ℓ} (f : ℕ → Option A) (k : ℕ) (v : A) (j : ℕ) (r : A)
    → f j ≡ some r
    → (r' : A) × (update f k (some v) j ≡ some r')
update-some f k v j r h = elim (Bool-cases (j == k)) [
  | inl same ↦ (v, rw same)
  | inr other ↦ (r, rw other h)
]

pub occurs-cons_ne :
    (a x : ℕ) (xs : List ℕ) → a ≢ x → occurs a xs ≡ false → occurs a (x ∷ xs) ≡ false
occurs-cons_ne a x xs h k = rw (ne→== a x h) k

pub occurs-cons : (a x : ℕ) (xs : List ℕ) → a ≢ x → occurs a (x ∷ xs) ≡ occurs a xs
occurs-cons a x xs h = rw (ne→== a x h)

-- Writing what is there already.
pub update_same {ℓ} : {A : Type ℓ} (f : ℕ → A) (k : ℕ) (v : A) → f k ≡ v → update f k v ≡ f
update_same f k v h = fun_ext (λ j. at j)
  where
    at : (j : ℕ) → update f k v j ≡ f j
    at j = elim (Bool-cases (j == k)) [
      | inl same ↦ rw same (sym h ∙ ap f (sym (eq_of_== j k same)))
      | inr other ↦ rw other
    ]

pub list_cases {ℓ} :
    {A : Type ℓ} (xs : List A) → (xs ≡ []) ⊎ ((x : A) × (rest : List A) × (xs ≡ x ∷ rest))
list_cases [] = inl refl
list_cases (x ∷ xs) = inr (x, xs, refl)

pub occurs-one : (a x : ℕ) → occurs a (x ∷ []) ≡ true → a ≡ x
occurs-one a x h = ground arith

pub head-occurs : (a : ℕ) (xs : List ℕ) → head? xs ≡ some a → occurs a xs ≡ true
head-occurs a [] h = cc
head-occurs a (x ∷ xs) h = let e : x ≡ a = cc in rw e (rw (==_self a))

pub update-cases {ℓ} :
    {A : Type ℓ} (f : ℕ → A) (k j : ℕ) (v : A)
    → ((j ≡ k) × (update f k v j ≡ v)) ⊎ ((j ≢ k) × (update f k v j ≡ f j))
update-cases f k j v = elim (Bool-cases (j == k)) [
  | inl same ↦ inl (eq_of_== j k same, rw same refl)
  | inr other ↦ let ne = ne_of_== j k other in inr (ne, update_ne f k j v ne)
]
