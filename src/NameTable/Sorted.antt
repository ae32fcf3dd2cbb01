-- ===== src/NameTable/Sorted.antt =====
-- What the name table stands for: a list of entries in ascending order of their names, with look-up,
-- insertion and removal defined on the list.
use m2_server.Common.{
  ℕ, zero, suc, ◌≡◌, ◌≢◌, refl, sym, ap, ◌∙◌, Option, none, some, List, [], ◌∷◌, ◌++◌, ◌==◌,
  if◌then◌else◌, get_elem?, take, drop, some_inj, inl, inr, Bool-cases,
}
use m2_server.NameTable.{HandleName, below, same, above, strcmp}
use m2_server.NameTable.Order.{Sign-cases, strcmp_self, strcmp_trans, above-below, below-above}

-- Every entry of the list has a name above `m`; every entry has one below.
abbrev pub AllAbove : List ℕ → List HandleName → Type 0
AllAbove m [] = Unit
AllAbove m (e ∷ es) = (strcmp m e.name ≡ below) × AllAbove m es

abbrev pub AllBelow : List ℕ → List HandleName → Type 0
AllBelow m [] = Unit
AllBelow m (e ∷ es) = (strcmp e.name m ≡ below) × AllBelow m es

abbrev pub IsSorted : List HandleName → Type 0
IsSorted [] = Unit
IsSorted (e ∷ es) = AllAbove e.name es × IsSorted es

-- The handle of the first entry with the name.
abbrev pub lookup : List ℕ → List HandleName → Option ℕ
lookup m [] = none
lookup m (e ∷ es) =
    let rest = lookup m es in
    elim (strcmp e.name m) [ same ↦ some e.handle | below ↦ rest | above ↦ rest ]

-- Before the first entry whose name is above the new one.
abbrev pub insert : HandleName → List HandleName → List HandleName
insert n [] = n ∷ []
insert n (e ∷ es) =
    let rest = insert n es in
    elim (strcmp e.name n.name) [ below ↦ e ∷ rest | same ↦ e ∷ es | above ↦ n ∷ e ∷ es ]

abbrev pub without : ℕ → List HandleName → List HandleName
without h [] = []
without h (e ∷ es) = let rest = without h es in if e.handle == h then rest else e ∷ rest

AllAbove-trans :
    (m n : List ℕ) (es : List HandleName) → strcmp m n ≡ below → AllAbove n es → AllAbove m es
AllAbove-trans m n [] h a = tt
AllAbove-trans m n (e ∷ es) h a = (strcmp_trans m n e.name h a.0, AllAbove-trans m n es h a.1)

lookup-AllAbove : (m : List ℕ) (es : List HandleName) → AllAbove m es → lookup m es ≡ none
lookup-AllAbove m [] a = refl
lookup-AllAbove m (e ∷ es) a = rw (below-above m e.name a.0, lookup) (lookup-AllAbove m es a.1)

AllAbove-without :
    (m : List ℕ) (h : ℕ) (es : List HandleName) → AllAbove m es → AllAbove m (without h es)
AllAbove-without m h [] a = tt
AllAbove-without m h (e ∷ es) a = elim (Bool-cases (e.handle == h)) [
  | inl gone ↦ rw gone (AllAbove-without m h es a.1)
  | inr stays ↦ rw stays (a.0, AllAbove-without m h es a.1)
]

pub without-IsSorted : (h : ℕ) (es : List HandleName) → IsSorted es → IsSorted (without h es)
without-IsSorted h [] s = tt
without-IsSorted h (e ∷ es) s = elim (Bool-cases (e.handle == h)) [
  | inl gone ↦ rw gone (without-IsSorted h es s.1)
  | inr stays ↦ rw stays (AllAbove-without e.name h es s.0, without-IsSorted h es s.1)
]

AllAbove-insert :
    (m : List ℕ) (n : HandleName) (es : List HandleName)
    → strcmp m n.name ≡ below
    → AllAbove m es
    → AllAbove m (insert n es)
AllAbove-insert m n [] h a = (h, tt)
AllAbove-insert m n (e ∷ es) h a = elim (Sign-cases (strcmp e.name n.name)) [
  | inl lt ↦ rw (lt, insert) (a.0, AllAbove-insert m n es h a.1)
  | inr (inl eq) ↦ rw (eq, insert) a
  | inr (inr gt) ↦ rw (gt, insert) (h, a)
]

pub insert-IsSorted : (n : HandleName) (es : List HandleName) → IsSorted es → IsSorted (insert n es)
insert-IsSorted n [] s = (tt, tt)
insert-IsSorted n (e ∷ es) s = elim (Sign-cases (strcmp e.name n.name)) [
  | inl lt ↦ rw (lt, insert) (AllAbove-insert e.name n es lt s.0, insert-IsSorted n es s.1)
  | inr (inl eq) ↦ rw (eq, insert) s
  | inr (inr gt) ↦
      let h = above-below e.name n.name gt in
      rw (gt, insert) ((h, AllAbove-trans n.name e.name es h s.0), s)
]

AllAbove-at :
    (m : List ℕ) (i : ℕ) (n : HandleName) (es : List HandleName)
    → AllAbove m es
    → get_elem? es i ≡ some n
    → strcmp m n.name ≡ below
AllAbove-at m i n [] a h = absurd (cc h)
AllAbove-at m zero n (e ∷ es) a h =
    sym (ap (λ (x : HandleName). strcmp m x.name) (some_inj h)) ∙ a.0
AllAbove-at m (suc i) n (e ∷ es) a h = AllAbove-at m i n es a.1 h

-- An entry of a sorted list is the one that a look-up finds.
pub lookup_at :
    (i : ℕ) (n : HandleName) (es : List HandleName)
    → IsSorted es
    → get_elem? es i ≡ some n
    → lookup n.name es ≡ some n.handle
lookup_at i n [] s h = absurd (cc h)
lookup_at zero n (e ∷ es) s h =
    let eq : e ≡ n = some_inj h in
    rw (ap (λ (x : HandleName). strcmp x.name n.name) eq ∙ strcmp_self n.name, lookup)
      (ap (λ (x : HandleName). some x.handle) eq)
lookup_at (suc i) n (e ∷ es) s h =
    let lt = AllAbove-at e.name i n es s.0 h in rw (lt, lookup) (lookup_at i n es s.1 h)

-- The place that a search looks for: all entries before it are below, and all others above.
abbrev pub Belongs : List ℕ → ℕ → List HandleName → Type 0
Belongs m i es = AllBelow m (take i es) × AllAbove m (drop i es)

pub lookup-Belongs :
    (m : List ℕ) (i : ℕ) (es : List HandleName) → Belongs m i es → lookup m es ≡ none
lookup-Belongs m zero es b = lookup-AllAbove m es b.1
lookup-Belongs m (suc i) [] b = refl
lookup-Belongs m (suc i) (e ∷ es) b = rw (b.0.0, lookup) (lookup-Belongs m i es (b.0.1, b.1))

insert_first : (n : HandleName) (es : List HandleName) → AllAbove n.name es → insert n es ≡ n ∷ es
insert_first n [] a = refl
insert_first n (e ∷ es) a = rw (below-above n.name e.name a.0, insert) refl

pub insert-Belongs :
    (n : HandleName) (i : ℕ) (es : List HandleName)
    → Belongs n.name i es
    → insert n es ≡ take i es ++ n ∷ drop i es
insert-Belongs n zero es b = insert_first n es b.1
insert-Belongs n (suc i) [] b = refl
insert-Belongs n (suc i) (e ∷ es) b =
    rw (b.0.0, insert) (ap (λ xs. e ∷ xs) (insert-Belongs n i es (b.0.1, b.1)))

pub AllBelow-take :
    (m : List ℕ) (i : ℕ) (n : HandleName) (es : List HandleName)
    → IsSorted es
    → get_elem? es i ≡ some n
    → strcmp n.name m ≡ below
    → AllBelow m (take (suc i) es)
AllBelow-take m i n [] s h lt = absurd (cc h)
AllBelow-take m zero n (e ∷ es) s h lt =
    (ap (λ (x : HandleName). strcmp x.name m) (some_inj h) ∙ lt, tt)
AllBelow-take m (suc i) n (e ∷ es) s h lt = (
  strcmp_trans e.name n.name m (AllAbove-at e.name i n es s.0 h) lt,
  AllBelow-take m i n es s.1 h lt,
)

pub AllAbove-drop :
    (m : List ℕ) (i : ℕ) (n : HandleName) (es : List HandleName)
    → IsSorted es
    → get_elem? es i ≡ some n
    → strcmp m n.name ≡ below
    → AllAbove m (drop i es)
AllAbove-drop m i n [] s h lt = absurd (cc h)
AllAbove-drop m zero n (e ∷ es) s h lt =
    let lt' = ap (λ (x : HandleName). strcmp m x.name) (some_inj h) ∙ lt in
    (lt', AllAbove-trans m e.name es lt' s.0)
AllAbove-drop m (suc i) n (e ∷ es) s h lt = AllAbove-drop m i n es s.1 h lt

skip :
    (n : HandleName) (m : List ℕ) (es : List HandleName)
    → strcmp n.name m ≢ same
    → lookup m (n ∷ es) ≡ lookup m es
skip n m es h = elim (Sign-cases (strcmp n.name m)) [
  | inl lt ↦ rw (lt, lookup) refl
  | inr (inl eq) ↦ absurd (h eq)
  | inr (inr gt) ↦ rw (gt, lookup) refl
]

lookup_tail :
    (m : List ℕ) (e : HandleName) (xs ys : List HandleName)
    → lookup m xs ≡ lookup m ys
    → lookup m (e ∷ xs) ≡ lookup m (e ∷ ys)
lookup_tail m e xs ys h = elim (Sign-cases (strcmp e.name m)) [
  | inl lt ↦ rw (lt, lookup) h
  | inr (inl eq) ↦ rw (eq, lookup) refl
  | inr (inr gt) ↦ rw (gt, lookup) h
]

-- The new entry is found, and the look-up of every other name is as before.
pub lookup-insert_self :
    (n : HandleName) (es : List HandleName)
    → lookup n.name es ≡ none
    → lookup n.name (insert n es) ≡ some n.handle
lookup-insert_self n [] h = rw (strcmp_self n.name, lookup) refl
lookup-insert_self n (e ∷ es) h = elim (Sign-cases (strcmp e.name n.name)) [
  | inl lt ↦ rw (lt, insert) (rw (lt, lookup) (lookup-insert_self n es (rw (lt, lookup) at h)))
  | inr (inl eq) ↦ absurd (cc (rw (eq, lookup) at h))
  | inr (inr gt) ↦ rw (gt, insert) (rw (strcmp_self n.name, lookup) refl)
]

pub lookup-insert_ne :
    (n : HandleName) (m : List ℕ) (es : List HandleName)
    → strcmp n.name m ≢ same
    → lookup m (insert n es) ≡ lookup m es
lookup-insert_ne n m [] h = skip n m [] h
lookup-insert_ne n m (e ∷ es) h = elim (Sign-cases (strcmp e.name n.name)) [
  | inl lt ↦ rw (lt, insert) (lookup_tail m e (insert n es) es (lookup-insert_ne n m es h))
  | inr (inl eq) ↦ rw (eq, insert) refl
  | inr (inr gt) ↦ rw (gt, insert) (skip n m (e ∷ es) h)
]
