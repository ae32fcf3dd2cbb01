-- ===== src/NameTable/Removal.antt =====
-- The names of a handle that is retired go, and the others close up.
use m2_server.Common.{
  ℕ, suc, ◌+◌, ◌<◌, ◌≤◌, ◌≡◌, refl, sym, ap, subst, ◌∙◌, arith, Option, some, List, [], ◌∷◌, ◌++◌,
  ◌==◌, length, length-append, get_elem?, get_elem?-append_lt, get_elem?-append_length,
  append_assoc, append-nil, update, update_self, update_ne, lt→ltb, inl, inr, Bool-cases, true,
  false, ◌>>=◌, eq_of_==, ne_of_==, ltb, ltb→lt, ltb→le,
}
use m2_server.NameTable.{HandleName, NameTable, write_cell, close_gaps, forget_names}
use m2_server.NameTable.Sorted.{without, without-IsSorted}
use m2_server.NameTable.Refine.{Represents}

-- The cells from `i` on hold `es`.
abbrev HoldsFrom : ℕ → NameTable → List HandleName → Type 0
HoldsFrom i t [] = Unit
HoldsFrom i t (e ∷ es) = (t.cell i ≡ some e) × HoldsFrom (i + 1) t es

HoldsFrom-update :
    (i j : ℕ) (t : NameTable) (e : HandleName) (es : List HandleName)
    → j < i
    → HoldsFrom i t es
    → HoldsFrom i (record t { cell = update t.cell j (some e) }) es
HoldsFrom-update i j t e [] lt h = tt
HoldsFrom-update i j t e (x ∷ es) lt h = (
  update_ne t.cell j i (some e) (omega arith) ∙ h.0,
  HoldsFrom-update (i + 1) j t e es (omega arith) h.1,
)

HoldsFrom-cells :
    (t : NameTable) (i : ℕ) (es : List HandleName)
    → ((k : ℕ) → k < length es → t.cell (i + k) ≡ get_elem? es k)
    → HoldsFrom i t es
HoldsFrom-cells t i [] h = tt
HoldsFrom-cells t i (e ∷ es) h = (
  ap t.cell (omega arith) ∙ h 0 (omega arith),
  HoldsFrom-cells t (i + 1) es (λ k lt. ap t.cell (omega arith) ∙ h (suc k) (omega arith)),
)

-- The first cells hold `kept`.
abbrev HoldsFirst : NameTable → List HandleName → Type 0
HoldsFirst t kept = (k : ℕ) → k < length kept → t.cell k ≡ get_elem? kept k

HoldsFirst-snoc :
    (t : NameTable) (kept : List HandleName) (e : HandleName)
    → HoldsFirst t kept
    → t.cell (length kept) ≡ some e
    → HoldsFirst t (kept ++ e ∷ [])
HoldsFirst-snoc t kept e h c k lt = elim (Bool-cases (ltb k (length kept))) [
  | inl inside ↦
      let lt' = ltb→lt k (length kept) inside in
      h k lt' ∙ sym (get_elem?-append_lt kept (e ∷ []) k lt')
  | inr last ↦
      let eq : k ≡ length kept =
        omega (arith, ltb→le k (length kept) last, length-append kept (e ∷ [])) in
      ap t.cell eq
      ∙ c
      ∙ sym (get_elem?-append_length kept e [])
      ∙ ap (get_elem? (kept ++ e ∷ [])) (sym eq)
]

-- What the loop leaves, where it has kept `kept` and has `rest` to go.
record Closed (kept rest : List HandleName) (handle cap : ℕ) (r : ℕ × NameTable) : Type 0 where
  same_cap : r.1.cap ≡ cap
  last : r.0 ≡ length (kept ++ without handle rest)
  first : HoldsFirst r.1 (kept ++ without handle rest)

length-without : (handle : ℕ) (es : List HandleName) → length (without handle es) ≤ length es
length-without handle [] = omega arith
length-without handle (e ∷ es) = ground (arith, length-without handle es)

keep_one :
    (kept rest : List HandleName) (e : HandleName) → (kept ++ e ∷ []) ++ rest ≡ kept ++ e ∷ rest
keep_one kept rest e = append_assoc kept (e ∷ []) rest

-- One round of the loop.
module _ (n handle i j : ℕ) (t : NameTable) (e : HandleName) (cell : t.cell i ≡ some e) where
  drops :
      (e.handle == handle) ≡ true
      → close_gaps (suc n) handle i j t ≡ close_gaps n handle (i + 1) j t
  unfolding close_gaps
  drops gone = rw cell (rw (gone, ◌>>=◌) refl)

  keeps :
      (e.handle == handle) ≡ false
      → (i == j) ≡ true
      → close_gaps (suc n) handle i j t ≡ close_gaps n handle (i + 1) (j + 1) t
  unfolding close_gaps
  keeps stays here = rw cell (rw (stays, ◌>>=◌) (rw here refl))

  moves_down :
      (e.handle == handle) ≡ false
      → (i == j) ≡ false
      → j < t.cap
      → close_gaps (suc n) handle i j t
        ≡ close_gaps n handle (i + 1) (j + 1) (record t { cell = update t.cell j (some e) })
  unfolding close_gaps write_cell
  moves_down stays moves fits =
      rw cell (rw (stays, ◌>>=◌) (rw moves (rw (lt→ltb j t.cap fits, ◌>>=◌) refl)))

close_gaps_lem :
    (rest kept : List HandleName) (handle i : ℕ) (t : NameTable)
    → length kept ≤ i
    → i + length rest ≤ t.cap
    → HoldsFirst t kept
    → HoldsFrom i t rest
    → (r : ℕ × NameTable) × (close_gaps (length rest) handle i (length kept) t ≡ some r)
      × Closed kept rest handle t.cap r
unfolding close_gaps write_cell
close_gaps_lem [] kept handle i t le room first from =
    let e = append-nil kept in
    (
      (length kept, t),
      refl,
      record {
        same_cap = refl;
        last = ap length (sym e);
        first = subst (HoldsFirst t) (sym e) first;
      },
    )
close_gaps_lem (e ∷ rest) kept handle i t le room first from =
    elim (Bool-cases (e.handle == handle)) [
      | inl gone ↦
          let (r, eq, c) =
            close_gaps_lem rest kept handle (i + 1) t (omega arith) (omega arith) first from.1 in
          (
            r,
            drops (length rest) handle i (length kept) t e from.0 gone ∙ eq,
            record {
              same_cap = c.same_cap;
              last = rw (gone, without) c.last;
              first = rw (gone, without) c.first;
            },
          )
      | inr stays ↦ elim (Bool-cases (i == length kept)) [
        | inl here ↦
            let at : i ≡ length kept = eq_of_== i (length kept) here in
            let first' = HoldsFirst-snoc t kept e first (ap t.cell (sym at) ∙ from.0) in
            let l : length (kept ++ e ∷ []) ≡ length kept + 1 = length-append kept (e ∷ []) in
            let (r, eq, c) =
              close_gaps_lem rest (kept ++ e ∷ []) handle (i + 1) t (omega (arith, l)) (omega arith)
                first' from.1 in
            (
              r,
              keeps (length rest) handle i (length kept) t e from.0 stays here
                  ∙ ap (λ j. close_gaps (length rest) handle (i + 1) j t) (sym l)
                  ∙ eq,
              kept_Closed r c stays,
            )
        | inr moves ↦
            let ne = ne_of_== i (length kept) moves in
            let t' = record t { cell = update t.cell (length kept) (some e) } in
            let l : length (kept ++ e ∷ []) ≡ length kept + 1 = length-append kept (e ∷ []) in
            let before : HoldsFirst t' kept =
              λ k lt. update_ne t.cell (length kept) k _ (omega arith) ∙ first k lt in
            let (r, eq, c) =
              close_gaps_lem rest (kept ++ e ∷ []) handle (i + 1) t' (omega (arith, l, ne))
                (omega arith)
                (HoldsFirst-snoc t' kept e before (update_self t.cell (length kept) (some e)))
                (HoldsFrom-update (i + 1) (length kept) t e rest (omega arith) from.1) in
            (
              r,
              moves_down (length rest) handle i (length kept) t e from.0 stays moves (omega arith)
                  ∙ ap (λ j. close_gaps (length rest) handle (i + 1) j t') (sym l)
                  ∙ eq,
              kept_Closed r c stays,
            )
      ]
    ]
  where
    kept_Closed :
        (r : ℕ × NameTable)
        → Closed (kept ++ e ∷ []) rest handle t.cap r
        → (e.handle == handle) ≡ false
        → Closed kept (e ∷ rest) handle t.cap r
    kept_Closed r c stays =
        let eq = keep_one kept (without handle rest) e in
        record {
          same_cap = c.same_cap;
          last = rw (stays, without) (c.last ∙ ap length eq);
          first = rw (stays, without) (subst (HoldsFirst r.1) eq c.first);
        }

-- On a table that represents a sorted list, the loop of `skynet_handle_retire` removes the names of the
-- handle from the list, and nothing else.
pub forget_names_refines :
    {t : NameTable} {es : List HandleName} (handle : ℕ)
    → Represents t es
    → (t' : NameTable) × (forget_names handle t ≡ some t') × Represents t' (without handle es)
unfolding forget_names
forget_names_refines {t} {es} handle r =
    let back : ℕ × NameTable → Option NameTable = λ r. some (record r.1 { count = r.0 }) in
    let ((j, t'), e, c) =
      close_gaps_lem es [] handle 0 t (omega arith) (omega (arith, r.fits))
        (λ k lt. absurd (omega arith))
        (HoldsFrom-cells t 0 es (λ k lt. ap t.cell (omega arith) ∙ r.holds.cells k lt)) in
    (
      record t' { count = j },
      ap (λ n. close_gaps n handle 0 0 t >>= back) r.holds.counted ∙ ap (λ o. o >>= back) e,
      record {
        holds = record { counted = c.last; cells = c.first };
        sorted = without-IsSorted handle es r.sorted;
        some_room = omega (arith, c.same_cap, r.some_room);
        fits = omega (arith, c.same_cap, r.fits, length-without handle es);
        small = omega (arith, c.same_cap, r.small);
      },
    )
