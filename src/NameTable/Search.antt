-- ===== src/NameTable/Search.antt =====
-- The binary search ends, and finds the entry with the name or the place where it belongs.
use m2_server.Common.{
  ℕ, zero, suc, ◌+◌, ◌-◌, ◌/◌, ◌<◌, ◌≤◌, ◌≡◌, refl, sym, subst, ◌∙◌, arith, some, List, length,
  get_elem?, get_elem?-lt, take, drop, drop_all, inl, inr, Bool-cases, true, ◌>>=◌, ltb, ltb→lt,
  ltb→le, le→ltb,
}
use m2_server.NameTable.{
  HandleName, NameTable, Place, found, missing, below, same, above, strcmp, search,
}
use m2_server.NameTable.Order.{Sign-cases, strcmp-same, above-below}
use m2_server.NameTable.Sorted.{AllBelow, AllAbove, IsSorted, Belongs, AllBelow-take, AllAbove-drop}

-- The first `count` cells hold the entries `es`.
pub record Holds (t : NameTable) (es : List HandleName) : Type 0 where
  pub counted : t.count ≡ length es
  pub cells : (i : ℕ) → i < length es → t.cell i ≡ get_elem? es i

-- What the search promises of the place that it returns.
abbrev pub IsPlace : List ℕ → List HandleName → Place → Type 0
IsPlace m es (found i n) = (get_elem? es i ≡ some n) × (n.name ≡ m)
IsPlace m es (missing i) = (i ≤ length es) × Belongs m i es

-- One round of the loop, by the comparison with the entry in the middle.
module _ (fuel begin past : ℕ) (m : List ℕ) (t : NameTable) (n : HandleName)
    (more : ltb begin past ≡ true) (cell : t.cell ((begin + past - 1) / 2) ≡ some n) where
  goes_right :
      strcmp n.name m ≡ below
      → search (suc fuel) m begin past t ≡ search fuel m ((begin + past - 1) / 2 + 1) past t
  unfolding search
  goes_right lower = rw more (rw cell (rw (lower, ◌>>=◌) refl))

  stops :
      strcmp n.name m ≡ same
      → search (suc fuel) m begin past t ≡ some (found ((begin + past - 1) / 2) n)
  unfolding search
  stops equal = rw more (rw cell (rw (equal, ◌>>=◌) refl))

  goes_left :
      strcmp n.name m ≡ above
      → search (suc fuel) m begin past t ≡ search fuel m begin ((begin + past - 1) / 2) t
  unfolding search
  goes_left higher = rw more (rw cell (rw (higher, ◌>>=◌) refl))

module _ {t : NameTable} {es : List HandleName} (h : Holds t es) (s : IsSorted es)
    (m : List ℕ) where
  search_loop :
      (fuel begin past : ℕ)
      → past ≤ begin + fuel
      → begin ≤ past
      → past ≤ length es
      → AllBelow m (take begin es)
      → AllAbove m (drop past es)
      → (p : Place) × (search (suc fuel) m begin past t ≡ some p) × IsPlace m es p
  unfolding search
  search_loop zero begin past f le past_in lo hi =
      let e : past ≡ begin = omega arith in
      (
        missing begin,
        rw (le→ltb begin past (omega arith)) refl,
        (omega arith, (lo, subst (λ x. AllAbove m (drop x es)) e hi)),
      )
  search_loop (suc fuel) begin past f le past_in lo hi = elim (Bool-cases (ltb begin past)) [
    | inr done ↦
        let e : past ≡ begin = omega (arith, ltb→le begin past done) in
        (missing begin, rw done refl, (omega arith, (lo, subst (λ x. AllAbove m (drop x es)) e hi)))
    | inl more ↦
        let lt = ltb→lt begin past more in
        let mid = (begin + past - 1) / 2 in
        let (n, at_mid) = get_elem?-lt es mid (omega arith) in
        let next : suc mid ≡ mid + 1 = omega arith in
        let cell = h.cells mid (omega arith) ∙ at_mid in
        elim (Sign-cases (strcmp n.name m)) [
          | inl lower ↦
              let (p, e, ok) =
                search_loop fuel (mid + 1) past (omega arith) (omega arith) past_in
                  (subst (λ x. AllBelow m (take x es)) next
                    (AllBelow-take m mid n es s at_mid lower))
                  hi in
              (p, goes_right (suc fuel) begin past m t n more cell lower ∙ e, ok)
          | inr (inl eq) ↦ (
            found mid n,
            stops (suc fuel) begin past m t n more cell eq,
            (at_mid, strcmp-same n.name m eq),
          )
          | inr (inr gt) ↦
              let (p, e, ok) =
                search_loop fuel begin mid (omega arith) (omega arith) (omega arith) lo
                  (AllAbove-drop m mid n es s at_mid (above-below n.name m gt)) in
              (p, goes_left (suc fuel) begin past m t n more cell gt ∙ e, ok)
        ]
  ]

  pub search_lem : (p : Place) × (search (suc t.count) m 0 t.count t ≡ some p) × IsPlace m es p
  search_lem =
      search_loop t.count 0 t.count (omega arith) (omega arith) (omega (arith, h.counted)) tt
        (subst (AllAbove m) (sym (drop_all t.count es (omega (arith, h.counted)))) tt)
