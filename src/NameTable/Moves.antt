-- ===== src/NameTable/Moves.antt =====
-- The loops that move cells: what each leaves in every cell.
use m2_server.Common.{
  ℕ, zero, suc, ◌+◌, ◌-◌, ◌*◌, ◌/◌, ◌<◌, ◌≤◌, ◌≡◌, refl, sym, ap, ◌∙◌, arith, none, some, update,
  update_self, update_ne, lt→ltb, le→leb, inl, inr, Bool-cases, leb, leb→le, ◌==◌, eq_of_==,
  ne_of_==,
}
use m2_server.NameTable.{
  NameTable, write_cell, move_up, copy_cells, max_slot_size, enlarge, open_gap,
}

-- Two tables of the same size.
pub record SameSize (t t' : NameTable) : Type 0 where
  pub cap : t'.cap ≡ t.cap
  pub count : t'.count ≡ t.count

-- The cells from `before` on are one further up.
pub record MovedUp (n before : ℕ) (t t' : NameTable) : Type 0 where
  pub size : SameSize t t'
  pub low : (k : ℕ) → k < before → t'.cell k ≡ t.cell k
  pub up : (k : ℕ) → before ≤ k → k < before + n → t'.cell (k + 1) ≡ t.cell k
  pub high : (k : ℕ) → before + n < k → t'.cell k ≡ t.cell k

move_up_lem :
    (n before : ℕ) (t : NameTable)
    → before + n < t.cap
    → (t' : NameTable) × (move_up n before t ≡ some t') × MovedUp n before t t'
unfolding move_up write_cell
move_up_lem zero before t h = (
  t,
  refl,
  record {
    size = record { cap = refl; count = refl };
    low = λ k lt. refl;
    up = λ k le lt. absurd (omega arith);
    high = λ k lt. refl;
  },
)
move_up_lem (suc n) before t h =
    let t1 = record t { cell = update t.cell (before + n + 1) (t.cell (before + n)) } in
    let (t', e, m) = move_up_lem n before t1 (omega arith) in
    let fits = lt→ltb (before + n + 1) t.cap (omega arith) in
    (
      t',
      rw fits e,
      record {
        size = record { cap = m.size.cap; count = m.size.count };
        low = λ k lt. m.low k lt ∙ update_ne t.cell (before + n + 1) k _ (omega arith);
        up = λ k le lt. elim (Bool-cases (k == before + n)) [
          | inl top ↦
              let e : k ≡ before + n = eq_of_== k (before + n) top in
              m.high (k + 1) (omega arith)
              ∙ ap (update t.cell (before + n + 1) (t.cell (before + n))) (ap (λ x. x + 1) e)
              ∙ update_self t.cell (before + n + 1) _
              ∙ ap t.cell (sym e)
          | inr below ↦
              let ne = ne_of_== k (before + n) below in
              m.up k le (omega (arith, ne)) ∙ update_ne t.cell (before + n + 1) k _ (omega arith)
        ];
        high = λ k lt. m.high k (omega arith) ∙ update_ne t.cell (before + n + 1) k _ (omega arith);
      },
    )

-- The cells of `s` from `i` on, `shift` further up, and the cells of `t` before them.
record Copied (n i shift : ℕ) (s t t' : NameTable) : Type 0 where
  size : SameSize t t'
  low : (k : ℕ) → k < i + shift → t'.cell k ≡ t.cell k
  copy : (k : ℕ) → i ≤ k → k < i + n → t'.cell (k + shift) ≡ s.cell k

copy_cells_lem :
    (n i shift : ℕ) (s t : NameTable)
    → i + n + shift ≤ t.cap
    → (t' : NameTable) × (copy_cells n i shift s t ≡ some t') × Copied n i shift s t t'
unfolding copy_cells write_cell
copy_cells_lem zero i shift s t h = (
  t,
  refl,
  record {
    size = record { cap = refl; count = refl };
    low = λ k lt. refl;
    copy = λ k le lt. absurd (omega arith);
  },
)
copy_cells_lem (suc n) i shift s t h =
    let t1 = record t { cell = update t.cell (i + shift) (s.cell i) } in
    let (t', e, m) = copy_cells_lem n (i + 1) shift s t1 (omega arith) in
    let fits = lt→ltb (i + shift) t.cap (omega arith) in
    (
      t',
      rw fits e,
      record {
        size = record { cap = m.size.cap; count = m.size.count };
        low = λ k lt. m.low k (omega arith) ∙ update_ne t.cell (i + shift) k _ (omega arith);
        copy = λ k le lt. elim (Bool-cases (k == i)) [
          | inl first ↦
              let e : k ≡ i = eq_of_== k i first in
              m.low (k + shift) (omega arith)
              ∙ ap (λ x. update t.cell (i + shift) (s.cell i) (x + shift)) e
              ∙ update_self t.cell (i + shift) _
              ∙ ap s.cell (sym e)
          | inr later ↦ let ne = ne_of_== k i later in m.copy k (omega (arith, ne)) (omega arith)
        ];
      },
    )

-- A gap at `before`, and room for one more entry.
pub record Gap (before : ℕ) (t t' : NameTable) : Type 0 where
  pub count : t'.count ≡ t.count
  pub room : t.count < t'.cap
  pub small : t'.cap ≤ max_slot_size
  pub low : (k : ℕ) → k < before → t'.cell k ≡ t.cell k
  pub up : (k : ℕ) → before ≤ k → k < t.count → t'.cell (k + 1) ≡ t.cell k

enlarge_lem :
    (before : ℕ) (t : NameTable)
    → before ≤ t.count
    → 0 < t.cap
    → t.count ≤ t.cap
    → t.cap * 2 ≤ max_slot_size
    → (t' : NameTable) × (enlarge before t ≡ some t') × Gap before t t'
unfolding enlarge
enlarge_lem before t b p c small =
    let fresh = record t { cap = t.cap * 2; cell = λ i. none } in
    let (t1, e1, m1) = copy_cells_lem before 0 0 t fresh (omega arith) in
    let (t2, e2, m2) =
      copy_cells_lem (t.count - before) before 1 t t1 (omega (arith, m1.size.cap)) in
    (
      t2,
      rw (le→leb (t.cap * 2) max_slot_size small) (rw e1 e2),
      record {
        count = m2.size.count ∙ m1.size.count;
        room = omega (arith, m2.size.cap, m1.size.cap);
        small = omega (arith, m2.size.cap, m1.size.cap);
        low = λ k lt.
            m2.low k (omega arith)
            ∙ ap t1.cell (omega arith)
            ∙ m1.copy k (omega arith) (omega arith);
        up = λ k le lt. m2.copy k le (omega arith);
      },
    )

pub open_gap_lem :
    (before : ℕ) (t : NameTable)
    → before ≤ t.count
    → 0 < t.cap
    → t.count ≤ t.cap
    → t.cap ≤ max_slot_size
    → t.count < max_slot_size / 2
    → (t' : NameTable) × (open_gap before t ≡ some t') × Gap before t t'
unfolding open_gap
open_gap_lem before t b p c small few = elim (Bool-cases (leb t.cap t.count)) [
  | inl full ↦
      let (t', e, g) = enlarge_lem before t b p c (omega (arith, leb→le t.cap t.count full)) in
      (t', rw full e, g)
  | inr room ↦
      let lt : t.count < t.cap = ground (arith, room) in
      let (t', e, m) = move_up_lem (t.count - before) before t (omega arith) in
      (
        t',
        rw room e,
        record {
          count = m.size.count;
          room = omega (arith, m.size.cap);
          small = omega (arith, m.size.cap);
          low = m.low;
          up = λ k le lt. m.up k le (omega arith);
        },
      )
]
