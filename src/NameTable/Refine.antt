-- ===== src/NameTable/Refine.antt =====
-- The name table implements look-up, insertion and removal on a sorted list of entries.
use m2_server.Common.{
  ℕ, zero, suc, ◌+◌, ◌/◌, ◌<◌, ◌≤◌, ◌≡◌, ◌≢◌, refl, sym, ap, subst, ◌∙◌, arith, Option, none, some,
  List, [], ◌∷◌, ◌++◌, length, get_elem?, take, drop, update, update_self, update_ne, lt→ltb, inl,
  inr, Bool-cases, ◌==◌, eq_of_==, ne_of_==, ◌>>=◌, ltb, ltb→lt, ltb→le,
}
use m2_server.NameTable.{
  HandleName, NameTable, Place, found, missing, write_cell, findname, insert_name_before,
  insert_name, max_slot_size, no_names,
}
use m2_server.NameTable.Sorted.{
  IsSorted, lookup, lookup-insert_self, lookup-insert_ne, insert, lookup_at, lookup-Belongs,
  insert-Belongs, insert-IsSorted, Belongs,
}
use m2_server.NameTable.Order.{strcmp-same}
use m2_server.NameTable.Search.{Holds, IsPlace, search_lem}
use m2_server.NameTable.Moves.{Gap, open_gap_lem}

-- The table holds the sorted entries `es` in an array with room for them.
pub record Represents (t : NameTable) (es : List HandleName) : Type 0 where
  pub holds : Holds t es
  pub sorted : IsSorted es
  pub some_room : 0 < t.cap
  pub fits : length es ≤ t.cap
  pub small : t.cap ≤ max_slot_size

-- 0 is the answer for an unknown name.
abbrev pub or_zero : Option ℕ → ℕ
or_zero none = 0
or_zero (some h) = h

-- On a table that represents a sorted list, `skynet_handle_findname` returns the handle of the entry with
-- the name, and 0 if there is none.
pub findname_refines :
    {t : NameTable} {es : List HandleName} (m : List ℕ)
    → Represents t es
    → findname m t ≡ some (or_zero (lookup m es))
unfolding findname
findname_refines {t} {es} m r = let (p, e, ok) = search_lem r.holds r.sorted m in rw e (answer p ok)
  where
    answer :
        (p : Place)
        → IsPlace m es p
        → (elim p [ found i n ↦ some n.handle | missing i ↦ some 0 ]) ≡ some (or_zero (lookup m es))
    answer (found i n) ok =
        let e = ap (λ x. lookup x es) (sym ok.1) ∙ lookup_at i n es r.sorted ok.0 in
        sym (ap (λ x. some (or_zero x)) e)
    answer (missing i) ok = sym (ap (λ x. some (or_zero x)) (lookup-Belongs m i es ok.1))

-- The cells after an insertion into the gap.
inserted_at :
    (i k : ℕ) (n : HandleName) (es : List HandleName)
    → i ≤ length es
    → ((k < i) → get_elem? (take i es ++ n ∷ drop i es) k ≡ get_elem? es k)
      × ((k ≡ i) → get_elem? (take i es ++ n ∷ drop i es) k ≡ some n)
      × ((i ≤ k) → get_elem? (take i es ++ n ∷ drop i es) (suc k) ≡ get_elem? es k)
inserted_at zero zero n es h = ((λ lt. absurd (omega arith)), (λ e. refl), (λ le. refl))
inserted_at zero (suc k) n es h =
    ((λ lt. absurd (omega arith)), (λ e. absurd (omega arith)), (λ le. refl))
inserted_at (suc i) k n [] h = absurd (omega arith)
inserted_at (suc i) zero n (x ∷ es) h =
    ((λ lt. refl), (λ e. absurd (omega arith)), (λ le. absurd (omega arith)))
inserted_at (suc i) (suc k) n (x ∷ es) h =
    let ih = inserted_at i k n es (omega arith) in
    ((λ lt. ih.0 (omega arith)), (λ e. ih.1 (omega arith)), (λ le. ih.2 (omega arith)))

length_inserted :
    (i : ℕ) (n : HandleName) (es : List HandleName)
    → length (take i es ++ n ∷ drop i es) ≡ suc (length es)
length_inserted zero n es = refl
length_inserted (suc i) n [] = refl
length_inserted (suc i) n (x ∷ es) = ap suc (length_inserted i n es)

-- The table after `_insert_name_before` at the place of a new name.
insert_before_lem :
    {t : NameTable} {es : List HandleName} (m : List ℕ) (h i : ℕ)
    → Represents t es
    → length es < max_slot_size / 2
    → i ≤ length es
    → Belongs m i es
    → (t' : NameTable) × (insert_name_before m h i t ≡ some t')
      × Represents t' (insert (record { name = m; handle = h }) es)
unfolding insert_name_before write_cell
insert_before_lem {t} {es} m h i r few le b =
    let n : HandleName = record { name = m; handle = h } in
    let c = r.holds.counted in
    let (t1, e, g) =
      open_gap_lem i t (omega (arith, c)) r.some_room (omega (arith, c, r.fits)) r.small
        (omega (arith, c)) in
    let t2 = record t1 { cell = update t1.cell i (some n); count = t1.count + 1 } in
    (
      t2,
      rw e (rw (lt→ltb i t1.cap (omega (arith, g.room, c))) refl),
      subst (Represents t2) (sym (insert-Belongs n i es b)) (record {
        holds = record {
          counted = omega (arith, g.count, c, length_inserted i n es);
          cells = λ k lt. cells t1 n g k (omega (arith, length_inserted i n es));
        };
        sorted = subst IsSorted (insert-Belongs n i es b) (insert-IsSorted n es r.sorted);
        some_room = omega (arith, g.room);
        fits = omega (arith, g.room, c, length_inserted i n es);
        small = g.small;
      }),
    )
  where
    cells :
        (t1 : NameTable) (n : HandleName)
        → Gap i t t1
        → (k : ℕ) → k < suc (length es)
        → update t1.cell i (some n) k ≡ get_elem? (take i es ++ n ∷ drop i es) k
    cells t1 n g zero lt = elim (Bool-cases (0 == i)) [
      | inl e ↦
          ap (update t1.cell i (some n)) (eq_of_== 0 i e)
          ∙ update_self t1.cell i _
          ∙ sym ((inserted_at i 0 n es le).1 (eq_of_== 0 i e))
      | inr ne ↦
          let d = ne_of_== 0 i ne in
          update_ne t1.cell i 0 _ d
          ∙ g.low 0 (omega (arith, d))
          ∙ r.holds.cells 0 (omega (arith, d))
          ∙ sym ((inserted_at i 0 n es le).0 (omega (arith, d)))
    ]
    cells t1 n g (suc k) lt = elim (Bool-cases (suc k == i)) [
      | inl e ↦
          ap (update t1.cell i (some n)) (eq_of_== (suc k) i e)
          ∙ update_self t1.cell i _
          ∙ sym ((inserted_at i (suc k) n es le).1 (eq_of_== (suc k) i e))
      | inr ne ↦ elim (Bool-cases (ltb (suc k) i)) [
        | inl low ↦
            let lt' = ltb→lt (suc k) i low in
            update_ne t1.cell i (suc k) _ (omega arith)
            ∙ g.low (suc k) lt'
            ∙ r.holds.cells (suc k) (omega arith)
            ∙ sym ((inserted_at i (suc k) n es le).0 lt')
        | inr high ↦
            let d = ne_of_== (suc k) i ne in
            let ge : i ≤ k = omega (arith, ltb→le (suc k) i high) in
            update_ne t1.cell i (suc k) _ d
            ∙ ap t1.cell (omega arith)
            ∙ g.up k ge (omega (arith, r.holds.counted))
            ∙ r.holds.cells k (omega arith)
            ∙ sym ((inserted_at i k n es le).2 ge)
      ]
    ]

-- What `skynet_handle_namehandle` promises: an unknown name is entered and returned, for a known one
-- the result is null and nothing changes.
abbrev pub Named :
    List ℕ → ℕ → List HandleName → NameTable → Option (List ℕ) × NameTable → Option ℕ → Type 0
Named m h es t r none =
    (r.0 ≡ some m) × Represents r.1 (insert (record { name = m; handle = h }) es)
Named m h es t r (some h') = (r.0 ≡ none) × (r.1 ≡ t)

-- On a table that represents a sorted list of fewer than 2^29 names, `skynet_handle_namehandle` enters an
-- unknown name into the list and returns it; for a known name the result is null and nothing changes.
pub insert_name_refines :
    {t : NameTable} {es : List HandleName} (m : List ℕ) (h : ℕ)
    → Represents t es
    → length es < max_slot_size / 2
    → (r : Option (List ℕ) × NameTable) × (insert_name m h t ≡ some r)
      × Named m h es t r (lookup m es)
unfolding insert_name
insert_name_refines {t} {es} m h r few =
    let (p, e, ok) = search_lem r.holds r.sorted m in rw e (entered p ok)
  where
    entered :
        (p : Place)
        → IsPlace m es p
        → (x : Option (List ℕ) × NameTable) × ((elim p [
          | found i n ↦ some (none, t)
          | missing i ↦ insert_name_before m h i t >>= λ t'. some (some m, t')
        ])
            ≡ some x)
          × Named m h es t x (lookup m es)
    entered (found i n) ok =
        let e = ap (λ x. lookup x es) (sym ok.1) ∙ lookup_at i n es r.sorted ok.0 in
        ((none, t), refl, rw e (refl, refl))
    entered (missing i) ok =
        let (t', e, r') = insert_before_lem m h i r few ok.0 ok.1 in
        ((some m, t'), rw e refl, rw (lookup-Belongs m i es ok.1) (refl, r'))

-- On a table that represents a sorted list of fewer than 2^29 names, where a name is unknown,
-- `skynet_handle_namehandle` enters it;
-- from then on `skynet_handle_findname` answers its handle, and the answer for every other name is the
-- one before.
pub named_then_found :
    {t : NameTable} {es : List HandleName} (m : List ℕ) (h : ℕ)
    → Represents t es
    → length es < max_slot_size / 2
    → lookup m es ≡ none
    → (t' : NameTable) × (insert_name m h t ≡ some (some m, t'))
      × (findname m t' ≡ some h)
      × ((other : List ℕ) → m ≢ other → findname other t' ≡ findname other t)
named_then_found {t} {es} m h r few new =
    let n : HandleName = record { name = m; handle = h } in
    let ((res, t'), e, named) = insert_name_refines m h r few in
    let (is_m, r') = subst (Named m h es t (res, t')) new named in
    (
      t',
      e ∙ ap (λ x. some (x, t')) is_m,
      findname_refines m r' ∙ ap (λ x. some (or_zero x)) (lookup-insert_self n es new),
      λ other ne.
          findname_refines other r'
          ∙ ap (λ x. some (or_zero x))
              (lookup-insert_ne n other es (λ e. ne (strcmp-same m other e)))
          ∙ sym (findname_refines other r),
    )

pub no_names-Represents : Represents no_names []
no_names-Represents = record {
  holds = record { counted = refl; cells = λ i h. absurd (omega arith) };
  sorted = tt;
  some_room = omega arith;
  fits = omega arith;
  small = omega arith;
}
