-- ===== src/NameTable/Tests.antt =====
-- A table with two names, which is full.
use m2_server.Common.{
  ℕ, zero, suc, ◌<◌, ◌≡◌, ◌≢◌, refl, arith, Option, none, some, List, [], ◌∷◌, ◌==◌, if◌then◌else◌,
  get_elem?,
}
use m2_server.NameTable.{HandleName, NameTable, strcmp, findname, insert_name, forget_names}
use m2_server.NameTable.Refine.{
  Represents, Named, findname_refines, insert_name_refines, named_then_found,
}
use m2_server.NameTable.Removal.{forget_names_refines}

-- The names "db" and "log", and "gate" between them.
abbrev db : HandleName
db = record { name = 100 ∷ 98 ∷ []; handle = 3 }

abbrev log : HandleName
log = record { name = 108 ∷ 111 ∷ 103 ∷ []; handle = 5 }

abbrev gate : List ℕ
gate = 103 ∷ 97 ∷ 116 ∷ 101 ∷ []

abbrev entries : List HandleName
entries = db ∷ log ∷ []

abbrev full : NameTable
full = record {
  cap = 2;
  count = 2;
  cell = λ i. if i == 0 then some db else if i == 1 then some log else none;
}

full-Represents : Represents full entries
unfolding strcmp
full-Represents = record {
  holds = record { counted = refl; cells = cells };
  sorted = ((refl, tt), (tt, tt));
  some_room = omega arith;
  fits = omega arith;
  small = omega arith;
}
  where
    cells : (i : ℕ) → i < 2 → full.cell i ≡ get_elem? entries i
    cells zero h = refl
    cells (suc zero) h = refl
    cells (suc (suc i)) h = absurd (omega arith)

findname_refines_example : findname log.name full ≡ some 5
unfolding strcmp
findname_refines_example = findname_refines log.name full-Represents

insert_name_refines_example :
    (r : Option (List ℕ) × NameTable) × (insert_name gate 9 full ≡ some r)
    × Named gate 9 entries full r none
unfolding strcmp
insert_name_refines_example = insert_name_refines gate 9 full-Represents (omega arith)

named_then_found_example :
    (t' : NameTable) × (insert_name gate 9 full ≡ some (some gate, t'))
    × (findname gate t' ≡ some 9)
    × ((other : List ℕ) → gate ≢ other → findname other t' ≡ findname other full)
unfolding strcmp
named_then_found_example = named_then_found gate 9 full-Represents (omega arith) refl

forget_names_refines_example :
    (t' : NameTable) × (forget_names 3 full ≡ some t') × Represents t' (log ∷ [])
forget_names_refines_example = forget_names_refines 3 full-Represents
