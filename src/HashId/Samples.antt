-- ===== src/HashId/Samples.antt =====
-- Small tables of ids: an empty one, and one with the id 5.
use m2_server.Common.{ℕ, refl, arith, none, List, [], ◌∷◌, update}
use m2_server.HashId.{HashId, no_id}
use m2_server.HashId.Valid.{IsValid}
use m2_server.HashId.Insert.{linked, linked-IsValid}

abbrev pub empty3 : HashId
empty3 = record {
  hashmod = 15;
  cap = 3;
  count = 0;
  id = λ i. no_id;
  next = λ i. none;
  hash = λ h. none;
}

pub empty3-IsValid : IsValid 4 (λ h. []) empty3
empty3-IsValid = record {
  size = refl;
  chains = λ h. refl;
  distinct = λ h. tt;
  home = λ h i o. cc;
  listed = λ i lt taken. absurd (taken refl);
  unique = λ i j lt lt' taken e. absurd (taken refl);
  loose = λ i e. refl;
  counted = refl;
}

abbrev pub one3 : HashId
one3 = linked 2 5 5 empty3

abbrev pub chains1 : ℕ → List ℕ
chains1 = update (λ h. []) 5 (2 ∷ [])

pub one3-IsValid : IsValid 4 chains1 one3
one3-IsValid =
    linked-IsValid {k = 4} {ch = λ h. []} {hi = empty3} 2 5 empty3-IsValid (omega arith) refl
      (omega arith) (λ i lt. omega arith)
