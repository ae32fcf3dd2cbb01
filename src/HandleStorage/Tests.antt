-- ===== src/HandleStorage/Tests.antt =====
-- Four services fill the first four slots; the fifth doubles them.
use m2_server.Common.{
  ℕ, zero, suc, sym, ap, ◌∙◌, eq_of_==, ne_of_==, ◌+◌, ◌^◌, ◌≡◌, refl, arith, Option, none, some,
  some_inj, ltb, ◌==◌, if◌then◌else◌, ◌>>=◌, subst, ◌<◌, ◌%◌, Bool-cases, inl, inr, List, [], ◌∷◌,
}
use m2_server.NameTable.{HandleName, no_names, forget_names, close_gaps}
use m2_server.NameTable.Refine.{Represents, no_names-Represents}
use m2_server.HandleStorage.{
  Storage, free_handle, rehash, grow, register_loop, register, context_new, holder, grab, retire,
  retire_slot, retire_slots, retireall, init,
}
use m2_server.HandleStorage.Slots.{InSlot, IsValid}
use m2_server.HandleStorage.Register.{Fresh, NewService, context_new_lem}
use m2_server.HandleStorage.Retire.{Retired, retire_lem, Retired-Represents}
use m2_server.HandleStorage.RetireAll.{IsFewer, RegistersNothing, IsRetired, retireall_lem}

-- The service at the address `c` has the handle `c` of harbor 1.
abbrev handle_of : ℕ → ℕ
handle_of c = 2 ^ 24 + c

abbrev four : Storage
four = record {
  harbor = 2 ^ 24;
  handle_index = 5;
  slot_size = 4;
  slot = λ i. if i == 0 then some 4 else if ltb i 4 then some i else none;
  names = no_names;
}

in_slot : (i c : ℕ) → c < 5 → c % 4 ≡ i → (ctx : ℕ) → c ≡ ctx → InSlot 2 i (2 ^ 24) (handle_of ctx)
in_slot i c lt e ctx same =
    subst (λ x. InSlot 2 i (2 ^ 24) (handle_of x)) same
      (record { low = c; small = omega arith; joined = refl; masked = e })

four-IsValid : IsValid handle_of 2 four
four-IsValid = record {
  size = refl;
  bound = omega arith;
  node = 1;
  harbor = refl;
  services = services;
}
  where
    services : (i ctx : ℕ) → four.slot i ≡ some ctx → InSlot 2 i (2 ^ 24) (handle_of ctx)
    services zero ctx e = in_slot 0 4 (omega arith) refl ctx (some_inj e)
    services (suc zero) ctx e = in_slot 1 1 (omega arith) refl ctx (some_inj e)
    services (suc (suc zero)) ctx e = in_slot 2 2 (omega arith) refl ctx (some_inj e)
    services (suc (suc (suc zero))) ctx e = in_slot 3 3 (omega arith) refl ctx (some_inj e)
    services (suc (suc (suc (suc i)))) ctx e = absurd (ground (arith, e))

nine-Fresh : Fresh 9 four
nine-Fresh i e = elim (Bool-cases (i == 0)) [
  | inl first ↦ ground (arith, e, first)
  | inr later ↦ ground (arith, e, later)
]

-- The new handle, the size, and where the services 4 and 9 are.
abbrev summary : (ℕ → ℕ) × Storage → List (Option ℕ)
summary r = some (r.0 9) ∷ some r.1.slot_size ∷ r.1.slot 4 ∷ r.1.slot 5 ∷ []

context_new-run :
    (context_new handle_of 9 four >>= λ r. some (summary r))
    ≡ some (some (2 ^ 24 + 5) ∷ some 8 ∷ some 4 ∷ some 9 ∷ [])
unfolding context_new register register_loop free_handle grow rehash
context_new-run = refl

-- After 2^24 handles the numbers start again, and on harbor 0 a service gets the handle 0.
handle_zero :
    (register handle_of 9 (record (init 0) { handle_index = 2 ^ 24 }) >>= λ r. some r.0) ≡ some 0
unfolding register register_loop free_handle init
handle_zero = refl

retire-run :
    (retire handle_of (2 ^ 24 + 3) four >>= λ r. some (r.0 ∷ r.1.slot 3 ∷ []))
    ≡ some (some 3 ∷ none ∷ [])
unfolding retire holder forget_names close_gaps
retire-run = refl

context_new_lem_example :
    (r : (ℕ → ℕ) × Storage) × (context_new handle_of 9 four ≡ some r)
    × NewService handle_of 9 four r
context_new_lem_example = context_new_lem 9 four-IsValid nine-Fresh (omega arith)

retire_lem_example :
    (r : Option ℕ × Storage) × (retire handle_of (2 ^ 24 + 3) four ≡ some r)
    × Retired handle_of 2 (2 ^ 24 + 3) four [] r
retire_lem_example = retire_lem (2 ^ 24 + 3) four-IsValid no_names-Represents

-- Another thread retires the service 3 again and again.
abbrev retires_three : ℕ → Storage → Storage
retires_three t s = elim (retire handle_of (2 ^ 24 + 3) s) [ none ↦ s | some r ↦ r.1 ]

retires_three-RegistersNothing : RegistersNothing handle_of 2 retires_three
retires_three-RegistersNothing = record { keeps = keeps }
  where
    fewer :
        (s : Storage) (es : List HandleName) (r : Option ℕ × Storage)
        → IsValid handle_of 2 s
        → Represents s.names es
        → Retired handle_of 2 (2 ^ 24 + 3) s es r
        → IsFewer handle_of 2 s r.1
    fewer s es r v named gone =
        let (es', named') =
          Retired-Represents {handle_of = handle_of} {k = 2} s es (2 ^ 24 + 3) r named gone in
        record {
          valid = gone.valid;
          entries = es';
          named = named';
          nowhere = λ h e. elim (Bool-cases (h == 2 ^ 24 + 3)) [
            | inl same ↦ ap (λ x. grab handle_of x r.1) (eq_of_== h (2 ^ 24 + 3) same) ∙ gone.gone
            | inr other ↦ gone.others h (ne_of_== h (2 ^ 24 + 3) other) ∙ e
          ];
        }

    keeps :
        (t : ℕ) (s : Storage) (es : List HandleName)
        → IsValid handle_of 2 s
        → Represents s.names es
        → IsFewer handle_of 2 s (retires_three t s)
    keeps t s es v named =
        let (r, e, gone) = retire_lem {handle_of = handle_of} {k = 2} (2 ^ 24 + 3) v named in
        subst (λ o. IsFewer handle_of 2 s (elim o [ none ↦ s | some r' ↦ r'.1 ])) (sym e)
          (fewer s es r v named gone)

retireall-run :
    (retireall 2 handle_of retires_three 0 four >>= λ s.
    some (s.slot 0 ∷ s.slot 1 ∷ s.slot 2 ∷ s.slot 3 ∷ []))
    ≡ some (none ∷ none ∷ none ∷ none ∷ [])
unfolding retireall retire_slots retire_slot retire holder forget_names close_gaps
retireall-run = refl

retireall_lem_example :
    (s : Storage) × (retireall 2 handle_of retires_three 0 four ≡ some s) × IsRetired handle_of 2 s
retireall_lem_example =
    retireall_lem {others = retires_three} 0 retires_three-RegistersNothing four-IsValid
      no_names-Represents
