-- ===== src/GateService/Client.antt =====
-- service-src/service_gate.c: what a message of the type PTYPE_CLIENT sends.
use Prim.Native.Nat.{bit_or}
use m2_server.Common.{
  ℕ, ◌+◌, ◌-◌, ◌*◌, ◌/◌, ◌%◌, ◌^◌, ◌<◌, ◌≡◌, ◌⊎◌, inl, inr, refl, sym, ap, ap₂, subst, ◌∙◌, arith,
  Option, none, some, List, [], ◌∷◌, ◌++◌, length, ◌>>=◌, drop, take, bit_or-shift, bit_or_comm,
  lt→leb, length-append, take-append_le, take_all, drop-append_le, drop_all,
}
use m2_server.HashId.{hashid_lookup}
use m2_server.HashId.Lookup.{Answers, lookup_present, hashid_lookup_lem}
use m2_server.GateService.{GateState, Effect, Log, on_client, socket_id}
use m2_server.GateService.Commands.{Holds}
use m2_server.GateService.Invariant.{IsValid}

-- The four bytes of a socket, least significant first.
abbrev pub id_bytes : ℕ → List ℕ
id_bytes fd = fd % 2 ^ 8 ∷ fd / 2 ^ 8 % 2 ^ 8 ∷ fd / 2 ^ 16 % 2 ^ 8 ∷ fd / 2 ^ 24 ∷ []

or_above : (k a b : ℕ) → b < 2 ^ k → bit_or b (a * 2 ^ k) ≡ a * 2 ^ k + b
or_above k a b h = bit_or_comm b (a * 2 ^ k) ∙ bit_or-shift k a b h

socket_id-id_bytes : (fd : ℕ) → socket_id (id_bytes fd) ≡ fd
unfolding socket_id
socket_id-id_bytes fd =
    let b0 = fd % 2 ^ 8 in
    let b1 = fd / 2 ^ 8 % 2 ^ 8 in
    let b2 = fd / 2 ^ 16 % 2 ^ 8 in
    rw (or_above 8 b1 b0 (omega arith)) (
      rw (or_above 16 b2 (b1 * 2 ^ 8 + b0) (omega arith)) (
        rw (or_above 24 (fd / 2 ^ 24) (b2 * 2 ^ 16 + (b1 * 2 ^ 8 + b0)) (omega arith))
          (omega arith)))

cut :
    (payload tail : List ℕ)
    → take (length (payload ++ tail) - length tail) (payload ++ tail) ≡ payload
cut payload tail =
    let e : length (payload ++ tail) - length tail ≡ length payload =
      omega (arith, length-append payload tail) in
    rw e (
      take-append_le (length payload) payload tail (omega arith)
      ∙ take_all (length payload) payload (omega arith))

rest :
    (payload tail : List ℕ) → drop (length (payload ++ tail) - length tail) (payload ++ tail) ≡ tail
rest payload tail =
    let e : length (payload ++ tail) - length tail ≡ length payload =
      omega (arith, length-append payload tail) in
    rw e (
      drop-append_le (length payload) payload tail (omega arith)
      ∙ ap (λ xs. xs ++ tail) (drop_all (length payload) payload (omega arith)))

-- The socket of a message, and the case of `on_client` that applies.
module _ (g : GateState) (source : ℕ) (msg : List ℕ) (long : 4 < length msg) where
  abbrev uid : ℕ
  uid = socket_id (drop (length msg - 4) msg)

  on_client_known :
      (i : ℕ)
      → hashid_lookup g.hash uid ≡ some (some i)
      → on_client g source msg
        ≡ some (1, Effect.send_socket uid (take (length msg - 4) msg) ∷ [], g)
  unfolding on_client
  on_client_known i found = rw (lt→leb (length msg) 4 long) (rw (found, ◌>>=◌) refl)

  on_client_unknown :
      hashid_lookup g.hash uid ≡ some none
      → on_client g source msg ≡ some (0, Effect.log (Log.invalid_client_id uid source) ∷ [], g)
  unfolding on_client
  on_client_unknown missing = rw (lt→leb (length msg) 4 long) (rw (missing, ◌>>=◌) refl)

module _ {k : ℕ} {ch : ℕ → List ℕ} {g : GateState} (source fd : ℕ) (payload : List ℕ)
    (v : IsValid k ch g) (p : 0 < length payload) where
  abbrev msg : List ℕ
  msg = payload ++ id_bytes fd

  long : 4 < length msg
  long = omega (arith, length-append payload (id_bytes fd), p)

  uid_eq : socket_id (drop (length msg - 4) msg) ≡ fd
  uid_eq = ap socket_id (rest payload (id_bytes fd)) ∙ socket_id-id_bytes fd

  -- A message for the socket of a connection is sent to it without the last four bytes.
  on_client_holder :
      Holds g fd
      → on_client g source (payload ++ id_bytes fd)
        ≡ some (1, Effect.send_socket fd payload ∷ [], g)
  on_client_holder (i, lt, same, real) =
      let lt' : i < g.hash.cap = omega (arith, lt, v.size) in
      let found : hashid_lookup g.hash fd ≡ some (some i) =
        subst (λ x. hashid_lookup g.hash x ≡ some (some i)) same
          (lookup_present {k = k} {ch = ch} {hi = g.hash} i v.table lt'
            (λ f. real (sym same ∙ f))) in
      on_client_known g source msg long i (ap (hashid_lookup g.hash) uid_eq ∙ found)
      ∙ ap₂ (λ x bytes. some (1, Effect.send_socket x bytes ∷ [], g)) uid_eq
          (cut payload (id_bytes fd))

  -- A message for any other socket is only logged.
  on_client_stranger :
      ¬ Holds g fd
      → on_client g source (payload ++ id_bytes fd)
        ≡ some (0, Effect.log (Log.invalid_client_id fd source) ∷ [], g)
  on_client_stranger no_such =
      let (found, e, answer) = hashid_lookup_lem {k = k} {ch = ch} {hi = g.hash} fd v.table in
      let missing : hashid_lookup g.hash fd ≡ some none = e ∙ ap some (gone found answer) in
      on_client_unknown g source msg long (ap (hashid_lookup g.hash) uid_eq ∙ missing)
      ∙ ap (λ x. some (0, Effect.log (Log.invalid_client_id x source) ∷ [], g)) uid_eq
    where
      gone : (found : Option ℕ) → Answers g.hash fd found → found ≡ none
      gone none absent = refl
      gone (some i) (lt, same, real) = absurd (no_such (i, omega (arith, lt, v.size), same, real))

  -- In a gate in order, a client message that ends in the four bytes of a socket number, least significant
  -- first, behind at least one byte, faults nowhere. Where a connection has the socket, the bytes before the
  -- four are sent to it, nothing else happens, and the result is 1; where no connection has it, the only
  -- effect is a line in the log, and the result is 0.
  pub on_client_lem :
      ((Holds g fd)
        × (on_client g source (payload ++ id_bytes fd)
            ≡ some (1, Effect.send_socket fd payload ∷ [], g)))
      ⊎ ((¬ Holds g fd)
          × (on_client g source (payload ++ id_bytes fd)
              ≡ some (0, Effect.log (Log.invalid_client_id fd source) ∷ [], g)))
  on_client_lem =
      let (found, e, answer) = hashid_lookup_lem {k = k} {ch = ch} {hi = g.hash} fd v.table in
      by_answer found answer
    where
      by_answer :
          (found : Option ℕ)
          → Answers g.hash fd found
          → ((Holds g fd)
              × (on_client g source (payload ++ id_bytes fd)
                  ≡ some (1, Effect.send_socket fd payload ∷ [], g)))
            ⊎ ((¬ Holds g fd)
                × (on_client g source (payload ++ id_bytes fd)
                    ≡ some (0, Effect.log (Log.invalid_client_id fd source) ∷ [], g)))
      by_answer none absent =
          let no_such : ¬ Holds g fd = λ (i, lt, same, real).
            absent i (omega (arith, lt, v.size)) (λ f. real (sym same ∙ f)) same in
          inr (no_such, on_client_stranger no_such)
      by_answer (some i) (lt, same, real) =
          let holds : Holds g fd = (i, omega (arith, lt, v.size), same, real) in
          inl (holds, on_client_holder holds)
