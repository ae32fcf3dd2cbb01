-- ===== src/NetPack/Chains.antt =====
-- lualib-src/lua-netpack.c: the chains of uncomplete packets hold at most one for each socket.
use m2_server.Common.{
  ℕ, ◌^◌, ◌<◌, ◌≡◌, ◌≢◌, refl, sym, ap, subst, ◌∙◌, Option, none, some, List, [], ◌∷◌, ◌==◌,
  if◌then◌else◌, ◌>>=◌, length, update, update_self, update-cases, Bool-cases, inl, inr, ◌⊎◌,
  eq_of_==, ne_of_==, ne→==, ==_self,
}
use m2_server.NetPack.{Queue, Uncomplete, hash_fd, take_out, find_uncomplete, save_uncomplete}

-- The entry of a socket in a chain.
abbrev pub held : ℕ → List Uncomplete → Option Uncomplete
held fd [] = none
held fd (uc ∷ rest) = if uc.id == fd then some uc else held fd rest

-- With `read` at -1 the first byte is there; else the bytes that were read are there, fewer than the
-- packet has.
abbrev pub ReadOk : Option ℕ → Uncomplete → Type 0
ReadOk none uc = uc.header < 2 ^ 8
ReadOk (some n) uc = (n ≡ length uc.bytes) × (n < uc.size) × (uc.size < 2 ^ 16)

abbrev pub Ok : Uncomplete → Type 0
Ok uc = ReadOk uc.read uc

-- Every entry is in order, and none comes again.
abbrev pub Once : List Uncomplete → Type 0
Once [] = Unit
Once (uc ∷ rest) = (held uc.id rest ≡ none) × Ok uc × Once rest

pub record Taken (fd : ℕ) (chain : List Uncomplete) (uc : Uncomplete) (rest : List Uncomplete)
    : Type 0 where
  pub found : held fd chain ≡ some uc
  pub same : uc.id ≡ fd
  pub ok : Ok uc
  pub gone : held fd rest ≡ none
  pub others : (i : ℕ) → i ≢ fd → held i rest ≡ held i chain
  pub once : Once rest

take_out_lem :
    (fd : ℕ) (chain : List Uncomplete)
    → Once chain
    → ((take_out fd chain ≡ none) × (held fd chain ≡ none))
      ⊎ ((uc : Uncomplete) × (rest : List Uncomplete) × (take_out fd chain ≡ some (uc, rest))
          × Taken fd chain uc rest)
unfolding take_out
take_out_lem fd [] o = inl (refl, refl)
take_out_lem fd (uc ∷ rest) (single, ok, o) = elim (Bool-cases (uc.id == fd)) [
  | inl here ↦
      let e = eq_of_== uc.id fd here in
      inr (
        uc,
        rest,
        rw here refl,
        record {
          found = rw here refl;
          same = e;
          ok = ok;
          gone = subst (λ i. held i rest ≡ none) e single;
          others = λ i ne. sym (rw (ne→== uc.id i (λ f. ne (sym f ∙ e))) refl);
          once = o;
        },
      )
  | inr later ↦ elim (take_out_lem fd rest o) [
    | inl (t, none_there) ↦ inl (rw later (rw (t, ◌>>=◌) refl), rw later none_there)
    | inr (found, left, t, taken) ↦
        let ne : uc.id ≢ fd = ne_of_== uc.id fd later in
        inr (
          found,
          uc ∷ left,
          rw later (rw (t, ◌>>=◌) refl),
          record {
            found = rw later taken.found;
            same = taken.same;
            ok = taken.ok;
            gone = rw later taken.gone;
            others = λ i i_ne. rw (taken.others i i_ne) refl;
            once = (taken.others uc.id ne ∙ single, ok, taken.once);
          },
        )
  ]
]

-- The entry of a socket in the table.
abbrev pub waiting : Queue → ℕ → Option Uncomplete
waiting q fd = held fd (q.hash (hash_fd fd))

pub record Tidy (q : Queue) : Type 0 where
  pub once : (h : ℕ) → Once (q.hash h)

-- A chain changes that has the hash of `fd`.
changed :
    (q : Queue) (fd : ℕ) (chain : List Uncomplete)
    → ((i : ℕ) → i ≢ fd → held i chain ≡ held i (q.hash (hash_fd fd)))
    → (i : ℕ) → i ≢ fd
    → waiting (record q { hash = update q.hash (hash_fd fd) chain }) i ≡ waiting q i
changed q fd chain same i ne = elim (update-cases q.hash (hash_fd fd) (hash_fd i) chain) [
  | inl (e, f) ↦ ap (held i) f ∙ same i ne ∙ ap (λ h. held i (q.hash h)) (sym e)
  | inr (other, f) ↦ ap (held i) f
]

changed-Tidy :
    (q : Queue) (h : ℕ) (chain : List Uncomplete)
    → Tidy q
    → Once chain
    → Tidy (record q { hash = update q.hash h chain })
changed-Tidy q h chain t o = record {
  once = λ i. elim (update-cases q.hash h i chain) [
    | inl (e, f) ↦ subst Once (sym f) o
    | inr (other, f) ↦ subst Once (sym f) (t.once i)
  ];
}

-- What `find_uncomplete` leaves where it finds an entry.
pub record Found (q : Queue) (fd : ℕ) (uc : Uncomplete) (hash' : ℕ → List Uncomplete) : Type 0 where
  pub found : waiting q fd ≡ some uc
  pub same : uc.id ≡ fd
  pub ok : Ok uc
  pub tidy : Tidy (record q { hash = hash' })
  pub gone : waiting (record q { hash = hash' }) fd ≡ none
  pub others : (i : ℕ) → i ≢ fd → waiting (record q { hash = hash' }) i ≡ waiting q i

pub find_uncomplete_lem :
    (q : Queue) (fd : ℕ)
    → Tidy q
    → ((find_uncomplete q fd ≡ (none, q)) × (waiting q fd ≡ none))
      ⊎ ((uc : Uncomplete) × (hash' : ℕ → List Uncomplete) × (find_uncomplete q fd
            ≡ (some uc, record q { hash = hash' }))
          × Found q fd uc hash')
unfolding find_uncomplete
find_uncomplete_lem q fd t = elim (take_out_lem fd (q.hash (hash_fd fd)) (t.once (hash_fd fd))) [
  | inl (e, none_there) ↦ inl (rw (e, find_uncomplete) refl, none_there)
  | inr (uc, rest, e, taken) ↦
      let h = hash_fd fd in
      inr (
        uc,
        update q.hash h rest,
        rw (e, find_uncomplete) refl,
        record {
          found = taken.found;
          same = taken.same;
          ok = taken.ok;
          tidy = changed-Tidy q h rest t taken.once;
          gone = ap (held fd) (update_self q.hash h rest) ∙ taken.gone;
          others = changed q fd rest taken.others;
        },
      )
]

-- An entry for a socket that has none.
pub save_uncomplete_lem :
    (q : Queue) (uc : Uncomplete)
    → Tidy q
    → Ok uc
    → waiting q uc.id ≡ none
    → Tidy (save_uncomplete q uc)
      × (waiting (save_uncomplete q uc) uc.id ≡ some uc)
      × ((i : ℕ) → i ≢ uc.id → waiting (save_uncomplete q uc) i ≡ waiting q i)
unfolding save_uncomplete
save_uncomplete_lem q uc t ok free =
    let h = hash_fd uc.id in
    let chain = uc ∷ q.hash h in
    (
      changed-Tidy q h chain t (free, ok, t.once h),
      ap (held uc.id) (update_self q.hash h chain) ∙ rw (==_self uc.id) refl,
      changed q uc.id chain (λ i ne. rw (ne→== uc.id i (λ f. ne (sym f))) refl),
    )
