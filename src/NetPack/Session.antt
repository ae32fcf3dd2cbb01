-- ===== src/NetPack/Session.antt =====
-- lualib-src/lua-netpack.c with its caller in lualib/snax/gateserver.lua: the packets that come out of the
-- blocks of many connections.
use m2_server.Common.{
  ℕ, zero, suc, ◌+◌, ◌^◌, ◌<◌, ◌≡◌, ◌≢◌, refl, sym, ap, subst, ◌∙◌, arith, Option, none, some, List,
  [], ◌∷◌, ◌++◌, map, map-append, length, flatten, flatten-append, append_assoc, append-nil, ◌==◌,
  eq_of_==, ne_of_==, ne→==, ==_self, Bool-cases, inl, inr, if◌then◌else◌, ◌>>=◌,
}
use m2_server.Gate.Frames.{frame, stream}
use m2_server.NetPack.{NetPack, Queue, Filtered, nothing, packet, more, filter_data, pop}
use m2_server.NetPack.Ring.{Represents, pop_lem}
use m2_server.NetPack.Chains.{Tidy, waiting}
use m2_server.NetPack.Waiting.{raw, AllBytes, packs}
use m2_server.NetPack.Cutting.{waiting-hash, Tidy-hash}
use m2_server.NetPack.Branches.{OfSocket, returned}
use m2_server.NetPack.Filter.{filter_data_lem}

-- A block of bytes that came in at a socket.
pub record Block : Type 0 where
  pub socket : ℕ
  pub bytes : List ℕ

-- `netpack.pop` until the ring is empty.
unfoldable pub pop_all : ℕ → Queue → Option (List NetPack × Queue)
pop_all zero q = none
pop_all (suc fuel) q = pop q >>= λ (found, q'). elim found [
  | none ↦ some ([], q')
  | some pack ↦ pop_all fuel q' >>= λ (rest, q''). some (pack ∷ rest, q'')
]

abbrev pub direct : Filtered → List NetPack
direct nothing = []
direct (packet fd bytes) = record { id = fd; bytes = bytes } ∷ []
direct more = []

-- The packets that the caller gets for blocks in their order. A ring holds fewer packets than its size.
unfoldable pub receive_all : Queue → List Block → Option (List NetPack × Queue)
unfolding pop_all
receive_all q [] = some ([], q)
receive_all q (b ∷ blocks) = do
  (f, q1) ← filter_data q b.socket b.bytes
  (popped, q2) ← pop_all q1.cap q1
  (rest, q3) ← receive_all q2 blocks
  some ((direct f ++ popped) ++ rest, q3)

-- The packets of one socket, and the bytes that came in there.
abbrev pub of_socket : ℕ → List NetPack → List (List ℕ)
of_socket fd [] = []
of_socket fd (p ∷ ps) = if p.id == fd then p.bytes ∷ of_socket fd ps else of_socket fd ps

abbrev pub bytes_of : ℕ → List Block → List ℕ
bytes_of fd [] = []
bytes_of fd (b ∷ bs) = if b.socket == fd then b.bytes ++ bytes_of fd bs else bytes_of fd bs

abbrev pub Regular : List Block → Type 0
Regular [] = Unit
Regular (b ∷ bs) =
    (0 < length b.bytes) × (length b.bytes + 1 < 2 ^ 30) × AllBytes b.bytes × Regular bs

of_socket-append :
    (fd : ℕ) (xs ys : List NetPack) → of_socket fd (xs ++ ys) ≡ of_socket fd xs ++ of_socket fd ys
of_socket-append fd [] ys = refl
of_socket-append fd (x ∷ xs) ys = elim (Bool-cases (x.id == fd)) [
  | inl here ↦ rw here (ap (λ t. x.bytes ∷ t) (of_socket-append fd xs ys))
  | inr other ↦ rw other (of_socket-append fd xs ys)
]

of_socket-packs : (fd : ℕ) (xs : List (List ℕ)) → of_socket fd (packs fd xs) ≡ xs
of_socket-packs fd [] = refl
of_socket-packs fd (x ∷ xs) = rw (==_self fd) (ap (λ t. x ∷ t) (of_socket-packs fd xs))

of_socket-packs_ne : (fd i : ℕ) (xs : List (List ℕ)) → i ≢ fd → of_socket fd (packs i xs) ≡ []
of_socket-packs_ne fd i [] ne = refl
of_socket-packs_ne fd i (x ∷ xs) ne = rw (ne→== i fd ne) (of_socket-packs_ne fd i xs ne)

pop_all_lem :
    (fuel : ℕ) (q : Queue) (ms : List NetPack)
    → length ms < fuel
    → Represents q ms
    → (q' : Queue) × (pop_all fuel q ≡ some (ms, q')) × Represents q' [] × (q'.hash ≡ q.hash)
unfolding pop_all
pop_all_lem zero q ms h r = absurd (omega arith)
pop_all_lem (suc fuel) q [] h r =
    let (q', e, r', same) = pop_lem {q = q} [] r in (q', rw (e, ◌>>=◌) refl, r', same)
pop_all_lem (suc fuel) q (m ∷ ms) h r =
    let (q1, e, r1, same) = pop_lem {q = q} (m ∷ ms) r in
    let (q', e', r', same') = pop_all_lem fuel q1 ms (omega arith) r1 in
    (q', rw (e, ◌>>=◌) (rw (e', ◌>>=◌) refl), r', same' ∙ same)

direct-packs :
    (fd : ℕ) (f : Filtered) (queued : List (List ℕ))
    → OfSocket fd f queued
    → direct f ++ packs fd queued ≡ packs fd (returned f ++ queued)
direct-packs fd nothing queued o = refl
direct-packs fd (packet i bytes) queued (same, e) =
    ap (λ j. record { id = j; bytes = bytes } ∷ packs fd queued) same
direct-packs fd more queued o = refl

-- One block and the packets that come out of it.
step :
    (q : Queue) (b : Block)
    → Represents q []
    → Tidy q
    → Regular (b ∷ [])
    → (f : Filtered) × (q1 q2 : Queue) × (popped : List NetPack) × (ds : List (List ℕ))
      × (filter_data q b.socket b.bytes ≡ some (f, q1))
      × (pop_all q1.cap q1 ≡ some (popped, q2))
      × (direct f ++ popped ≡ packs b.socket ds)
      × Represents q2 []
      × Tidy q2
      × ((i : ℕ) → i ≢ b.socket → waiting q2 i ≡ waiting q i)
      × (stream 2 ds ++ raw (waiting q2 b.socket) ≡ raw (waiting q b.socket) ++ b.bytes)
step q b r t (p, few, bs, _) =
    let fd = b.socket in
    let (f, q1, queued, run, of, c) =
      filter_data_lem q fd [] b.bytes p bs (omega (arith, few)) r t in
    let (q2, e, r2, same) =
      pop_all_lem q1.cap q1 (packs fd queued) c.represents.room c.represents in
    (
      f,
      q1,
      q2,
      packs fd queued,
      returned f ++ queued,
      run,
      e,
      direct-packs fd f queued of,
      r2,
      Tidy-hash q1 q2 same c.tidy,
      λ i ne. waiting-hash q1 q2 same i ∙ c.others i ne,
      ap (λ o. stream 2 (returned f ++ queued) ++ raw o) (waiting-hash q1 q2 same fd) ∙ c.bytes,
    )

stream-append : (xs ys : List (List ℕ)) → stream 2 (xs ++ ys) ≡ stream 2 xs ++ stream 2 ys
stream-append xs ys =
    ap flatten (map-append (frame 2) xs ys) ∙ flatten-append (map (frame 2) xs) (map (frame 2) ys)

-- The packets of one block and of the blocks behind it, for one socket.
account :
    (fd : ℕ) (b : Block) (blocks : List Block) (ds : List (List ℕ)) (rest : List NetPack)
    (before between after : List ℕ)
    → (b.socket ≡ fd → stream 2 ds ++ between ≡ before ++ b.bytes)
    → (b.socket ≢ fd → between ≡ before)
    → stream 2 (of_socket fd rest) ++ after ≡ between ++ bytes_of fd blocks
    → stream 2 (of_socket fd (packs b.socket ds ++ rest)) ++ after
      ≡ before ++ bytes_of fd (b ∷ blocks)
account fd b blocks ds rest before between after here there ih =
    elim (Bool-cases (b.socket == fd)) [
      | inl same ↦
          let e = eq_of_== b.socket fd same in
          let own : of_socket fd (packs b.socket ds ++ rest) ≡ ds ++ of_socket fd rest =
            of_socket-append fd (packs b.socket ds) rest
            ∙ ap (λ i. of_socket fd (packs i ds) ++ of_socket fd rest) e
            ∙ ap (λ xs. xs ++ of_socket fd rest) (of_socket-packs fd ds) in
          rw same (
            ap (λ xs. stream 2 xs ++ after) own
            ∙ ap (λ xs. xs ++ after) (stream-append ds (of_socket fd rest))
            ∙ append_assoc (stream 2 ds) (stream 2 (of_socket fd rest)) after
            ∙ ap (λ xs. stream 2 ds ++ xs) ih
            ∙ sym (append_assoc (stream 2 ds) between (bytes_of fd blocks))
            ∙ ap (λ xs. xs ++ bytes_of fd blocks) (here e)
            ∙ append_assoc before b.bytes (bytes_of fd blocks))
      | inr other ↦
          let ne = ne_of_== b.socket fd other in
          let none_own : of_socket fd (packs b.socket ds ++ rest) ≡ of_socket fd rest =
            of_socket-append fd (packs b.socket ds) rest
            ∙ ap (λ xs. xs ++ of_socket fd rest) (of_socket-packs_ne fd b.socket ds ne) in
          rw other (
            ap (λ xs. stream 2 xs ++ after) none_own
            ∙ ih
            ∙ ap (λ xs. xs ++ bytes_of fd blocks) (there ne))
    ]

-- From an empty ring, blocks of at least one byte and fewer than 2^30 - 1, in any order of their sockets,
-- are all taken, and for every socket no byte is lost or mixed with those of another: the packets that
-- the caller gets for it, each behind its size, and the bytes that wait for it then are together the
-- bytes that waited for it before and those that came in for it.
pub receive_all_lem :
    (q : Queue) (blocks : List Block)
    → Represents q []
    → Tidy q
    → Regular blocks
    → (ps : List NetPack) × (q' : Queue) × (receive_all q blocks ≡ some (ps, q'))
      × Represents q' []
      × Tidy q'
      × ((fd : ℕ)
          → stream 2 (of_socket fd ps) ++ raw (waiting q' fd)
            ≡ raw (waiting q fd) ++ bytes_of fd blocks)
unfolding receive_all
receive_all_lem q [] r t reg = ([], q, refl, r, t, λ fd. sym (append-nil (raw (waiting q fd))))
receive_all_lem q (b ∷ blocks) r t reg =
    let (f, q1, q2, popped, ds, run, popped_eq, all, r2, t2, others, bytes) =
      step q b r t (reg.0, reg.1, reg.2, tt) in
    let (rest, q3, run', r3, t3, sums) = receive_all_lem q2 blocks r2 t2 reg.3 in
    (
      (direct f ++ popped) ++ rest,
      q3,
      rw (run, ◌>>=◌) (rw (popped_eq, ◌>>=◌) (rw (run', ◌>>=◌) refl)),
      r3,
      t3,
      λ fd.
          ap (λ xs. stream 2 (of_socket fd (xs ++ rest)) ++ raw (waiting q3 fd)) all
          ∙ account fd b blocks ds rest (raw (waiting q fd)) (raw (waiting q2 fd))
              (raw (waiting q3 fd))
              (λ e.
                subst (λ i. stream 2 ds ++ raw (waiting q2 i) ≡ raw (waiting q i) ++ b.bytes) e
                  bytes)
              (λ ne. ap raw (others fd (λ e. ne (sym e)))) (sums fd),
    )
