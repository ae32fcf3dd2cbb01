-- ===== src/NetPack/Roundtrip.antt =====
-- lualib-src/lua-netpack.c: what lpack wrote comes out of filter_data again.
use Prim.Native.Nat.{bit_and}
use m2_server.Common.{
  ℕ, ◌-◌, ◌/◌, ◌%◌, ◌^◌, ◌≤◌, ◌<◌, ◌≡◌, ◌≢◌, refl, sym, ap, ap₂, subst, ◌∙◌, arith, Option, none,
  some, List, [], ◌∷◌, ◌++◌, length, append_assoc, ◌==◌, Option-cases, cons_inj, length-append,
  lt→leb, le→leb, bit_and-mask, Bool-cases, inl, inr, ◌>>=◌, some_inj,
}
use native.Mathlib.Decide.{dec_lt}
use m2_server.Gate.Frames.{frame, stream, header_bytes}
use m2_server.NetPack.{NetPack, Queue, Uncomplete, hash_fd, new_queue, pack}
use m2_server.NetPack.Ring.{new_queue-Represents}
use m2_server.NetPack.Chains.{Ok, ReadOk, Once, Tidy, held, waiting}
use m2_server.NetPack.Waiting.{raw, raw_read}
use m2_server.NetPack.Session.{Block, receive_all, receive_all_lem, of_socket, bytes_of, Regular}

-- Two lists that go on after parts of one length.
append_inj :
    (xs ys xs' ys' : List ℕ)
    → length xs ≡ length ys
    → xs ++ xs' ≡ ys ++ ys'
    → (xs ≡ ys) × (xs' ≡ ys')
append_inj [] [] xs' ys' l e = (refl, e)
append_inj [] (y ∷ ys) xs' ys' l e = absurd (omega arith)
append_inj (x ∷ xs) [] xs' ys' l e = absurd (omega arith)
append_inj (x ∷ xs) (y ∷ ys) xs' ys' l e =
    let (h, t) = cons_inj e in
    let (f, g) = append_inj xs ys xs' ys' (omega arith) t in (ap₂ ◌∷◌ h f, g)

-- A frame begins with the length of its message.
frame_inj :
    (n m : ℕ) (xs ys : List ℕ)
    → header_bytes 2 n ++ xs ≡ header_bytes 2 m ++ ys
    → (n ≡ m) × (xs ≡ ys)
frame_inj n m xs ys e =
    let (high, t) = cons_inj e in let (low, u) = cons_inj t in (omega (arith, high, low), u)

-- The entry that waits is in order.
held-Ok :
    (fd : ℕ) (chain : List Uncomplete) {uc : Uncomplete}
    → Once chain
    → held fd chain ≡ some uc
    → Ok uc
held-Ok fd [] o e = cc
held-Ok fd (x ∷ rest) {uc} (single, ok, o) e = elim (Bool-cases (x.id == fd)) [
  | inl here ↦ subst Ok (some_inj (rw here at e)) ok
  | inr later ↦ held-Ok fd rest {uc = uc} o (rw later at e)
]

-- What waits is no whole packet.
abbrev Waits : Option Uncomplete → Type 0
Waits none = Unit
Waits (some uc) = Ok uc

waiting-Waits : (q : Queue) (fd : ℕ) (o : Option Uncomplete) → Tidy q → waiting q fd ≡ o → Waits o
waiting-Waits q fd none t e = tt
waiting-Waits q fd (some uc) t e =
    held-Ok fd (q.hash (hash_fd fd)) {uc = uc} (t.once (hash_fd fd)) e

no_packet :
    (read : Option ℕ) (uc : Uncomplete) (m : List ℕ) (rest : List ℕ)
    → ReadOk read uc
    → raw_read read uc ≢ frame 2 m ++ rest
no_packet none uc m rest ok e = absurd (omega (arith, ap length e))
no_packet (some n) uc m rest (len, short, small) e =
    let (size, tail) = frame_inj uc.size (length m) uc.bytes (m ++ rest) e in
    absurd (omega (arith, size, ap length tail, length-append m rest, len, short))

-- A stream of whole packets is cut in one way only.
cut_once :
    (xs ms : List (List ℕ)) (o : Option Uncomplete)
    → Waits o
    → stream 2 xs ++ raw o ≡ stream 2 ms
    → xs ≡ ms
cut_once [] [] o w e = refl
cut_once [] (m ∷ ms) none w e = absurd (omega (arith, ap length e))
cut_once [] (m ∷ ms) (some uc) w e = absurd (no_packet uc.read uc m (stream 2 ms) w e)
cut_once (x ∷ xs) [] o w e = absurd (omega (arith, ap length e))
cut_once (x ∷ xs) (m ∷ ms) o w e =
    let e' : header_bytes 2 (length x) ++ (x ++ (stream 2 xs ++ raw o))
        ≡ header_bytes 2 (length m) ++ (m ++ stream 2 ms) =
      ap (λ t. header_bytes 2 (length x) ++ t) (sym (append_assoc x (stream 2 xs) (raw o))) ∙ e in
    let (size, tail) =
      frame_inj (length x) (length m) (x ++ (stream 2 xs ++ raw o)) (m ++ stream 2 ms) e' in
    let (same, rest) = append_inj x m (stream 2 xs ++ raw o) (stream 2 ms) size tail in
    ap₂ ◌∷◌ same (cut_once xs ms o w rest)

-- What `lpack` makes of the messages, one after the other; `none` if one is too long.
abbrev pub packed : List (List ℕ) → Option (List ℕ)
packed [] = some []
packed (m ∷ ms) = pack m >>= λ p. packed ms >>= λ rest. some (p ++ rest)

-- A packet of `lpack` is a frame.
pack-fits : (m : List ℕ) → length m < 2 ^ 16 → pack m ≡ some (frame 2 m)
unfolding pack
pack-fits m h =
    let n = length m in
    let low : bit_and n (2 ^ 8 - 1) ≡ n % 2 ^ 8 = bit_and-mask 8 n in
    let high : bit_and (n / 2 ^ 8) (2 ^ 8 - 1) ≡ n / 2 ^ 8 =
      omega (arith, bit_and-mask 8 (n / 2 ^ 8)) in
    rw (lt→leb (2 ^ 16) n h) (ap₂ (λ a b. some (a ∷ b ∷ m)) high low)

pack-long : (m : List ℕ) → 2 ^ 16 ≤ length m → pack m ≡ none
unfolding pack
pack-long m h = rw (le→leb (2 ^ 16) (length m) h) refl

packed-stream : (ms : List (List ℕ)) {bytes : List ℕ} → packed ms ≡ some bytes → bytes ≡ stream 2 ms
packed-stream [] e = sym (some_inj e)
packed-stream (m ∷ ms) {bytes} e = elim (dec_lt (length m) (2 ^ 16)) [
  | no long ↦ absurd (ne_none (rw (pack-long m (omega (arith, long)), ◌>>=◌) at e))
  | yes fits ↦ elim (Option-cases (packed ms)) [
    | inl short ↦ absurd (ne_none (rw (pack-fits m fits, ◌>>=◌) at (rw (short, ◌>>=◌) at e)))
    | inr (rest, f) ↦
        let e' : some (frame 2 m ++ rest) ≡ some bytes =
          rw (pack-fits m fits, ◌>>=◌) at (rw (f, ◌>>=◌) at e) in
        sym (some_inj e') ∙ ap (λ xs. frame 2 m ++ xs) (packed-stream ms f)
  ]
]
  where
    ne_none : {x : List ℕ} → none ≡ some x → ⊥
    ne_none p = cc

pub new_queue-Tidy : Tidy new_queue
unfolding new_queue
new_queue-Tidy = record { once = λ h. tt }

-- Where the bytes that come in at a socket are packets that `lpack` made, one after the other, but cut into
-- blocks of at least one byte and fewer than 2^30 - 1 anywhere, and mixed with the blocks of other sockets,
-- the caller gets exactly the messages that were packed, in their order.
pub receive_all-packed :
    (fd : ℕ) (blocks : List Block) (ms : List (List ℕ))
    → Regular blocks
    → packed ms ≡ some (bytes_of fd blocks)
    → (ps : List NetPack) × (q' : Queue) × (receive_all new_queue blocks ≡ some (ps, q'))
      × (of_socket fd ps ≡ ms)
unfolding new_queue
receive_all-packed fd blocks ms reg e =
    let (ps, q', run, r, t, sums) =
      receive_all_lem new_queue blocks new_queue-Represents new_queue-Tidy reg in
    (
      ps,
      q',
      run,
      cut_once (of_socket fd ps) ms (waiting q' fd) (waiting-Waits q' fd (waiting q' fd) t refl)
          (sums fd ∙ packed-stream ms e),
    )
