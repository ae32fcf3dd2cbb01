-- ===== src/NetPack/Waiting.antt =====
-- lualib-src/lua-netpack.c: the bytes of a connection, in the packets that were cut from them and in the
-- packet that is not complete.
use m2_server.Common.{
  ℕ, zero, suc, ◌+◌, ◌*◌, ◌/◌, ◌%◌, ◌^◌, ◌<◌, ◌≡◌, ◌≢◌, refl, ap, arith, Option, none, some, List,
  [], ◌∷◌, ◌++◌, map, drop, bit_or-shift, append-nil,
}
use m2_server.Gate.Frames.{stream, header_bytes}
use m2_server.NetPack.{NetPack, Queue, Uncomplete, read_size, save_uncomplete}
use m2_server.NetPack.Ring.{Represents, Represents-hash}
use m2_server.NetPack.Chains.{Ok, Tidy, waiting, save_uncomplete_lem}

-- The bytes of an uncomplete packet that came in so far, its header with them.
abbrev pub raw_read : Option ℕ → Uncomplete → List ℕ
raw_read none uc = uc.header ∷ []
raw_read (some n) uc = header_bytes 2 uc.size ++ uc.bytes

abbrev pub raw : Option Uncomplete → List ℕ
raw none = []
raw (some uc) = raw_read uc.read uc

abbrev pub AllBytes : List ℕ → Type 0
AllBytes [] = Unit
AllBytes (b ∷ bs) = (b < 2 ^ 8) × AllBytes bs

pub AllBytes-drop : (n : ℕ) (bs : List ℕ) → AllBytes bs → AllBytes (drop n bs)
AllBytes-drop zero bs h = h
AllBytes-drop (suc n) [] h = h
AllBytes-drop (suc n) (b ∷ bs) h = AllBytes-drop n bs h.1

abbrev pub packs : ℕ → List (List ℕ) → List NetPack
packs fd = map (λ bytes. record { id = fd; bytes = bytes })

-- From the bytes `input` of the socket `fd`, the packets `direct` and then the packets `queued` were
-- cut, the latter went into the ring behind `ms`, and what is left waits in the table. Other sockets
-- keep what they had.
pub record Cuts (q : Queue) (fd : ℕ) (ms : List NetPack) (input : List ℕ)
    (direct queued : List (List ℕ)) (q' : Queue) : Type 0 where
  pub represents : Represents q' (ms ++ packs fd queued)
  pub tidy : Tidy q'
  pub others : (i : ℕ) → i ≢ fd → waiting q' i ≡ waiting q i
  pub bytes : stream 2 (direct ++ queued) ++ raw (waiting q' fd) ≡ input

pub read_size-bytes :
    (b0 b1 : ℕ)
    → b0 < 2 ^ 8
    → b1 < 2 ^ 8
    → (header_bytes 2 (read_size b0 b1) ≡ b0 ∷ b1 ∷ []) × (read_size b0 b1 < 2 ^ 16)
unfolding read_size
read_size-bytes b0 b1 h k = rw (bit_or-shift 8 b0 b1 k) (
  let e : (b0 * 2 ^ 8 + b1) / 2 ^ 8 ≡ b0 = omega arith in
      let f : (b0 * 2 ^ 8 + b1) % 2 ^ 8 ≡ b1 = omega arith in rw e (rw f refl),
  omega arith,
)

-- An uncomplete packet is put away.
pub Cuts-save :
    {q : Queue} {ms : List NetPack} (uc : Uncomplete)
    → Represents q ms
    → Tidy q
    → Ok uc
    → waiting q uc.id ≡ none
    → Cuts q uc.id ms (raw (some uc)) [] [] (save_uncomplete q uc)
unfolding save_uncomplete
Cuts-save {q} {ms} uc r t ok free =
    let (tidy, found, others) = save_uncomplete_lem q uc t ok free in
    record {
      represents = rw (append-nil ms) (Represents-hash _ r);
      tidy = tidy;
      others = others;
      bytes = ap raw found;
    }
