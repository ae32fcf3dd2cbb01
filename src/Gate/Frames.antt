-- ===== src/Gate/Frames.antt =====
-- The stream that a client sends: each message behind its length, in two or four bytes.
use Prim.Native.Nat.{bit_or}
use m2_server.Common.{
  ℕ, ◌+◌, ◌*◌, ◌/◌, ◌%◌, ◌^◌, ◌≤◌, ◌<◌, ◌≡◌, ◌≢◌, refl, arith, ◌⊎◌, inl, inr, some, List, [], ◌∷◌,
  ◌++◌, ◌∙◌, ap, sym, length, take, drop, flatten, map, ◌==◌, if◌then◌else◌, bit_or-shift,
  length-append, take-append_le, drop-append_le, le→ltb, eq→==, take_all, drop_all, cons_inj, subst,
  length-drop,
}
use m2_server.DataBuffer.{Buffer, NodePool, header_value, fetch_header}
use m2_server.DataBuffer.Contents.{IsValid, contents, read_lem}

abbrev pub HeaderSize : ℕ → Type 0
HeaderSize h = (h ≡ 2) ⊎ (h ≡ 4)

pub header_pos : {h : ℕ} → HeaderSize h → 0 < h
header_pos (inl e) = omega arith
header_pos (inr e) = omega arith

abbrev pub header_bytes : ℕ → ℕ → List ℕ
header_bytes h n =
    if h == 2
    then n / 2 ^ 8 ∷ n % 2 ^ 8 ∷ []
    else n / 2 ^ 24 ∷ n / 2 ^ 16 % 2 ^ 8 ∷ n / 2 ^ 8 % 2 ^ 8 ∷ n % 2 ^ 8 ∷ []

abbrev pub frame : ℕ → List ℕ → List ℕ
frame h message = header_bytes h (length message) ++ message

abbrev pub stream : ℕ → List (List ℕ) → List ℕ
stream h messages = flatten (map (frame h) messages)

pub header_value-two : (n : ℕ) → n < 2 ^ 16 → header_value 2 (header_bytes 2 n) ≡ n
unfolding header_value
header_value-two n h = omega (arith, bit_or-shift 8 (n / 2 ^ 8) (n % 2 ^ 8) (omega arith))

pub header_value-four : (n : ℕ) → n < 2 ^ 24 → header_value 4 (header_bytes 4 n) ≡ n
unfolding header_value
header_value-four n h =
    let b = n / 2 ^ 16 % 2 ^ 8 in
    let c = n / 2 ^ 8 % 2 ^ 8 in
    let e : bit_or (n / 2 ^ 24 * 2 ^ 24) (b * 2 ^ 16) ≡ n / 2 ^ 16 * 2 ^ 16 =
      omega (arith, bit_or-shift 24 (n / 2 ^ 24) (b * 2 ^ 16) (omega arith)) in
    let f : bit_or (n / 2 ^ 16 * 2 ^ 16) (c * 2 ^ 8) ≡ n / 2 ^ 8 * 2 ^ 8 =
      omega (arith, bit_or-shift 16 (n / 2 ^ 16) (c * 2 ^ 8) (omega arith)) in
    let g : bit_or (n / 2 ^ 8 * 2 ^ 8) (n % 2 ^ 8) ≡ n =
      omega (arith, bit_or-shift 8 (n / 2 ^ 8) (n % 2 ^ 8) (omega arith)) in
    ap (λ x. bit_or (bit_or x (c * 2 ^ 8)) (n % 2 ^ 8)) e ∙ ap (λ x. bit_or x (n % 2 ^ 8)) f ∙ g

pub length-header_bytes : (h n : ℕ) → HeaderSize h → length (header_bytes h n) ≡ h
length-header_bytes h n (inl e) = rw e refl
length-header_bytes h n (inr e) = rw e refl

-- The number of header bytes bounds the message, and the gate refuses others.
pub record Fits (h : ℕ) (message : List ℕ) : Type 0 where
  pub some_byte : 0 < length message
  pub small : length message < 2 ^ 24
  pub short : h ≡ 2 → length message < 2 ^ 16

pub header_value-header_bytes :
    (h : ℕ) (message : List ℕ)
    → HeaderSize h
    → Fits h message
    → header_value h (header_bytes h (length message)) ≡ length message
header_value-header_bytes h message (inl e) f = rw e (header_value-two (length message) (f.short e))
header_value-header_bytes h message (inr e) f = rw e (header_value-four (length message) f.small)

-- Bytes that begin with a header, and hold it whole, split there.
pub split_header :
    (bytes rem header rest : List ℕ)
    → bytes ++ rem ≡ header ++ rest
    → length header ≤ length bytes
    → (take (length header) bytes ≡ header) × (drop (length header) bytes ++ rem ≡ rest)
split_header bytes rem header rest e h = (
  sym (take-append_le (length header) bytes rem h)
      ∙ ap (take (length header)) e
      ∙ take-append_le (length header) header rest (omega arith)
      ∙ take_all (length header) header (omega arith),
  sym (drop-append_le (length header) bytes rem h)
      ∙ ap (drop (length header)) e
      ∙ drop-append_le (length header) header rest (omega arith)
      ∙ ap (λ x. x ++ rest) (drop_all (length header) header (omega arith)),
)

-- A buffer that knows the length of the next message, before `rest` of the stream.
pub record Knows (db : Buffer) (size : ℕ) (rem : List ℕ) (rest : List ℕ) : Type 0 where
  pub valid : IsValid db
  pub header : db.header ≡ size
  pub bytes : contents db ++ rem ≡ rest

-- The header of the next message is read once all its bytes are there.
pub fetch_header_lem :
    {db : Buffer} (mp : NodePool) (h : ℕ) (message rem rest : List ℕ)
    → HeaderSize h
    → Fits h message
    → IsValid db
    → db.header ≡ 0
    → h ≤ db.size
    → contents db ++ rem ≡ header_bytes h (length message) ++ rest
    → (db' : Buffer) × (mp' : NodePool) × (fetch_header db mp h ≡ some (some (db', mp')))
      × Knows db' (length message) rem rest
      × (db'.size + h ≡ db.size)
unfolding fetch_header
fetch_header_lem {db} mp h message rem rest two f v clear enough e =
    let len = length-header_bytes h (length message) two in
    let pos : 0 < h = header_pos two in
    let (db', mp', d, r) = read_lem mp h v pos enough in
    let parts =
      split_header (contents db) rem (header_bytes h (length message)) rest e
        (omega (arith, v.counted, len)) in
    let head : take h (contents db) ≡ header_bytes h (length message) =
      ap (λ k. take k (contents db)) (sym len) ∙ parts.0 in
    (
      record db' { header = length message },
      mp',
      rw (eq→== _ _ clear) (
          rw (le→ltb db.size h enough)
            (rw d (rw head (rw (header_value-header_bytes h message two f))))),
      record {
        valid = record { counted = r.valid.counted; offset_in = r.valid.offset_in };
        header = refl;
        bytes = ap (λ x. x ++ rem) (r.left ∙ ap (λ k. drop k (contents db)) (sym len)) ∙ parts.1;
      },
      omega (arith, r.valid.counted, v.counted, ap length r.left, length-drop h (contents db)),
    )

pub header_ne_nil : {h : ℕ} → HeaderSize h → (n : ℕ) (rest : List ℕ) → header_bytes h n ++ rest ≢ []
header_ne_nil {h} two n rest e = absurd (
    omega (
      arith,
      ap length e,
      length-append (header_bytes h n) rest,
      length-header_bytes h n two,
      header_pos two,
    ))

two-inj :
    (n k : ℕ) {xs ys : List ℕ}
    → header_bytes 2 n ++ xs ≡ header_bytes 2 k ++ ys
    → (n ≡ k) × (xs ≡ ys)
two-inj n k p = let (a, p') = cons_inj p in let (b, p'') = cons_inj p' in (omega arith, p'')

four-inj :
    (n k : ℕ) {xs ys : List ℕ}
    → header_bytes 4 n ++ xs ≡ header_bytes 4 k ++ ys
    → (n ≡ k) × (xs ≡ ys)
four-inj n k p =
    let (a, p') = cons_inj p in
    let (b, p'') = cons_inj p' in
    let (c, p3) = cons_inj p'' in let (d, p4) = cons_inj p3 in (omega arith, p4)

-- The header tells the length of the message, and where it begins.
pub header_bytes-inj :
    {h : ℕ}
    → HeaderSize h
    → (n k : ℕ) {xs ys : List ℕ} → header_bytes h n ++ xs ≡ header_bytes h k ++ ys
    → (n ≡ k) × (xs ≡ ys)
header_bytes-inj (inl e) n k {xs} {ys} p =
    two-inj n k (subst (λ h. header_bytes h n ++ xs ≡ header_bytes h k ++ ys) e p)
header_bytes-inj (inr e) n k {xs} {ys} p =
    four-inj n k (subst (λ h. header_bytes h n ++ xs ≡ header_bytes h k ++ ys) e p)
