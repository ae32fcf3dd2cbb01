-- ===== src/Base64/Roundtrip.antt =====
-- Text that `lb64encode` wrote is read back by `lb64decode`.
use m2_server.Common.{
  ℕ, zero, suc, ◌+◌, ◌*◌, ◌/◌, ◌%◌, ◌^◌, ◌<◌, ◌≤◌, ◌≡◌, refl, ap, ap₂, ◌∙◌, arith, some, List, [],
  ◌∷◌, ◌++◌, length, bit_and-mask, bit_or-shift, ◌>>=◌,
}
use m2_server.Base64.{digit, equals, pad, encode, read_group, group_bytes, decode_loop, decode}
use m2_server.Base64.Groups.{join3, three_bytes, two_bytes, one_byte}
use m2_server.Base64.Digits.{read_code-digit}

abbrev pub Bytes : List ℕ → Type 0
Bytes [] = Unit
Bytes (b ∷ bs) = (b < 256) × Bytes bs

-- One round of the reader.
round :
    (fuel x : ℕ) (text rest bytes more : List ℕ) (c0 c1 c2 c3 : ℕ)
    → read_group (x ∷ text) ≡ some (c0, c1, c2, c3, rest)
    → group_bytes c0 c1 c2 c3 ≡ some bytes
    → decode_loop fuel rest ≡ some more
    → decode_loop (suc fuel) (x ∷ text) ≡ some (bytes ++ more)
unfolding decode_loop
round fuel x text rest bytes more c0 c1 c2 c3 e f g =
    rw (e, ◌>>=◌) (rw (f, ◌>>=◌) (rw (g, ◌>>=◌) refl))

four_digits :
    (v0 v1 v2 v3 : ℕ) (rest : List ℕ)
    → v0 < 64
    → v1 < 64
    → v2 < 64
    → v3 < 64
    → read_group (digit v0 ∷ digit v1 ∷ digit v2 ∷ digit v3 ∷ rest) ≡ some (v0, v1, v2, v3, rest)
unfolding read_group
four_digits v0 v1 v2 v3 rest h0 h1 h2 h3 =
    rw (read_code-digit v0 (digit v1 ∷ digit v2 ∷ digit v3 ∷ rest) h0, ◌>>=◌)
      (rw (read_code-digit v1 (digit v2 ∷ digit v3 ∷ rest) h1, ◌>>=◌)
        (rw (read_code-digit v2 (digit v3 ∷ rest) h2, ◌>>=◌)
          (rw (read_code-digit v3 rest h3, ◌>>=◌) refl)))

three_digits :
    (v0 v1 v2 : ℕ)
    → v0 < 64
    → v1 < 64
    → v2 < 64
    → read_group (digit v0 ∷ digit v1 ∷ digit v2 ∷ equals ∷ []) ≡ some (v0, v1, v2, pad, [])
unfolding read_group
three_digits v0 v1 v2 h0 h1 h2 =
    rw (read_code-digit v0 (digit v1 ∷ digit v2 ∷ equals ∷ []) h0, ◌>>=◌)
      (rw (read_code-digit v1 (digit v2 ∷ equals ∷ []) h1, ◌>>=◌)
        (rw (read_code-digit v2 (equals ∷ []) h2, ◌>>=◌) refl))

two_digits :
    (v0 v1 : ℕ)
    → v0 < 64
    → v1 < 64
    → read_group (digit v0 ∷ digit v1 ∷ equals ∷ equals ∷ []) ≡ some (v0, v1, pad, pad, [])
unfolding read_group
two_digits v0 v1 h0 h1 =
    rw (read_code-digit v0 (digit v1 ∷ equals ∷ equals ∷ []) h0, ◌>>=◌)
      (rw (read_code-digit v1 (equals ∷ equals ∷ []) h1, ◌>>=◌) refl)

-- What the writer makes of three, two and one bytes.
encode_three :
    (a b c : ℕ) (text : List ℕ)
    → b < 256
    → c < 256
    → encode (a ∷ b ∷ c ∷ text) ≡ (
        let v = a * 65536 + b * 256 + c in
        digit (v / 2 ^ 18)
        ∷ digit (v / 2 ^ 12 % 64)
        ∷ digit (v / 2 ^ 6 % 64)
        ∷ digit (v % 64)
        ∷ encode text)
unfolding encode
encode_three a b c text hb hc =
    let v = a * 65536 + b * 256 + c in
    rw (join3 a b c hb hc) (
      rw (bit_and-mask 6 (v / 2 ^ 12))
        (rw (bit_and-mask 6 (v / 2 ^ 6)) (rw (bit_and-mask 6 v) refl)))

encode_two :
    (a b : ℕ)
    → b < 256
    → encode (a ∷ b ∷ []) ≡ (
        let v = a * 256 + b in
        digit (v / 2 ^ 10) ∷ digit (v / 2 ^ 4 % 64) ∷ digit (v % 16 * 2 ^ 2) ∷ equals ∷ [])
unfolding encode
encode_two a b hb =
    let v = a * 256 + b in
    rw (bit_or-shift 8 a b hb) (rw (bit_and-mask 6 (v / 2 ^ 4)) (rw (bit_and-mask 4 v) refl))

encode_one :
    (a : ℕ) → encode (a ∷ []) ≡ digit (a / 2 ^ 2) ∷ digit (a % 4 * 2 ^ 4) ∷ equals ∷ equals ∷ []
unfolding encode
encode_one a = rw (bit_and-mask 2 a) refl

at_end : (fuel : ℕ) → decode_loop (suc fuel) [] ≡ some []
unfolding decode_loop
at_end fuel = refl

last_one : (fuel a : ℕ) → a < 256 → decode_loop (suc (suc fuel)) (encode (a ∷ [])) ≡ some (a ∷ [])
last_one fuel a h =
    ap (decode_loop (suc (suc fuel))) (encode_one a)
    ∙ round (suc fuel) _ _ [] (a ∷ []) [] _ _ pad pad
        (two_digits (a / 2 ^ 2) (a % 4 * 2 ^ 4) (omega arith) (omega arith)) (one_byte a h)
        (at_end fuel)

last_two :
    (fuel a b : ℕ)
    → a < 256
    → b < 256
    → decode_loop (suc (suc fuel)) (encode (a ∷ b ∷ [])) ≡ some (a ∷ b ∷ [])
last_two fuel a b ha hb =
    let v = a * 256 + b in
    let same : (v / 256 ≡ a) × (v % 256 ≡ b) = (omega arith, omega arith) in
    ap (decode_loop (suc (suc fuel))) (encode_two a b hb)
    ∙ round (suc fuel) _ _ [] (a ∷ b ∷ []) [] _ _ _ pad
        (three_digits (v / 2 ^ 10) (v / 2 ^ 4 % 64) (v % 16 * 2 ^ 2) (omega arith) (omega arith)
          (omega arith))
        (two_bytes v (omega arith) ∙ ap₂ (λ x y. some (x ∷ y ∷ [])) same.0 same.1) (at_end fuel)

next_three :
    (fuel a b c : ℕ) (text : List ℕ)
    → a < 256
    → b < 256
    → c < 256
    → decode_loop fuel (encode text) ≡ some text
    → decode_loop (suc fuel) (encode (a ∷ b ∷ c ∷ text)) ≡ some (a ∷ b ∷ c ∷ text)
next_three fuel a b c text ha hb hc ih =
    let v = a * 65536 + b * 256 + c in
    let first : v / 65536 ≡ a = omega arith in
    let second : v / 256 % 256 ≡ b = omega arith in
    let third : v % 256 ≡ c = omega arith in
    ap (decode_loop (suc fuel)) (encode_three a b c text hb hc)
    ∙ round fuel _ _ (encode text) (a ∷ b ∷ c ∷ []) text _ _ _ _
        (four_digits (v / 2 ^ 18) (v / 2 ^ 12 % 64) (v / 2 ^ 6 % 64) (v % 64) (encode text)
          (omega arith) (omega arith) (omega arith) (omega arith))
        (three_bytes v (omega arith)
          ∙ ap (λ x. some (x ∷ v / 256 % 256 ∷ v % 256 ∷ [])) first
          ∙ ap₂ (λ x y. some (a ∷ x ∷ y ∷ [])) second third)
        ih

decode_encoded :
    (fuel : ℕ) (bytes : List ℕ)
    → Bytes bytes
    → length (encode bytes) ≤ fuel
    → decode_loop (suc fuel) (encode bytes) ≡ some bytes
unfolding encode
decode_encoded fuel [] h enough = at_end fuel
decode_encoded zero (a ∷ []) h enough = absurd (omega arith)
decode_encoded (suc fuel) (a ∷ []) h enough = last_one fuel a h.0
decode_encoded zero (a ∷ b ∷ []) h enough = absurd (omega arith)
decode_encoded (suc fuel) (a ∷ b ∷ []) h enough = last_two fuel a b h.0 h.1.0
decode_encoded zero (a ∷ b ∷ c ∷ text) h enough = absurd (omega arith)
decode_encoded (suc fuel) (a ∷ b ∷ c ∷ text) h enough =
    next_three (suc fuel) a b c text h.0 h.1.0 h.1.1.0
      (decode_encoded fuel text h.1.1.1 (omega arith))

-- `lb64decode` gives back every string of bytes that `lb64encode` wrote.
pub decode-encode : (bytes : List ℕ) → Bytes bytes → decode (encode bytes) ≡ some bytes
unfolding decode
decode-encode bytes h = decode_encoded (length (encode bytes)) bytes h (omega arith)
