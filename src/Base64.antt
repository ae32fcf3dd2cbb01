-- ===== src/Base64.antt =====
-- lualib-src/lua-crypt.c: the base64 text of a string of bytes, and the reader of such text.
pub mod Digits
pub mod Groups
pub mod Roundtrip
mod Tests
use Prim.Native.Nat.{bit_and, bit_or}
use m2_server.Common.{
  ℕ, zero, suc, ◌+◌, ◌-◌, ◌*◌, ◌/◌, ◌%◌, ◌^◌, Bool, true, false, Option, none, some, List, [], ◌∷◌,
  ◌++◌, ltb, leb, ◌==◌, ◌||◌, not, if◌then◌else◌, length, get_or, ◌>>=◌,
}

-- The string `encoding`, as character codes.
abbrev pub encoding : List ℕ
encoding =
    65 ∷ 66 ∷ 67 ∷ 68 ∷ 69 ∷ 70 ∷ 71 ∷ 72 ∷ 73 ∷ 74 ∷ 75 ∷ 76 ∷ 77 ∷ 78 ∷ 79 ∷ 80 ∷ 81 ∷ 82 ∷ 83
    ∷ 84 ∷ 85 ∷ 86 ∷ 87 ∷ 88 ∷ 89 ∷ 90 ∷ 97 ∷ 98 ∷ 99 ∷ 100 ∷ 101 ∷ 102 ∷ 103 ∷ 104 ∷ 105 ∷ 106
    ∷ 107 ∷ 108 ∷ 109 ∷ 110 ∷ 111 ∷ 112 ∷ 113 ∷ 114 ∷ 115 ∷ 116 ∷ 117 ∷ 118 ∷ 119 ∷ 120 ∷ 121 ∷ 122
    ∷ 48 ∷ 49 ∷ 50 ∷ 51 ∷ 52 ∷ 53 ∷ 54 ∷ 55 ∷ 56 ∷ 57 ∷ 43 ∷ 47 ∷ []

unfoldable pub digit : ℕ → ℕ
digit v = get_or encoding v 0

-- The character `=`.
abbrev pub equals : ℕ
equals = 61

-- The loop of `lb64encode`, three bytes a round, and its last round for one or two bytes.
unfoldable pub encode : List ℕ → List ℕ
unfolding digit
encode [] = []
encode (a ∷ []) = digit (a / 2 ^ 2) ∷ digit (bit_and a 3 * 2 ^ 4) ∷ equals ∷ equals ∷ []
encode (a ∷ b ∷ []) =
    let v = bit_or (a * 2 ^ 8) b in
    digit (v / 2 ^ 10) ∷ digit (bit_and (v / 2 ^ 4) 63) ∷ digit (bit_and v 15 * 2 ^ 2) ∷ equals ∷ []
encode (a ∷ b ∷ c ∷ text) =
    let v = bit_or (bit_or (a * 2 ^ 16) (b * 2 ^ 8)) c in
    digit (v / 2 ^ 18)
    ∷ digit (bit_and (v / 2 ^ 12) 63)
    ∷ digit (bit_and (v / 2 ^ 6) 63)
    ∷ digit (bit_and v 63)
    ∷ encode text

-- -1 and -2 of the table `decoding`.
abbrev pub unknown : ℕ
unknown = 64

abbrev pub pad : ℕ
pad = 65

-- The table `decoding`, from the character code 43 on.
abbrev pub decoding : List ℕ
decoding =
    62 ∷ 64 ∷ 64 ∷ 64 ∷ 63 ∷ 52 ∷ 53 ∷ 54 ∷ 55 ∷ 56 ∷ 57 ∷ 58 ∷ 59 ∷ 60 ∷ 61 ∷ 64 ∷ 64 ∷ 64 ∷ 65
    ∷ 64 ∷ 64 ∷ 64 ∷ 0 ∷ 1 ∷ 2 ∷ 3 ∷ 4 ∷ 5 ∷ 6 ∷ 7 ∷ 8 ∷ 9 ∷ 10 ∷ 11 ∷ 12 ∷ 13 ∷ 14 ∷ 15 ∷ 16 ∷ 17
    ∷ 18 ∷ 19 ∷ 20 ∷ 21 ∷ 22 ∷ 23 ∷ 24 ∷ 25 ∷ 64 ∷ 64 ∷ 64 ∷ 64 ∷ 64 ∷ 64 ∷ 26 ∷ 27 ∷ 28 ∷ 29 ∷ 30
    ∷ 31 ∷ 32 ∷ 33 ∷ 34 ∷ 35 ∷ 36 ∷ 37 ∷ 38 ∷ 39 ∷ 40 ∷ 41 ∷ 42 ∷ 43 ∷ 44 ∷ 45 ∷ 46 ∷ 47 ∷ 48 ∷ 49
    ∷ 50 ∷ 51 ∷ []

-- `b64index`, also past the end of the table.
unfoldable pub b64index : ℕ → ℕ
b64index c = if ltb c 43 then unknown else get_or decoding (c - 43) unknown

-- The next character that stands in the table; `none` is the error at the end of the text.
unfoldable pub read_code : List ℕ → Option (ℕ × List ℕ)
unfolding b64index
read_code [] = none
read_code (x ∷ text) =
    let later = read_code text in if b64index x == unknown then later else some (b64index x, text)

-- The inner loop of `lb64decode`: four codes.
unfoldable pub read_group : List ℕ → Option (ℕ × ℕ × ℕ × ℕ × List ℕ)
unfolding read_code
read_group text = do
  r ← read_code text
  r' ← read_code r.1
  r'' ← read_code r'.1
  r''' ← read_code r''.1
  some (r.0, r'.0, r''.0, r'''.0, r'''.1)

abbrev pub is_pad : ℕ → ℕ
is_pad c = if c == pad then 1 else 0

-- The `switch` on the number of `=` in a group; a byte keeps the low bits of what is stored in it.
unfoldable pub group_bytes : ℕ → ℕ → ℕ → ℕ → Option (List ℕ)
group_bytes c0 c1 c2 c3 =
    let padding = is_pad c0 + is_pad c1 + is_pad c2 + is_pad c3 in
    let three = bit_or (bit_or (bit_or (c0 * 2 ^ 18) (c1 * 2 ^ 12)) (c2 * 2 ^ 6)) c3 in
    let two = bit_or (bit_or (c0 * 2 ^ 10) (c1 * 2 ^ 4)) (c2 / 2 ^ 2) in
    let one = bit_or (c0 * 2 ^ 2) (c1 / 2 ^ 4) in
    if padding == 0
    then some (three / 2 ^ 16 % 256 ∷ bit_and (three / 2 ^ 8) 255 ∷ bit_and three 255 ∷ [])
    else if padding == 1
    then (if not (c3 == pad) || not (bit_and c2 3 == 0)
        then none
        else some (two / 2 ^ 8 % 256 ∷ bit_and two 255 ∷ []))
    else if padding == 2
    then (if not (c3 == pad) || not (c2 == pad) || not (bit_and c1 15 == 0)
        then none
        else some (one % 256 ∷ []))
    else none

-- The outer loop of `lb64decode`.
unfoldable pub decode_loop : ℕ → List ℕ → Option (List ℕ)
unfolding read_group group_bytes
decode_loop zero text = none
decode_loop (suc fuel) [] = some []
decode_loop (suc fuel) (x ∷ text) = read_group (x ∷ text) >>= λ (c0, c1, c2, c3, rest).
    group_bytes c0 c1 c2 c3 >>= λ bytes. decode_loop fuel rest >>= λ more. some (bytes ++ more)

-- `lb64decode`; each round reads at least four characters.
unfoldable pub decode : List ℕ → Option (List ℕ)
unfolding decode_loop
decode text = decode_loop (suc (length text)) text
