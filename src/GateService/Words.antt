-- ===== src/GateService/Words.antt =====
-- service-src/service_gate.c: the text of commands in memory. A string is given by the bytes from its
-- first on; it ends at the first 0, or where the bytes end.
use m2_server.Common.{
  ℕ, zero, suc, ◌+◌, ◌-◌, ◌*◌, ◌%◌, ◌^◌, Bool, true, false, Option, none, some, List, [], ◌∷◌, ◌++◌,
  ltb, leb, ◌==◌, ◌&&◌, ◌||◌, if◌then◌else◌, length, drop, min, ◌>>=◌,
}

abbrev pub space : ℕ
space = b' '

-- The string that the bytes begin with.
abbrev pub c_string : List ℕ → List ℕ
c_string [] = []
c_string (c ∷ cs) = if c == 0 then [] else c ∷ c_string cs

-- The loop of `_ctrl` over the first word: the number of bytes before the first space.
unfoldable pub word_end : List ℕ → ℕ
word_end [] = 0
word_end (c ∷ cs) = if c == space then 0 else suc (word_end cs)

-- `memcmp(a, b, n) == 0`, where the bytes `behind` stand in memory behind the array `b`: all `n` bytes of
-- both are compared. To read `a` past its end is a fault.
unfoldable pub memcmp_eq : ℕ → List ℕ → List ℕ → (ℕ → ℕ) → Option Bool
memcmp_eq zero as' bs behind = some true
memcmp_eq (suc n) [] bs behind = none
memcmp_eq (suc n) (a ∷ as') [] behind =
    memcmp_eq n as' [] (λ j. behind (suc j)) >>= λ same. some (a == behind 0 && same)
memcmp_eq (suc n) (a ∷ as') (b ∷ bs) behind =
    memcmp_eq n as' bs behind >>= λ same. some (a == b && same)

abbrev pub drop_spaces : List ℕ → List ℕ
drop_spaces [] = []
drop_spaces (c ∷ cs) = if c == space then drop_spaces cs else c ∷ cs

-- `_parm`: the bytes behind the command move to the front of the array and a 0 follows them; behind it
-- is what the array held there.
unfoldable pub parm : List ℕ → ℕ → List ℕ
parm msg command_sz =
    let moved = drop_spaces (drop command_sz msg) in
    moved ++ 0 ∷ drop (length moved + 1) (msg ++ 0 ∷ [])

-- `strsep(&s, " ")`: the string at `s`, whose first space is overwritten by 0, and the string behind
-- that, or `none` where there is no space.
unfoldable pub strsep : List ℕ → List ℕ × Option (List ℕ)
strsep [] = ([], none)
strsep (c ∷ cs) =
    let (token, rest) = strsep cs in
    if c == 0 then (c ∷ cs, none) else if c == space then (0 ∷ cs, some cs) else (c ∷ token, rest)

-- `isspace`
abbrev pub is_space : ℕ → Bool
is_space c = c == space || (leb 9 c && leb c 13)

abbrev pub skip_blanks : List ℕ → List ℕ
skip_blanks [] = []
skip_blanks (c ∷ cs) = if is_space c then skip_blanks cs else c ∷ cs

-- A sign in front of a number, true for minus, and what follows it.
abbrev pub sign : List ℕ → Bool × List ℕ
sign [] = (false, [])
sign (c ∷ cs) = if c == b'-' then (true, cs) else if c == b'+' then (false, cs) else (false, c ∷ cs)

-- The value of a digit, 16 where it is none.
abbrev pub digit_value : ℕ → ℕ
digit_value c =
    if leb b'0' c && leb c b'9'
    then c - b'0'
    else if leb b'a' c && leb c b'f'
    then c - b'a' + 10
    else if leb b'A' c && leb c b'F'
    then c - b'A' + 10
    else 16

-- The value of the digits in front.
abbrev pub digits : ℕ → ℕ → List ℕ → ℕ
digits base acc [] = acc
digits base acc (c ∷ cs) =
    if ltb (digit_value c) base then digits base (acc * base + digit_value c) cs else acc

-- `strtol(s, NULL, 10)` as an `int`: a `long` has 64 bits, and a value out of its range is cut to it.
unfoldable pub strtol : List ℕ → ℕ
strtol s =
    let (negative, ds) = sign (skip_blanks s) in
    let v = digits 10 0 ds in
    if negative then (2 ^ 32 - min v (2 ^ 63) % 2 ^ 32) % 2 ^ 32 else min v (2 ^ 63 - 1) % 2 ^ 32

-- The prefix 0x of a hexadecimal number.
abbrev pub skip_prefix : List ℕ → List ℕ
skip_prefix (c ∷ x ∷ cs) = if c == b'0' && (x == b'x' || x == b'X') then cs else c ∷ x ∷ cs
skip_prefix (c ∷ []) = c ∷ []
skip_prefix [] = []

-- `strtoul(s, NULL, 16)` as a `uint32_t`: a value out of the range of 64 bits is the largest.
unfoldable pub strtoul : List ℕ → ℕ
strtoul s =
    let (negative, ds) = sign (skip_blanks s) in
    let v = digits 16 0 (skip_prefix ds) in
    if leb (2 ^ 64) v
    then 2 ^ 32 - 1
    else if negative
    then (2 ^ 64 - v) % 2 ^ 64 % 2 ^ 32
    else v % 2 ^ 32
