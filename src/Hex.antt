-- ===== src/Hex.antt =====
-- lualib-src/lua-crypt.c: the hexadecimal text of a string of bytes, and the reader of such text.
mod Tests
use Prim.Native.Nat.{bit_and, bit_or}
use m2_server.Common.{
  ℕ, zero, suc, ◌+◌, ◌-◌, ◌*◌, ◌/◌, ◌%◌, ◌^◌, ◌≡◌, refl, Bool, Option, none, some, List, [], ◌∷◌,
  ltb, leb, ◌==◌, ◌||◌, ◌&&◌, not, if◌then◌else◌, length, get_or, ◌>>=◌, ◌<◌, ap, sym, arith,
  bit_and-mask, bit_or-shift, le→ltb, eq_of_==, true, Bool-cases, inl, inr, ne_of_==, ◌∙◌,
}
use m2_server.Base64.Digits.{all_below, all_below_lem}
use m2_server.Base64.Roundtrip.{Bytes}

-- The array `hex`.
abbrev hex : List ℕ
hex = 48 ∷ 49 ∷ 50 ∷ 51 ∷ 52 ∷ 53 ∷ 54 ∷ 55 ∷ 56 ∷ 57 ∷ 97 ∷ 98 ∷ 99 ∷ 100 ∷ 101 ∷ 102 ∷ []

-- `ltohex`
unfoldable pub tohex : List ℕ → List ℕ
tohex [] = []
tohex (b ∷ text) = get_or hex (b / 2 ^ 4) 0 ∷ get_or hex (bit_and b 15) 0 ∷ tohex text

-- The macro `HEX`: the difference is stored in a byte, so it wraps.
unfoldable pub hex_value : ℕ → ℕ
hex_value c = if leb 48 c && leb c 57 then c - 48 else (c + 256 + 10 - 97) % 256

-- The loop of `lfromhex`, two characters a round; `none` is an error.
unfoldable pub fromhex_loop : List ℕ → Option (List ℕ)
unfolding hex_value
fromhex_loop [] = some []
fromhex_loop (x ∷ []) = none
fromhex_loop (x ∷ y ∷ text) =
    let hi = hex_value x in
    let low = hex_value y in
    let rest = fromhex_loop text in
    if ltb 16 hi || ltb 16 low
    then none
    else (rest >>= λ bytes. some (bit_or (hi * 2 ^ 4) low % 256 ∷ bytes))

-- `lfromhex`
unfoldable pub fromhex : List ℕ → Option (List ℕ)
unfolding fromhex_loop
fromhex text = if bit_and (length text) 1 == 0 then fromhex_loop text else none

hex_value-digit : (v : ℕ) → v < 16 → hex_value (get_or hex v 0) ≡ v
unfolding hex_value
hex_value-digit v lt =
    eq_of_== (hex_value (get_or hex v 0)) v
      (all_below_lem 16 (λ x. hex_value (get_or hex x 0) == x) refl v lt)

fromhex_loop-tohex : (bytes : List ℕ) → Bytes bytes → fromhex_loop (tohex bytes) ≡ some bytes
unfolding fromhex_loop tohex
fromhex_loop-tohex [] h = refl
fromhex_loop-tohex (b ∷ bytes) h =
    let hi = b / 2 ^ 4 in
    let low = b % 16 in
    let joined : bit_or (hi * 2 ^ 4) low % 256 ≡ b =
      omega (arith, bit_or-shift 4 hi low (omega arith), h.0) in
    rw (bit_and-mask 4 b) (
      rw (hex_value-digit hi (omega (arith, h.0))) (
        rw (hex_value-digit low (omega arith)) (
          rw (le→ltb 16 hi (omega (arith, h.0))) (
            rw (le→ltb 16 low (omega arith))
              (rw (fromhex_loop-tohex bytes h.1, ◌>>=◌) (ap (λ x. some (x ∷ bytes)) joined))))))

tohex_even : (bytes : List ℕ) → length (tohex bytes) % 2 ≡ 0
unfolding tohex
tohex_even [] = refl
tohex_even (b ∷ bytes) = omega (arith, tohex_even bytes)

-- `lfromhex` gives back every string of bytes that `ltohex` wrote.
pub fromhex-tohex : (bytes : List ℕ) → Bytes bytes → fromhex (tohex bytes) ≡ some bytes
unfolding fromhex
fromhex-tohex bytes h =
    rw (bit_and-mask 1 (length (tohex bytes)) ∙ tohex_even bytes) (fromhex_loop-tohex bytes h)
