-- ===== src/Hex/Tests.antt =====
-- The bytes 0, 171 and 255, and text that is no hexadecimal number.
use m2_server.Common.{◌≡◌, refl, arith, none, some, [], ◌∷◌}
use m2_server.Hex.{tohex, hex_value, fromhex_loop, fromhex, fromhex-tohex}

tohex-run : tohex (171 ∷ []) ≡ 97 ∷ 98 ∷ []
unfolding tohex
tohex-run = refl

-- The text "0g" is read as the byte 16, although `g` is no hexadecimal digit.
fromhex-g : fromhex (48 ∷ 103 ∷ []) ≡ some (16 ∷ [])
unfolding fromhex fromhex_loop hex_value
fromhex-g = refl

fromhex-h : fromhex (48 ∷ 104 ∷ []) ≡ none
unfolding fromhex fromhex_loop hex_value
fromhex-h = refl

fromhex-tohex_example : fromhex (tohex (0 ∷ 171 ∷ 255 ∷ [])) ≡ some (0 ∷ 171 ∷ 255 ∷ [])
fromhex-tohex_example =
    fromhex-tohex (0 ∷ 171 ∷ 255 ∷ []) (omega arith, (omega arith, (omega arith, tt)))
