-- ===== src/Base64/Tests.antt =====
-- "Man", "Ma" and "M" in base64, text with a character that is skipped, and errors.
use m2_server.Common.{ℕ, ◌≡◌, refl, arith, none, some, List, [], ◌∷◌}
use m2_server.Base64.{
  digit, encode, b64index, read_code, read_group, group_bytes, decode_loop, decode,
}
use m2_server.Base64.Roundtrip.{decode-encode}

abbrev man : List ℕ
man = 77 ∷ 97 ∷ 110 ∷ []

encode-man : encode man ≡ 84 ∷ 87 ∷ 70 ∷ 117 ∷ []
unfolding encode digit
encode-man = refl

encode-ma : encode (77 ∷ 97 ∷ []) ≡ 84 ∷ 87 ∷ 69 ∷ 61 ∷ []
unfolding encode digit
encode-ma = refl

-- A line break inside a group is skipped.
decode-line_break : decode (84 ∷ 87 ∷ 10 ∷ 70 ∷ 117 ∷ []) ≡ some man
unfolding decode decode_loop read_group read_code b64index group_bytes
decode-line_break = refl

-- A line break behind the last group is an error.
decode-last_line_break : decode (84 ∷ 87 ∷ 70 ∷ 117 ∷ 10 ∷ []) ≡ none
unfolding decode decode_loop read_group read_code b64index group_bytes
decode-last_line_break = refl

-- Bits that no byte takes must be 0.
decode-stray_bits : decode (84 ∷ 87 ∷ 70 ∷ 61 ∷ []) ≡ none
unfolding decode decode_loop read_group read_code b64index group_bytes
decode-stray_bits = refl

decode-encode_example : decode (encode (77 ∷ 97 ∷ 110 ∷ 255 ∷ [])) ≡ some (77 ∷ 97 ∷ 110 ∷ 255 ∷ [])
decode-encode_example =
    decode-encode (77 ∷ 97 ∷ 110 ∷ 255 ∷ [])
      (omega arith, (omega arith, (omega arith, (omega arith, tt))))
