-- ===== src/Base64/Digits.antt =====
-- The tables of base64 are inverse to each other, and the reader takes one digit at a time.
use m2_server.Common.{
  ℕ, zero, suc, ◌<◌, ◌≡◌, refl, ap, ◌∙◌, arith, Bool, true, some, List, ◌∷◌, ◌==◌, ◌&&◌, eq_of_==,
  ne→==, Bool-cases, inl, inr, ne_of_==,
}
use m2_server.Base64.{digit, equals, unknown, pad, b64index, read_code}

-- A test of every number below `n`.
abbrev pub all_below : ℕ → (ℕ → Bool) → Bool
all_below zero f = true
all_below (suc n) f = f n && all_below n f

pub all_below_lem : (n : ℕ) (f : ℕ → Bool) → all_below n f ≡ true → (v : ℕ) → v < n → f v ≡ true
all_below_lem zero f h v lt = absurd (omega arith)
all_below_lem (suc n) f h v lt = elim (Bool-cases (v == n)) [
  | inl last ↦ ap f (eq_of_== v n last) ∙ ground (arith, h)
  | inr earlier ↦ all_below_lem n f (ground (arith, h)) v (omega (arith, ne_of_== v n earlier))
]

b64index-digit : (v : ℕ) → v < 64 → b64index (digit v) ≡ v
unfolding b64index digit
b64index-digit v lt =
    eq_of_== (b64index (digit v)) v (all_below_lem 64 (λ x. b64index (digit x) == x) refl v lt)

pub read_code-digit : (v : ℕ) (text : List ℕ) → v < 64 → read_code (digit v ∷ text) ≡ some (v, text)
unfolding read_code
read_code-digit v text lt = rw (b64index-digit v lt) (rw (ne→== v unknown (omega arith)) refl)

pub read_code-equals : (text : List ℕ) → read_code (equals ∷ text) ≡ some (pad, text)
unfolding read_code b64index
read_code-equals text = refl
