-- ===== src/Common/Faults.antt =====
-- C code that may fault: `none` stands for a failed `assert`, a read of memory that was never
-- written, an access out of bounds, or a signed overflow.
use Prim.Native.Nat.{ℕ, ◌<◌}
use mathlib.Core.Path.{◌≡◌, refl}
use mathlib.Core.Bool.{Bool, true, false}
use mathlib.Core.Option.{Option, none, some}
use mathlib.Core.List.{List}
use m2_server.Common.Tests.{ltb, if◌then◌else◌, lt→ltb}
use m2_server.Common.Lists.{length, set}

infixl 5 ◌>>=◌ ◌>>◌
abbrev pub ◌>>=◌ {ℓ κ} : {A : Type ℓ} {B : Type κ} → Option A → (A → Option B) → Option B
none >>= f = none
some a >>= f = f a

abbrev pub ◌>>◌ {ℓ} : {B : Type ℓ} → Option (Unit {0}) → Option B → Option B
m >> k = m >>= λ _. k

-- `assert`
abbrev pub assert : Bool → Option (Unit {0})
assert true = some tt
assert false = none

-- `xs[i] = v`, which faults past the end of the array.
abbrev pub store {ℓ} : {A : Type ℓ} → List A → ℕ → A → Option (List A)
store xs i v = if ltb i (length xs) then some (set xs i v) else none

pub store-eq {ℓ} :
    {A : Type ℓ} (xs : List A) (i : ℕ) (v : A) → i < length xs → store xs i v ≡ some (set xs i v)
store-eq xs i v h = ap_if (lt→ltb i (length xs) h)
  where
    ap_if : ltb i (length xs) ≡ true → store xs i v ≡ some (set xs i v)
    ap_if e = rw e refl
