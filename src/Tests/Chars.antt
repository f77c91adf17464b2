-- ===== src/Tests/Chars.antt =====
-- Characters from their numbers.
use Prim.Native.Char.{Char, char, code, nul, IsLt}
use Prim.Native.Nat.{Ordering, compare}
use Prim.Native.Char
use text.Mathlib.TextEquality.{Char-path}
use npb.Prelude.{ℕ, ◌≡◌, refl}

abbrev IsBoth : Ordering → Ordering → Type 0
IsBoth Ordering.lt o = IsLt o
IsBoth Ordering.eq _ = ⊥
IsBoth Ordering.gt _ = ⊥

abbrev IsScalar : Ordering → Ordering → Ordering → Type 0
IsScalar Ordering.lt _ _ = Unit
IsScalar Ordering.eq o p = IsBoth o p
IsScalar Ordering.gt o p = IsBoth o p

IsLt-dec : (o : Ordering) → Dec (IsLt o)
IsLt-dec Ordering.lt = yes tt
IsLt-dec Ordering.eq = no (λ h. h)
IsLt-dec Ordering.gt = no (λ h. h)

IsBoth-dec : (o p : Ordering) → Dec (IsBoth o p)
IsBoth-dec Ordering.lt p = IsLt-dec p
IsBoth-dec Ordering.eq p = no (λ h. h)
IsBoth-dec Ordering.gt p = no (λ h. h)

IsScalar-dec : (o p q : Ordering) → Dec (IsScalar o p q)
IsScalar-dec Ordering.lt p q = yes tt
IsScalar-dec Ordering.eq p q = IsBoth-dec p q
IsScalar-dec Ordering.gt p q = IsBoth-dec p q

from_dec : (n : ℕ) → Dec (Char.IsScalar n) → Char
from_dec n (yes p) = char n p
from_dec n (no r) = nul

-- The character of a number, or U+0000.
unfoldable pub of_code : ℕ → Char
unfolding from_dec IsScalar-dec IsBoth-dec IsLt-dec
of_code n = from_dec n (IsScalar-dec (compare n 55296) (compare 57343 n) (compare n 1114112))

from_dec-code : (n : ℕ) (p : Char.IsScalar n) (d : Dec (Char.IsScalar n)) → from_dec n d ≡ char n p
unfolding from_dec
from_dec-code n p (yes q) = Char-path (char n q) (char n p) refl
from_dec-code n p (no r) = absurd (r p)

pub of_code-code : (c : Char) → of_code (code c) ≡ c
unfolding of_code
of_code-code (char n p) = from_dec-code n p _
