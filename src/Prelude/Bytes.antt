-- ===== src/Prelude/Bytes.antt =====
-- Byte strings as lists of numbers below 256: slices, equality, little-endian words.
use Prim.Native.Nat.{ℕ, zero, suc, ◌+◌, ◌*◌, ◌/◌, ◌%◌, ◌^◌, ◌<◌}
use Prim.Native.Nat.add
use mathlib.Core.Path.{◌≡◌, refl, ap}
use mathlib.Core.Logic.{◌↔◌}
use mathlib.Core.Bool.{Bool, true, false, ◌&&◌}
use mathlib.Core.List.{List, [], ◌∷◌, ◌++◌, append_assoc}
use native.Mathlib.Nat.{add-zero}
use native.Mathlib.Omega.{arith}
use mathlib.Core.Option.{some}
use npb.Prelude.Tests.{◌==◌}
use npb.Prelude.Lists.{length, get_elem?, take, drop, replicate, length-replicate}

-- b[lo : lo + n]
abbrev pub slice {ℓ} : {A : Type ℓ} → List A → ℕ → ℕ → List A
slice b lo n = take n (drop lo b)

pub list_eq : List ℕ → List ℕ → Bool
list_eq [] [] = true
list_eq (x ∷ xs) (y ∷ ys) = x == y && list_eq xs ys
list_eq _ _ = false

pub list_eq_sound : (xs ys : List ℕ) → list_eq xs ys ≡ true → xs ≡ ys
unfolding list_eq
list_eq_sound [] [] h = refl
list_eq_sound [] (y ∷ ys) h = cc
list_eq_sound (x ∷ xs) [] h = cc
list_eq_sound (x ∷ xs) (y ∷ ys) h = ground (arith, list_eq_sound xs ys)

pub list_eq_refl : (xs : List ℕ) → list_eq xs xs ≡ true
unfolding list_eq
list_eq_refl [] = refl
list_eq_refl (x ∷ xs) = ground (arith, list_eq_refl xs)

pub list_eq_iff : (xs ys : List ℕ) → (list_eq xs ys ≡ true) ↔ (xs ≡ ys)
list_eq_iff xs ys = (list_eq_sound xs ys, λ e. rw e (list_eq_refl ys))

-- The low `w` bytes of `n`, lowest first.
unfoldable pub le : ℕ → ℕ → List ℕ
le zero n = []
le (suc w) n = (n % 256) ∷ le w (n / 256)

abbrev pub from_le : List ℕ → ℕ
from_le [] = 0
from_le (b ∷ bs) = b + 256 * from_le bs

pub length-le : (w n : ℕ) → length (le w n) ≡ w
unfolding le
length-le zero n = refl
length-le (suc w) n = ap suc (length-le w (n / 256))

pub from_le-le : (w n : ℕ) → n < 256 ^ w → from_le (le w n) ≡ n
unfolding le
from_le-le zero n h = omega arith
from_le-le (suc w) n h = omega (arith, from_le-le w (n / 256) (omega arith))

module _ {ℓ} {A : Type ℓ} where
  pub take-append_length : (xs ys : List A) (n : ℕ) → length xs ≡ n → take n (xs ++ ys) ≡ xs
  take-append_length [] ys zero h = refl
  take-append_length [] ys (suc n) h = absurd (omega arith)
  take-append_length (x ∷ xs) ys zero h = absurd (omega arith)
  take-append_length (x ∷ xs) ys (suc n) h =
      ap (λ t. x ∷ t) (take-append_length xs ys n (omega arith))

  pub drop-append_length :
      (xs ys : List A) (n m : ℕ) → length xs ≡ n → drop (n + m) (xs ++ ys) ≡ drop m ys
  drop-append_length [] ys zero m h = rw add.zero refl
  drop-append_length [] ys (suc n) m h = absurd (omega arith)
  drop-append_length (x ∷ xs) ys zero m h = absurd (omega arith)
  drop-append_length (x ∷ xs) ys (suc n) m h =
      rw (add.suc n m) (drop-append_length xs ys n m (omega arith))

  -- The bytes that stand between `lo` others and the rest.
  pub slice-append :
      (xs ys zs : List A) (lo n : ℕ)
      → length xs ≡ lo
      → length ys ≡ n
      → slice (xs ++ (ys ++ zs)) lo n ≡ ys
  slice-append xs ys zs lo n p q =
      rw (← add-zero lo, drop-append_length xs (ys ++ zs) lo 0 p) (take-append_length ys zs n q)

-- b"".join(parts)
abbrev pub join {ℓ} : {A : Type ℓ} → List (List A) → List A
join [] = []
join (p ∷ ps) = p ++ join ps

-- Where part `i` begins.
abbrev pub offset_of {ℓ} : {A : Type ℓ} → List (List A) → ℕ → ℕ
offset_of [] i = 0
offset_of (p ∷ ps) zero = 0
offset_of (p ∷ ps) (suc i) = length p + offset_of ps i

module _ {ℓ} {A : Type ℓ} where
  -- The slice at a part's place and of its length is that part.
  pub slice-join :
      (ps : List (List A)) (i : ℕ) {p : List A} (rest : List A) (lo n : ℕ)
      → get_elem? ps i ≡ some p
      → offset_of ps i ≡ lo
      → length p ≡ n
      → slice (join ps ++ rest) lo n ≡ p
  slice-join [] i rest lo n g o l = cc
  slice-join (q ∷ qs) zero {p} rest lo n g o l =
      let e : q ≡ p = cc in rw (append_assoc, ← o, e) (take-append_length p (join qs ++ rest) n l)
  slice-join (q ∷ qs) (suc i) rest lo n g o l =
      rw
        (append_assoc, ← o, drop-append_length q (join qs ++ rest) (length q) (offset_of qs i) refl)
        (slice-join qs i rest (offset_of qs i) n g refl l)

abbrev pub zeros : ℕ → List ℕ
zeros n = replicate n 0

pub length-zeros : (n : ℕ) → length (zeros n) ≡ n
length-zeros n = length-replicate n 0
