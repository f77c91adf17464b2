-- ===== src/Codec/Encode/Splice.antt =====
-- Slice writes of src/npb/_codec.py behind a known prefix of the buffer.
use npb.Prelude.{
  ℕ, zero, suc, ◌+◌, ◌-◌, ◌≤◌, min, ◌≡◌, refl, sym, ap, ◌∙◌, List, [], ◌∷◌, ◌++◌, arith, ==_iff,
  length, length-append, take, drop, replicate, length-drop, take-append_length, drop-append_length,
  zeros, length-zeros, take-append_length, drop-append_length,
}
use Prim.Native.Nat.add
use npb.Errors.{ok}
use npb.Codec.Encode.{assign, fill_zero}

take-append_at : (xs ys : List ℕ) (n : ℕ) → n ≡ length xs → take n (xs ++ ys) ≡ xs
take-append_at xs ys n h = take-append_length xs ys n (sym h)

pub drop-append_at : (xs ys : List ℕ) (n m : ℕ) → n ≡ length xs + m → drop n (xs ++ ys) ≡ drop m ys
drop-append_at xs ys n m h = rw h (drop-append_length xs ys (length xs) m refl)

drop-nil : (n : ℕ) → drop {A = ℕ} n [] ≡ []
drop-nil zero = refl
drop-nil (suc n) = refl

pub drop-drop : (n m : ℕ) (xs : List ℕ) → drop n (drop m xs) ≡ drop (m + n) xs
drop-drop n zero xs = rw add.zero
drop-drop n (suc m) [] = drop-nil n ∙ sym (drop-nil (suc m + n))
drop-drop n (suc m) (x ∷ xs) = drop-drop n m xs ∙ ap (λ k. drop k (x ∷ xs)) (sym (add.suc m n))

pub assign-append :
    (known junk src : List ℕ) (lo : ℕ)
    → lo ≡ length known
    → length src ≤ length junk
    → assign (known ++ junk) lo (lo + length src) src
      ≡ ok (known ++ (src ++ drop (length src) junk))
unfolding assign
assign-append known junk src lo at room =
    let whole : lo + length src ≤ length (known ++ junk) =
      omega (arith, length-append known junk) in
    let top : min (lo + length src) (length (known ++ junk)) ≡ lo + length src = omega arith in
    let bottom : min lo (lo + length src) ≡ lo = omega arith in
    let size : lo + length src - lo ≡ length src = omega arith in
    rw (
      top,
      bottom,
      size,
      (==_iff (length src) (length src)).1 refl,
      take-append_at known junk lo at,
      drop-append_at known junk (lo + length src) (length src) (ap (λ t. t + length src) at),
    )

pub fill_zero-append :
    (known junk : List ℕ) (lo hi n : ℕ)
    → lo ≡ length known
    → hi ≡ lo + n
    → n ≤ length junk
    → fill_zero (known ++ junk) lo hi ≡ known ++ (replicate n 0 ++ drop n junk)
unfolding fill_zero
fill_zero-append known junk lo hi n at to room =
    let whole : hi ≤ length (known ++ junk) = omega (arith, length-append known junk) in
    let top : min hi (length (known ++ junk)) ≡ hi = omega arith in
    let bottom : min lo hi ≡ lo = omega arith in
    let size : hi - lo ≡ n = omega arith in
    rw (
      top,
      bottom,
      size,
      take-append_at known junk lo at,
      drop-append_at known junk hi n (to ∙ ap (λ t. t + n) at),
    )

pub drop-append_le : (n : ℕ) (xs ys : List ℕ) → n ≤ length xs → drop n (xs ++ ys) ≡ drop n xs ++ ys
drop-append_le zero xs ys h = refl
drop-append_le (suc n) [] ys h = absurd (omega arith)
drop-append_le (suc n) (x ∷ xs) ys h = drop-append_le n xs ys (omega arith)

drop-zeros : (n m : ℕ) → drop n (zeros m) ≡ zeros (m - n)
drop-zeros zero m = let same : m ≡ m - 0 = omega arith in ap zeros same
drop-zeros (suc n) zero = let none_left : 0 ≡ 0 - suc n = omega arith in ap zeros none_left
drop-zeros (suc n) (suc m) =
    let same : m - n ≡ suc m - suc n = omega arith in drop-zeros n m ∙ ap zeros same

-- The zeros that are left of `m` behind `n` written bytes.
pub drop-zeros-append :
    (n m : ℕ) (junk : List ℕ) → n ≤ m → drop n (zeros m ++ junk) ≡ zeros (m - n) ++ junk
drop-zeros-append n m junk h =
    drop-append_le n (zeros m) junk (omega (arith, length-zeros m))
    ∙ ap (λ t. t ++ junk) (drop-zeros n m)

length-eq-zero : (xs : List ℕ) → length xs ≡ 0 → xs ≡ []
length-eq-zero [] h = refl
length-eq-zero (x ∷ xs) h = absurd (omega arith)

pub drop-all : (n : ℕ) (xs : List ℕ) → length xs ≤ n → drop n xs ≡ []
drop-all n xs h = length-eq-zero (drop n xs) (omega (arith, length-drop n xs))
