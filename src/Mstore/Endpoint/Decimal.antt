-- ===== src/Mstore/Endpoint/Decimal.antt =====
-- Decimal numbers, as Python writes and reads them: str(n), and int(text) of ASCII digits.
use npb.Prelude.{
  ℕ, zero, suc, ◌+◌, ◌-◌, ◌*◌, ◌/◌, ◌%◌, ◌<◌, ◌≡◌, refl, ap, ◌∙◌, ◌≢◌, inl, inr, false, ◌&&◌,
  Option, none, some, List, [], ◌∷◌, arith, ltb, leb, if◌then◌else◌, ltb→lt, Bool-cases,
}
use npb.Schema.{is_empty}

-- The digits of n in front of `rest`, with as much fuel as digits at least.
unfoldable pub decimal_loop : (fuel n : ℕ) → (rest : List ℕ) → List ℕ
decimal_loop zero n rest = rest
decimal_loop (suc fuel) n rest =
    let more = decimal_loop fuel (n / 10) ((48 + n % 10) ∷ rest) in
    if ltb n 10 then (48 + n) ∷ rest else more

-- str(n)
unfoldable pub decimal : ℕ → List ℕ
unfolding decimal_loop
decimal n = decimal_loop (suc n) n []

unfoldable pub value_from : (read : ℕ) → List ℕ → Option ℕ
value_from read [] = some read
value_from read (c ∷ cs) =
    let more = value_from (read * 10 + (c - 48)) cs in if leb 48 c && leb c 57 then more else none

-- int(cs), where `none` is a text that is not of ASCII digits alone
unfoldable pub natural : List ℕ → Option ℕ
unfolding value_from is_empty
natural cs = if is_empty cs then none else value_from 0 cs

value_from-digit :
    (read d : ℕ) (rest : List ℕ)
    → d < 10
    → value_from read ((48 + d) ∷ rest) ≡ value_from (read * 10 + d) rest
unfolding value_from
value_from-digit read d rest h =
    let digit : (48 + d) - 48 ≡ d = omega arith in rw digit (ground arith)

value_from-decimal_loop :
    (fuel n : ℕ) (rest : List ℕ)
    → n < fuel
    → value_from 0 (decimal_loop fuel n rest) ≡ value_from n rest
unfolding decimal_loop
value_from-decimal_loop zero n rest h = elim h [ ]
value_from-decimal_loop (suc fuel) n rest h = elim (Bool-cases (ltb n 10)) [
  | inl small ↦
      let same : 0 * 10 + n ≡ n = omega arith in
      rw small (value_from-digit 0 n rest (ltb→lt n 10 small) ∙ ap (λ k. value_from k rest) same)
  | inr large ↦
      let sum : n / 10 * 10 + n % 10 ≡ n = omega arith in
      let next : n / 10 < fuel = ground arith in
      rw large (
        value_from-decimal_loop fuel (n / 10) _ next
        ∙ value_from-digit (n / 10) (n % 10) rest (omega arith)
        ∙ ap (λ k. value_from k rest) sum)
]

is_empty-decimal_loop :
    (fuel n : ℕ) (c : ℕ) (rest : List ℕ) → is_empty (decimal_loop fuel n (c ∷ rest)) ≡ false
unfolding decimal_loop is_empty
is_empty-decimal_loop zero n c rest = refl
is_empty-decimal_loop (suc fuel) n c rest =
    ground (arith, is_empty-decimal_loop fuel (n / 10) (48 + n % 10) (c ∷ rest))

pub is_empty-decimal : (n : ℕ) → is_empty (decimal n) ≡ false
unfolding decimal is_empty decimal_loop
is_empty-decimal n = ground (arith, is_empty-decimal_loop n (n / 10) (48 + n % 10) [])

value_from-decimal : (n : ℕ) → value_from 0 (decimal n) ≡ some n
unfolding decimal value_from
value_from-decimal n = value_from-decimal_loop (suc n) n [] (omega arith)

-- What str wrote is read back by int.
pub natural-decimal : (n : ℕ) → natural (decimal n) ≡ some n
unfolding natural
natural-decimal n = rw (is_empty-decimal n) (value_from-decimal n)

-- No character of a text is c.
abbrev pub Lacks : (c : ℕ) → List ℕ → Type 0
Lacks c [] = Unit
Lacks c (d ∷ ds) = (d ≢ c) × Lacks c ds

Lacks-decimal_loop :
    (fuel n : ℕ) (rest : List ℕ) → Lacks 58 rest → Lacks 58 (decimal_loop fuel n rest)
unfolding decimal_loop
Lacks-decimal_loop zero n rest h = h
Lacks-decimal_loop (suc fuel) n rest h = elim (Bool-cases (ltb n 10)) [
  | inl small ↦ rw small (ground arith, h)
  | inr large ↦ rw large (Lacks-decimal_loop fuel (n / 10) _ (omega arith, h))
]

-- A decimal number has no colon.
pub decimal-Lacks : (n : ℕ) → Lacks 58 (decimal n)
unfolding decimal
decimal-Lacks n = Lacks-decimal_loop (suc n) n [] tt
