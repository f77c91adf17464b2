-- ===== src/Format/Align.antt =====
-- align_up of src/npb/_format.py rounds up.
use npb.Prelude.{ℕ, ◌+◌, ◌-◌, ◌*◌, ◌/◌, ◌%◌, ◌≤◌, ◌<◌, ◌≡◌, arith}
use native.Mathlib.Nat.{mul-mod_left, mul-le-mul_right, div-lt_iff_lt-mul}
use npb.Format.{align_up}

-- With a positive alignment, `align_up v a` is the least multiple of `a` that is at least `v`, and
-- it is less than `a` above `v`.
pub align_up_least :
    (v a : ℕ)
    → 0 < a
    → (v ≤ align_up v a)
      × (align_up v a % a ≡ 0)
      × (align_up v a < v + a)
      × ((k : ℕ) → v ≤ k * a → align_up v a ≤ k * a)
unfolding align_up
align_up_least v a h = (
  omega arith,
  mul-mod_left ((v + a - 1) / a) a,
  omega arith,
  λ k p. mul-le-mul_right a (below k p),
)
  where
    below : (k : ℕ) → v ≤ k * a → (v + a - 1) / a ≤ k
    below k p =
        omega (arith, (div-lt_iff_lt-mul {k = a} {x = v + a - 1} {y = k + 1} h).1 (omega arith))
