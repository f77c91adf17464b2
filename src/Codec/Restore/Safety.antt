-- ===== src/Codec/Restore/Safety.antt =====
-- Decoding of src/npb/_codec.py on untrusted data: what an inline reference can reach.
use npb.Prelude.{ℕ, ◌+◌, ◌*◌, ◌≤◌, ◌≡◌, slice}
use npb.Value.{NdArray, nbytes as nbytes_of, product}
use npb.Externals.{Externals, IsPlain}

-- `a` is a view of `b` between `data_start` and `data_start + data_bytes`, of a plain dtype, whose
-- size is that of its shape.
pub record IsInside (b : NdArray) (data_start data_bytes : ℕ) (a : NdArray) : Type 0 where
  pub at : ℕ
  pub plain : IsPlain a.dtype
  pub size : nbytes_of a ≡ product a.shape * a.dtype.itemsize
  pub in_section : at + nbytes_of a ≤ data_bytes
  pub in_buffer : data_start + at + nbytes_of a ≤ nbytes_of b
  pub content_eq : a.content ≡ slice b.content (data_start + at) (nbytes_of a)
