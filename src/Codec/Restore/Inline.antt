-- ===== src/Codec/Restore/Inline.antt =====
-- The inline branch of _restore_tree in src/npb/_codec.py: reading, checking and viewing one array.
use npb.Prelude.{ℕ, ◌+◌, ◌*◌, ◌%◌, not, ◌||◌, List, map, ltb, ◌==◌, ℤ, pos_part, is_negative}
use npb.Errors.{Result, ok, ◌>>=◌, ◌>>◌, raise_if, reraise, format_error}
use npb.Value.{nbytes as nbytes_of, Fields, NdArray, Dtype, product}
use npb.Externals.{Externals, to_int, iterate, to_ints}
use npb.Blob.{item_at, is_conversion_error, any_negative}

pub record RawRef : Type 0 where
  pub offset : ℤ
  pub nbytes : ℤ
  pub dtype : Dtype
  pub shape : List ℤ

module _ (ext : Externals) where
  unfoldable pub read_inline : Fields → Result RawRef
  read_inline ref = do
    rel_offset ← (do v ← item_at "offset" ref; to_int ext v)
    nbytes ← (do v ← item_at "nbytes" ref; to_int ext v)
    dtype ← (do v ← item_at "dtype" ref; ext.dtype_of v)
    shape ← (do v ← item_at "shape" ref; dims ← iterate ext v; to_ints ext dims)
    ok (record { offset = rel_offset; nbytes = nbytes; dtype = dtype; shape = shape })

-- The checks on what was read. The numbers are not negative once they are used as such.
unfoldable pub check_inline : NdArray → ℕ → ℕ → RawRef → Result (Unit {0})
check_inline binary data_start data_bytes raw = do
  raise_if (raw.dtype.hasobject || raw.dtype.structured) format_error
  raise_if (is_negative raw.offset || is_negative raw.nbytes) format_error
  raise_if (any_negative raw.shape) format_error
  let rel_offset = pos_part raw.offset
  let nbytes = pos_part raw.nbytes
  raise_if (raw.dtype.itemsize == 0 || not (nbytes % raw.dtype.itemsize == 0)) format_error
  let expected_items = product (map pos_part raw.shape)
  raise_if (not (expected_items * raw.dtype.itemsize == nbytes)) format_error
  raise_if (ltb data_bytes (rel_offset + nbytes)) format_error
  raise_if (ltb (nbytes_of binary) (data_start + rel_offset + nbytes)) format_error
  ok tt

module _ (ext : Externals) where
  -- np.frombuffer(…).reshape(shape)
  unfoldable pub view_inline : NdArray → ℕ → RawRef → Result NdArray
  view_inline binary data_start raw =
      let shape = map pos_part raw.shape in
      ext.from_buffer binary raw.dtype (product shape) (data_start + pos_part raw.offset) shape

  unfoldable pub restore_inline : NdArray → ℕ → ℕ → Fields → Result NdArray
  unfolding view_inline
  restore_inline binary data_start data_bytes ref = do
    raw ← reraise is_conversion_error format_error (read_inline ext ref)
    check_inline binary data_start data_bytes raw
    view_inline binary data_start raw
