-- ===== src/Blob.antt =====
-- src/npb/_blob.py: references to arrays outside a container, and the store's protocol.
pub mod RoundTrip
use npb.Prelude.{
  ℕ, ◌*◌, String, Bool, false, not, ◌||◌, none, some, List, [], ◌∷◌, map, str_eq, ◌==◌, ℤ, pos,
  negsuc, pos_part, is_negative,
}
use npb.Errors.{
  Exn, Result, ok, err, ◌>>=◌, ◌>>◌, raise_if, reraise, is_value_error, is_type_error, is_key_error,
  type_error, value_error, key_error,
}
use npb.Value.{
  Value, Fields, BlobRef, NdArray, leaf, int, list, dict, field, end, text, get, of_ints, product,
}
use npb.Externals.{Externals, to_int, to_str, iterate, to_ints}
use npb.Exec.{Exec}

-- class BlobStore(Protocol); `S` is what the store keeps.
pub record BlobStore (S : Type 0) : Type 0 where
  pub kind : String
  pub put_array : NdArray → Exec S BlobRef
  pub get_array : BlobRef → Exec S NdArray
  pub exists : BlobRef → Exec S Bool
  pub persist : BlobRef → Exec S (Unit {0})
  pub release : BlobRef → Exec S (Unit {0})
  pub delete : BlobRef → Exec S (Unit {0})

-- BlobRef.to_manifest
unfoldable pub manifest_fields : BlobRef → Fields
manifest_fields r = field "store" (text r.store) (
    field "id" (text r.object_id) (
      field "offset" (leaf (int r.offset)) (
        field "nbytes" (leaf (int r.nbytes))
          (field "dtype" (text r.dtype) (field "shape" (list (of_ints r.shape)) end)))))

abbrev pub to_manifest : BlobRef → Value
to_manifest r = dict (manifest_fields r)

-- d[k]
unfoldable pub item_at : String → Fields → Result Value
item_at k fs = elim (get k fs) [ none ↦ err key_error | some v ↦ ok v ]

-- except (KeyError, TypeError, ValueError)
unfoldable pub is_conversion_error : Exn → Bool
unfolding is_key_error is_type_error is_value_error
is_conversion_error e = is_key_error e || is_type_error e || is_value_error e

unfoldable pub any_negative : List ℤ → Bool
any_negative [] = false
any_negative (z ∷ zs) = is_negative z || any_negative zs

unfoldable pub equal_ℤ : ℕ → ℤ → Bool
equal_ℤ n (pos m) = n == m
equal_ℤ n (negsuc m) = false

module _ (ext : Externals) where
  -- The conversions of from_manifest, before any check.
  unfoldable pub read_ref : Fields → Result BlobRef
  read_ref fs = do
    store ← (do v ← item_at "store" fs; to_str ext v)
    object_id ← (do v ← item_at "id" fs; to_str ext v)
    offset ← (do v ← item_at "offset" fs; to_int ext v)
    nbytes ← (do v ← item_at "nbytes" fs; to_int ext v)
    dtype ← (do v ← item_at "dtype" fs; to_str ext v)
    shape ← (do v ← item_at "shape" fs; dims ← iterate ext v; to_ints ext dims)
    ok (record {
      store = store;
      object_id = object_id;
      offset = offset;
      nbytes = nbytes;
      dtype = dtype;
      shape = shape;
    })

  -- The checks of from_manifest. No dimension is negative where the product is taken.
  unfoldable pub check_ref : BlobRef → Result BlobRef
  check_ref r = do
    raise_if (str_eq r.store "") value_error
    raise_if (str_eq r.object_id "") value_error
    raise_if (is_negative r.offset || is_negative r.nbytes) value_error
    raise_if (any_negative r.shape) value_error
    dtype ← ext.dtype_of (text r.dtype)
    raise_if (dtype.hasobject || dtype.structured) value_error
    let expected = dtype.itemsize * product (map pos_part r.shape)
    raise_if (not (equal_ℤ expected r.nbytes)) value_error
    ok r

  -- BlobRef.from_manifest
  unfoldable pub from_manifest : Value → Result BlobRef
  from_manifest (dict fs) = do r ← reraise is_conversion_error type_error (read_ref fs); check_ref r
  from_manifest v = err type_error
