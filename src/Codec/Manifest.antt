-- ===== src/Codec/Manifest.antt =====
-- _manifest_tree of src/npb/_codec.py: ndarray leaves become references, inline or to a blob store.
use npb.Prelude.{
  ℕ, ◌+◌, Bool, true, Option, none, some, List, [], ◌∷◌, ◌++◌, map, leb, if◌then◌else◌, ℤ, pos,
  negsuc,
}
use npb.Errors.{Result, ok, err, type_error}
use npb.Exec.{Exec, pure, lift, continue, ◌>>=◌, ◌>>◌}
use npb.Value.{
  Value, Items, Fields, NdArray, BlobRef, leaf, ndarray, blob_ref, list, tuple, dict, nil, cons,
  end, field, opaque, text, number, of_ints, nbytes,
}
use npb.Externals.{Externals}
use npb.Format.{align_up, array_alignment}
use npb.Blob.{BlobStore, to_manifest}

-- What the walk changes: the lists `arrays` and `cursor` that its calls share, and the blob store.
pub record Walk (S : Type 0) : Type 0 where
  pub arrays : List (ℕ × NdArray)
  pub cursor : ℕ
  pub blobs : S

unfoldable pub validate_ndarray : NdArray → Result (Unit {0})
validate_ndarray a =
    if a.dtype.hasobject
    then err type_error
    else if a.dtype.structured
    then err type_error
    else ok tt

-- `nbytes >= externalize_min_bytes`
unfoldable pub at_least : ℕ → ℤ → Bool
at_least n (pos m) = leb m n
at_least n (negsuc m) = true

unfoldable pub inline_fields : ℕ → NdArray → Fields
inline_fields rel_offset a = field "kind" (text "ndarray") (
    field "offset" (number rel_offset) (
      field "nbytes" (number (nbytes a))
        (field "dtype" (text a.dtype.name) (field "shape" (list (of_ints (map pos a.shape))) end))))

abbrev pub bin_object : Fields → Value
bin_object fs = dict (field "$bin" (dict fs) end)

abbrev pub blob_object : BlobRef → Value
blob_object r = dict (field "$blob" (to_manifest r) end)

-- np.generic values are replaced by their Python scalars, any other object is refused.
unfoldable pub json_fallback : Externals → Value → Result Value
json_fallback ext (leaf (opaque n)) = elim (ext.item n) [ none ↦ err type_error | some v ↦ ok v ]
json_fallback ext v = err type_error

module _ {S : Type 0} (blob_store : Option (BlobStore S)) (externalize_min_bytes : Option ℤ) where
  -- The store that takes `a`, if `should_externalize`.
  unfoldable pub external_store : NdArray → Option (BlobStore S)
  external_store a = elim blob_store [
    | none ↦ none
    | some store ↦ elim externalize_min_bytes [
      | none ↦ none
      | some least ↦ if at_least (nbytes a) least then some store else none
    ]
  ]

  unfoldable pub put_external : BlobStore S → NdArray → Exec (Walk S) Value
  put_external store a w =
      let (r, s) = store.put_array a w.blobs in
      continue r (λ ref. pure (blob_object ref)) (record w { blobs = s })

  unfoldable pub put_inline : NdArray → Exec (Walk S) Value
  put_inline a w =
      let rel_offset = align_up w.cursor array_alignment in
      (
        ok (bin_object (inline_fields rel_offset a)),
        record w { cursor = rel_offset + nbytes a; arrays = w.arrays ++ (rel_offset, a) ∷ [] },
      )

  unfoldable pub manifest_ndarray : NdArray → Exec (Walk S) Value
  unfolding external_store put_external put_inline
  manifest_ndarray a = do
    lift (validate_ndarray a)
    elim (external_store a) [ none ↦ put_inline a | some store ↦ put_external store a ]

  unfoldable mutual
    pub manifest_tree : Value → Exec (Walk S) Value
    manifest_tree (ndarray a) = manifest_ndarray a
    manifest_tree (blob_ref r) = pure (blob_object r)
    manifest_tree (dict fs) = do gs ← manifest_fields fs; pure (dict gs)
    manifest_tree (list xs) = do ys ← manifest_items xs; pure (list ys)
    manifest_tree (tuple xs) = do ys ← manifest_items xs; pure (list ys)
    manifest_tree (leaf s) = pure (leaf s)

    pub manifest_items : Items → Exec (Walk S) Items
    manifest_items nil = pure nil
    manifest_items (cons v xs) = do w ← manifest_tree v; ys ← manifest_items xs; pure (cons w ys)

    pub manifest_fields : Fields → Exec (Walk S) Fields
    manifest_fields end = pure end
    manifest_fields (field k v fs) = do
      w ← manifest_tree v
      gs ← manifest_fields fs
      pure (field k w gs)
