-- ===== src/Codec/Restore.antt =====
-- _restore_tree of src/npb/_codec.py: references become views of the container or blobs of a store.
pub mod Inline
pub mod Safety
use npb.Prelude.{ℕ, Bool, false, ◌||◌, Option, none, some, str_eq, if◌then◌else◌}
use npb.Errors.{reraise, is_type_error, is_value_error, format_error, Exn}
use npb.Exec.{Exec, pure, raise, lift, ◌>>=◌, ◌>>◌}
use npb.Value.{
  Value, Items, Fields, NdArray, BlobRef, leaf, ndarray, blob_ref, list, tuple, dict, nil, cons,
  end, field, str, only_key, get,
}
use npb.Externals.{Externals}
use npb.Blob.{BlobStore, from_manifest}
use Inline.{restore_inline}

-- except (TypeError, ValueError)
unfoldable pub is_ref_error : Exn → Bool
unfolding is_type_error is_value_error
is_ref_error e = is_type_error e || is_value_error e

-- `ref.get("kind") == "ndarray"`
unfoldable pub is_ndarray_kind : Fields → Bool
is_ndarray_kind fs = elim (get "kind" fs) [ some (leaf (str s)) ↦ str_eq s "ndarray" | _ ↦ false ]

-- The fields of an inline reference: `{"$bin": ref}` where `ref` is a dict of that kind.
unfoldable pub inline_ref : Fields → Option Fields
unfolding is_ndarray_kind
inline_ref fs = elim (only_key "$bin" fs) [
  | some (dict ref) ↦ if is_ndarray_kind ref then some ref else none
  | _ ↦ none
]

module _ {S : Type 0} (ext : Externals) (binary : NdArray) (data_start data_bytes : ℕ)
    (blob_store : Option (BlobStore S)) where
  unfoldable pub resolve_blob : BlobRef → Exec S Value
  resolve_blob ref = elim blob_store [
    | none ↦ pure (blob_ref ref)
    | some store ↦
        if str_eq store.kind ref.store
        then (do a ← store.get_array ref; pure (ndarray a))
        else raise format_error
  ]

  unfoldable pub restore_blob : Value → Exec S Value
  unfolding resolve_blob
  restore_blob v = do
    ref ← lift (reraise is_ref_error format_error (from_manifest ext v))
    resolve_blob ref

  unfoldable mutual
    pub restore_tree : Value → Exec S Value
    restore_tree (dict fs) =
        let plain = (do gs ← restore_fields fs; pure (dict gs)) in
        elim (only_key "$blob" fs) [
          | some ref ↦ restore_blob ref
          | none ↦ elim (inline_ref fs) [
            | some ref ↦ (do
              a ← lift (restore_inline ext binary data_start data_bytes ref)
              pure (ndarray a))
            | none ↦ plain
          ]
        ]
    restore_tree (list xs) = do ys ← restore_items xs; pure (list ys)
    restore_tree (leaf s) = pure (leaf s)
    restore_tree (ndarray a) = pure (ndarray a)
    restore_tree (blob_ref r) = pure (blob_ref r)
    restore_tree (tuple xs) = pure (tuple xs)

    pub restore_items : Items → Exec S Items
    restore_items nil = pure nil
    restore_items (cons v xs) = do w ← restore_tree v; ys ← restore_items xs; pure (cons w ys)

    pub restore_fields : Fields → Exec S Fields
    restore_fields end = pure end
    restore_fields (field k v fs) = do
      w ← restore_tree v
      gs ← restore_fields fs
      pure (field k w gs)
