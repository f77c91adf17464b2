-- ===== src/Codec/Decode.antt =====
-- peek, decode_auto and decode of src/npb/_codec.py.
use npb.Prelude.{ℕ, Bool, true, false, not, ◌||◌, Option, List, ◌==◌, if◌then◌else◌, slice, list_eq}
use npb.Errors.{
  Result, ok, err, reraise, is_value_error, format_error, type_error, schema_mismatch_error,
  blob_store_required_error,
}
use npb.Exec.{Exec, raise, lift, ◌>>=◌, ◌>>◌}
use npb.Value.{
  Value, Items, Fields, NdArray, leaf, ndarray, blob_ref, list, tuple, dict, nil, cons, end, field,
}
use npb.Externals.{Externals}
use npb.Format.{Argument, array, other, BinaryInfo, header_size, parse_header}
use npb.Blob.{BlobStore}
use npb.Schema.{ModelClass, schema_identity}
use npb.Codec.Restore.{restore_tree}

unfoldable pub peek : Argument → Result BinaryInfo
peek binary = parse_header binary

-- What follows parse_header, which has found the argument to be an array.
abbrev pub on_array : {S A : Type 0} → Argument → (NdArray → Exec S A) → Exec S A
on_array (array b) f = f b
on_array other f = raise type_error

-- _contains_unresolved_blob_ref
unfoldable mutual
  pub contains_unresolved : Value → Bool
  contains_unresolved (blob_ref r) = true
  contains_unresolved (dict fs) = any_field_unresolved fs
  contains_unresolved (list xs) = any_item_unresolved xs
  contains_unresolved (leaf s) = false
  contains_unresolved (ndarray a) = false
  contains_unresolved (tuple xs) = false

  pub any_item_unresolved : Items → Bool
  any_item_unresolved nil = false
  any_item_unresolved (cons v xs) = contains_unresolved v || any_item_unresolved xs

  pub any_field_unresolved : Fields → Bool
  any_field_unresolved end = false
  any_field_unresolved (field k v fs) = contains_unresolved v || any_field_unresolved fs

-- `isinstance(tree, dict)`
unfoldable pub require_dict : Value → Result Fields
require_dict (dict fs) = ok fs
require_dict v = err format_error

module _ {S : Type 0} (ext : Externals) (blob_store : Option (BlobStore S)) where
  unfoldable pub decode_tree : NdArray → BinaryInfo → Exec S Fields
  unfolding require_dict
  decode_tree binary info = do
    let metadata_json = slice binary.content header_size info.metadata_bytes
    manifest ← lift (reraise is_value_error format_error (ext.from_json metadata_json))
    tree ← restore_tree ext binary info.data_start info.data_bytes blob_store manifest
    lift (require_dict tree)

  unfoldable pub decode_auto : Argument → Exec S Fields
  decode_auto binary = do info ← lift (parse_header binary); on_array binary λ b. decode_tree b info

-- The tests of decode on the header, against the identity of the class.
unfoldable pub check_schema : BinaryInfo → List ℕ × ℕ → Result (Unit {0})
check_schema info (expected_id, expected_version) =
    if not (list_eq info.schema_id expected_id)
    then err schema_mismatch_error
    else if not (info.schema_version == expected_version)
    then err schema_mismatch_error
    else ok tt

module _ {S M : Type 0} (ext : Externals) (blob_store : Option (BlobStore S)) where
  -- `validate` is model_type.model_validate.
  unfoldable pub decode : ModelClass → (Fields → Result M) → Argument → Exec S M
  unfolding check_schema
  decode model_type validate binary = do
    lift (if model_type.is_base_model then ok tt else err type_error)
    identity ← lift (schema_identity model_type)
    info ← lift (parse_header binary)
    lift (check_schema info identity)
    tree ← on_array binary λ b. decode_tree ext blob_store b info
    lift (if any_field_unresolved tree then err blob_store_required_error else ok tt)
    lift (validate tree)
