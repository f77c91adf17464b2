-- ===== src/Codec/RoundTrip/Leaves.antt =====
-- The references that src/npb/_codec.py writes for one leaf: they are JSON, and they restore to it.
use npb.Prelude.{
  ℕ, ◌+◌, ◌≤◌, ◌≡◌, refl, true, Option, none, some, List, [], ◌∷◌, map, arith, str_eq, ℤ, pos,
}
use npb.Errors.{ok, reraise}
use npb.Value.{
  Fields, NdArray, BlobRef, ndarray, blob_ref, dict, end, field, nbytes, only_key, get, of_ints,
}
use npb.Externals.{Externals, Documented, IsArray, IsJson, AllJson}
use npb.Blob.{BlobStore, manifest_fields as ref_fields}
use npb.Blob.RoundTrip.{IsBlobRef, from_manifest-to_manifest}
use npb.Codec.Manifest.{inline_fields, bin_object, blob_object, json_fallback}
use npb.Codec.Encode.Slices.{AllHold}
use npb.Codec.Restore.{
  restore_tree, restore_fields, restore_blob, resolve_blob, inline_ref, is_ndarray_kind,
}
use npb.Codec.RoundTrip.Trees.{view_of}
use npb.Codec.RoundTrip.Inline.{restore_inline-holds}

of_ints-AllJson : (zs : List ℤ) → AllJson (of_ints zs)
unfolding IsJson of_ints
of_ints-AllJson [] = tt
of_ints-AllJson (z ∷ zs) = (tt, of_ints-AllJson zs)

pub inline-IsJson : (off : ℕ) (a : NdArray) → IsJson (bin_object (inline_fields off a))
unfolding IsJson inline_fields get
inline-IsJson off a = (
  refl,
  (refl, tt, (refl, tt, (refl, tt, (refl, tt, (refl, of_ints-AllJson (map pos a.shape), tt))))),
  tt,
)

pub blob-IsJson : (r : BlobRef) → IsJson (blob_object r)
unfolding IsJson ref_fields get
blob-IsJson r = (
  refl,
  (refl, tt, (refl, tt, (refl, tt, (refl, tt, (refl, tt, (refl, of_ints-AllJson r.shape, tt)))))),
  tt,
)

inline_ref-none : (fs : Fields) → only_key "$bin" fs ≡ none → inline_ref fs ≡ none
unfolding inline_ref
inline_ref-none fs h = ground arith

inline_ref-bin :
    (off : ℕ) (a : NdArray)
    → inline_ref (field "$bin" (dict (inline_fields off a)) end) ≡ some (inline_fields off a)
unfolding inline_ref is_ndarray_kind inline_fields get only_key
inline_ref-bin off a = refl

module _ {T : Type 0} (ext : Externals) where
  pub restore_bin :
      (doc : Documented ext (json_fallback ext))
      → (reader : Option (BlobStore T)) (off : ℕ) (a : NdArray) (b : NdArray) (base stop : ℕ)
        (s : T)
      → IsArray ext a
      → base + stop ≤ nbytes b
      → AllHold b.content base stop ((off, a) ∷ [])
      → restore_tree {S = T} ext b base stop reader (bin_object (inline_fields off a)) s
        ≡ (ok (ndarray (view_of b.writeable a)), s)
  unfolding restore_tree only_key
  restore_bin doc reader off a b base stop s valid room (here, fits, _) = ground (
    arith,
    inline_ref-bin off a,
    restore_inline-holds ext doc b base stop off a valid here fits room,
  )

  pub restore_blob_object :
      (r : BlobRef) (b : NdArray) (base stop : ℕ) (s : T)
      → IsBlobRef ext r
      → restore_tree {S = T} ext b base stop none (blob_object r) s ≡ (ok (blob_ref r), s)
  unfolding restore_tree only_key restore_blob resolve_blob reraise
  restore_blob_object r b base stop s valid = rw (from_manifest-to_manifest ext r valid)

  -- A reference to the reader's own store becomes the array that the store gives.
  pub restore_blob_object-stored :
      (reader : BlobStore T) (r : BlobRef) (a : NdArray) (b : NdArray) (base stop : ℕ) (s s' : T)
      → IsBlobRef ext r
      → str_eq reader.kind r.store ≡ true
      → reader.get_array r s ≡ (ok a, s')
      → restore_tree {S = T} ext b base stop (some reader) (blob_object r) s ≡ (ok (ndarray a), s')
  unfolding restore_tree only_key restore_blob resolve_blob reraise
  restore_blob_object-stored reader r a b base stop s s' valid ours got =
      rw (from_manifest-to_manifest ext r valid, ours, got) refl

  pub restore_dict :
      (reader : Option (BlobStore T)) (fs gs : Fields) (b : NdArray) (base stop : ℕ) (s s' : T)
      → only_key "$blob" fs ≡ none
      → only_key "$bin" fs ≡ none
      → restore_fields {S = T} ext b base stop reader fs s ≡ (ok gs, s')
      → restore_tree {S = T} ext b base stop reader (dict fs) s ≡ (ok (dict gs), s')
  unfolding restore_tree
  restore_dict reader fs gs b base stop s s' no_blob no_bin h =
      ground (arith, inline_ref-none fs no_bin)
