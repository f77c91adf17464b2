-- ===== src/Codec/RoundTrip/Inlined.antt =====
-- Encoding and decoding with src/npb/_codec.py where no array is externalized and no store is read.
use npb.Prelude.{◌+◌, ◌≡◌, refl, ◌∙◌, none, [], ◌∷◌, ◌++◌, arith}
use npb.Value.{NdArray, BlobRef, ndarray, blob_ref, nbytes}
use npb.Externals.{Externals, Documented, IsArray}
use npb.Format.{align_up, array_alignment}
use npb.Format.Align.{align_up_least}
use npb.Blob.RoundTrip.{IsBlobRef}
use npb.Codec.Manifest.{
  Walk, validate_ndarray, inline_fields, bin_object, blob_object, json_fallback, manifest_tree,
  manifest_ndarray, put_inline, external_store,
}
use npb.Codec.RoundTrip.Trees.{seen, view_of}
use npb.Codec.RoundTrip.Setting.{Setting}
use npb.Codec.RoundTrip.Walk.{Adds-nothing, Walked}
use npb.Codec.RoundTrip.Leaves.{inline-IsJson, blob-IsJson, restore_bin, restore_blob_object}
use npb.Codec.RoundTrip.Induction.{Leaves}

-- Neither store changes. References stay in the tree.
unfoldable pub inlined : (S T : Type 0) → Externals → Setting S T
inlined S T ext = record {
  blob_store = none;
  externalize_min_bytes = none;
  reader = none;
  view = view_of;
  Ref = IsBlobRef ext;
  Extends = λ s s'. s' ≡ s;
  extends_refl = λ s. refl;
  extends_trans = λ p q. q ∙ p;
  Sees = λ s t. Unit {0};
  sees_before = λ p sees. tt;
  Later = λ t t'. t' ≡ t;
  later_refl = λ t. refl;
  later_trans = λ p q. q ∙ p;
  sees_later = λ p sees. tt;
}

module _ {S T : Type 0} (ext : Externals) (doc : Documented ext (json_fallback ext)) where
  walk_ndarray :
      (a : NdArray) (w : Walk S) → IsArray ext a → Walked (inlined S T ext) ext (ndarray a) w
  unfolding inlined manifest_tree manifest_ndarray validate_ndarray external_store put_inline seen
  walk_ndarray a w valid =
      let off = align_up w.cursor array_alignment in
      let up = align_up_least w.cursor array_alignment (omega arith) in
      record {
        manifest = bin_object (inline_fields off a);
        after = record w { cursor = off + nbytes a; arrays = w.arrays ++ (off, a) ∷ [] };
        new = (off, a) ∷ [];
        walked = ground (arith, valid.plain.no_objects, valid.plain.no_fields);
        adds = record { arrays_eq = refl; placed = (up.0, up.1, refl); extends = refl };
        json = inline-IsJson off a;
        restores = λ b base stop room hold t sees.
            (t, (restore_bin ext doc none off a b base stop t valid room hold, refl));
      }

  walk_blob_ref :
      (r : BlobRef) (w : Walk S) → IsBlobRef ext r → Walked (inlined S T ext) ext (blob_ref r) w
  unfolding inlined manifest_tree seen
  walk_blob_ref r w valid = record {
    manifest = blob_object r;
    after = w;
    new = [];
    walked = refl;
    adds = Adds-nothing (inlined S T ext) w;
    json = blob-IsJson r;
    restores =
        λ b base stop room hold t sees. (t, (restore_blob_object ext r b base stop t valid, refl));
  }

  pub inlined-Leaves : Leaves (inlined S T ext) ext
  unfolding inlined
  inlined-Leaves = record { walk_ndarray = walk_ndarray; walk_blob_ref = walk_blob_ref }
