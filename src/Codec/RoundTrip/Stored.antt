-- ===== src/Codec/RoundTrip/Stored.antt =====
-- Encoding with a blob store and a threshold, and decoding with a reader of that store: src/npb/_codec.py
-- with what src/npb/_blob.py asks of a store.
use npb.Prelude.{
  ◌+◌, ◌≡◌, refl, sym, inl, inr, Bool, true, false, Option, none, some, [], ◌∷◌, ◌++◌, append-nil,
  arith, str_eq, if◌then◌else◌, Bool-cases, ℤ,
}
use npb.Errors.{ok}
use npb.Value.{NdArray, BlobRef, ndarray, nbytes}
use npb.Externals.{Externals, Documented, IsArray, IsPlain}
use npb.Format.{align_up, array_alignment}
use npb.Format.Align.{align_up_least}
use npb.Blob.{BlobStore}
use npb.Blob.RoundTrip.{IsBlobRef}
use npb.Codec.Manifest.{
  Walk, at_least, validate_ndarray, inline_fields, bin_object, blob_object, json_fallback,
  manifest_tree, manifest_ndarray, put_inline, put_external, external_store,
}
use npb.Codec.RoundTrip.Trees.{seen, view_of}
use npb.Codec.RoundTrip.Setting.{Setting}
use npb.Codec.RoundTrip.Walk.{Walked}
use npb.Codec.RoundTrip.Leaves.{inline-IsJson, blob-IsJson, restore_bin, restore_blob_object-stored}
use npb.Codec.RoundTrip.Induction.{Leaves}

-- What the documentation of class BlobStore asks of a store and of one that reads it: put_array keeps an
-- array under a reference of the store's kind, and get_array, as long as the reader sees it, gives
-- what `view` makes of the array. Neither forgets anything.
pub record Lawful {S T : Type 0} (ext : Externals) (store : BlobStore S) (reader : BlobStore T)
    : Type 1 where
  pub view : NdArray → NdArray
  pub Extends : S → S → Type 0
  pub extends_refl : (s : S) → Extends s s
  pub extends_trans : {s s' s'' : S} → Extends s s' → Extends s' s'' → Extends s s''
  pub Sees : S → T → Type 0
  pub sees_before : {s s' : S} {t : T} → Extends s s' → Sees s' t → Sees s t
  pub Later : T → T → Type 0
  pub later_refl : (t : T) → Later t t
  pub later_trans : {t t' t'' : T} → Later t t' → Later t' t'' → Later t t''
  pub sees_later : {s : S} {t t' : T} → Later t t' → Sees s t → Sees s t'
  pub put_keeps :
      (a : NdArray) (s : S)
      → IsArray ext a
      → (ref : BlobRef) × ((s' : S) × ((store.put_array a s ≡ (ok ref, s'))
            × (IsBlobRef ext ref
                × ((str_eq reader.kind ref.store ≡ true)
                    × (Extends s s'
                        × ((t : T)
                            → Sees s' t
                            → (t' : T) × ((reader.get_array ref t ≡ (ok (view a), t'))
                                × Later t t')))))))

-- `should_externalize`, with a store.
unfoldable pub is_external : Option ℤ → NdArray → Bool
is_external none a = false
is_external (some least) a = at_least (nbytes a) least

-- An array comes back as the store gives it, or as a view of the container.
abbrev pub given : (NdArray → NdArray) → Option ℤ → Bool → NdArray → NdArray
given view least w a = if is_external least a then view a else view_of w a

external_store-is_external :
    {S : Type 0} (store : BlobStore S) (least : Option ℤ) (a : NdArray)
    → external_store (some store) least a ≡ (if is_external least a then some store else none)
unfolding external_store is_external
external_store-is_external store none a = refl
external_store-is_external store (some least) a = refl

validate_ndarray-ok : (a : NdArray) → IsPlain a.dtype → validate_ndarray a ≡ ok tt
unfolding validate_ndarray
validate_ndarray-ok a plain = rw (plain.no_objects, plain.no_fields) refl

module _ {S T : Type 0} (ext : Externals) (store : BlobStore S) (reader : BlobStore T)
    (law : Lawful ext store reader) (least : Option ℤ) where
  -- The model's tree has no references of its own.
  unfoldable pub stored : Setting S T
  stored = record {
    blob_store = some store;
    externalize_min_bytes = least;
    reader = some reader;
    view = given law.view least;
    Ref = λ r. ⊥;
    Extends = law.Extends;
    extends_refl = law.extends_refl;
    extends_trans = law.extends_trans;
    Sees = law.Sees;
    sees_before = law.sees_before;
    Later = law.Later;
    later_refl = law.later_refl;
    later_trans = law.later_trans;
    sees_later = law.sees_later;
  }

  walk_inline :
      (doc : Documented ext (json_fallback ext)) (a : NdArray) (w : Walk S)
      → IsArray ext a
      → is_external least a ≡ false
      → Walked stored ext (ndarray a) w
  unfolding stored manifest_tree manifest_ndarray validate_ndarray put_inline seen
  walk_inline doc a w valid inside =
      let off = align_up w.cursor array_alignment in
      let up = align_up_least w.cursor array_alignment (omega arith) in
      record {
        manifest = bin_object (inline_fields off a);
        after = record w { cursor = off + nbytes a; arrays = w.arrays ++ (off, a) ∷ [] };
        new = (off, a) ∷ [];
        walked =
            rw
              (
                external_store-is_external store least a,
                inside,
                valid.plain.no_objects,
                valid.plain.no_fields,
              )
              refl;
        adds = record {
          arrays_eq = refl;
          placed = (up.0, up.1, refl);
          extends = law.extends_refl w.blobs;
        };
        json = inline-IsJson off a;
        restores = λ b base stop room hold t sees. (
          t,
          (
            rw inside (restore_bin ext doc (some reader) off a b base stop t valid room hold),
            law.later_refl t,
          ),
        );
      }

  put_away :
      (a : NdArray) (w : Walk S) (ref : BlobRef) (s' : S)
      → validate_ndarray a ≡ ok tt
      → is_external least a ≡ true
      → store.put_array a w.blobs ≡ (ok ref, s')
      → manifest_ndarray (some store) least a w ≡ (ok (blob_object ref), record w { blobs = s' })
  unfolding manifest_ndarray put_external
  put_away a w ref s' valid outside put =
      rw (valid, external_store-is_external store least a, outside, put) refl

  walk_external :
      (a : NdArray) (w : Walk S)
      → IsArray ext a
      → is_external least a ≡ true
      → Walked stored ext (ndarray a) w
  unfolding stored manifest_tree seen
  walk_external a w valid outside =
      let (ref, (s', (put, (good, (ours, (extends, reads)))))) = law.put_keeps a w.blobs valid in
      record {
        manifest = blob_object ref;
        after = record w { blobs = s' };
        new = [];
        walked = put_away a w ref s' (validate_ndarray-ok a valid.plain) outside put;
        adds = record { arrays_eq = sym (append-nil w.arrays); placed = refl; extends = extends };
        json = blob-IsJson ref;
        restores = λ b base stop room hold t sees.
            let (t', (got, later)) = reads t sees in
            (
              t',
              (
                rw outside (
                    restore_blob_object-stored ext reader ref (law.view a) b base stop t t' good
                      ours got),
                later,
              ),
            );
      }

  pub stored-Leaves : Documented ext (json_fallback ext) → Leaves stored ext
  unfolding stored
  stored-Leaves doc = record {
    walk_ndarray = λ a w valid. elim (Bool-cases (is_external least a)) [
      | inl outside ↦ walk_external a w valid outside
      | inr inside ↦ walk_inline doc a w valid inside
    ];
    walk_blob_ref = λ r w h. absurd h;
  }
