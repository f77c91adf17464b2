-- ===== src/Codec/RoundTrip/External.antt =====
-- decode of src/npb/_codec.py after encode with a blob store.
use npb.Prelude.{◌≡◌, refl, ◌∙◌, true, false, Option, some, ℤ}
use npb.Errors.{Result, ok}
use npb.Value.{
  Value, Items, Fields, NdArray, leaf, ndarray, blob_ref, list, tuple, dict, nil, cons, end, field,
}
use npb.Externals.{Externals, Documented}
use npb.Format.{Argument, array}
use npb.Blob.{BlobStore}
use npb.Codec.Manifest.{json_fallback}
use npb.Codec.Encode.{Analysis, Model, model, byte_array, analyze_model, encode, total_size_of}
use npb.Codec.Encode.Image.{IsOutput, image}
use npb.Codec.Decode.{decode, contains_unresolved, any_item_unresolved, any_field_unresolved}
use npb.Codec.RoundTrip.Trees.{
  IsCarried, AllCarried, AllFieldsCarried, seen, seen_items, seen_fields,
}
use npb.Codec.RoundTrip.Analyzed.{Analyzed}
use npb.Codec.RoundTrip.Images.{FitsFormat, encode-image, decode-image}
use npb.Codec.RoundTrip.Stored.{Lawful, given, stored, stored-Leaves}

-- Trees without references.
abbrev pub IsOwn : Externals → Value → Type 0
IsOwn ext = IsCarried ext (λ r. ⊥)

mutual
  unfolding IsCarried seen contains_unresolved

  resolved :
      (ext : Externals) (view : NdArray → NdArray) (v : Value)
      → IsOwn ext v
      → contains_unresolved (seen view v) ≡ false
  resolved ext view (leaf s) h = refl
  resolved ext view (ndarray a) h = refl
  resolved ext view (blob_ref r) h = absurd h
  resolved ext view (list xs) h = resolved_items ext view xs h
  resolved ext view (tuple xs) h = resolved_items ext view xs h
  resolved ext view (dict fs) (_, _, h) = resolved_fields ext view fs h

  resolved_items :
      (ext : Externals) (view : NdArray → NdArray) (xs : Items)
      → AllCarried ext (λ r. ⊥) xs
      → any_item_unresolved (seen_items view xs) ≡ false
  resolved_items ext view nil h = refl
  resolved_items ext view (cons v xs) (hv, hs) =
      rw (resolved ext view v hv) (resolved_items ext view xs hs)

  pub resolved_fields :
      (ext : Externals) (view : NdArray → NdArray) (fs : Fields)
      → AllFieldsCarried ext (λ r. ⊥) fs
      → any_field_unresolved (seen_fields view fs) ≡ false
  resolved_fields ext view end h = refl
  resolved_fields ext view (field k v fs) (_, hv, hs) =
      rw (resolved ext view v hv) (resolved_fields ext view fs hs)

module _ {S T : Type 0} (ext : Externals) (doc : Documented ext (json_fallback ext))
    (store : BlobStore S) (reader : BlobStore T) (law : Lawful ext store reader)
    (least : Option ℤ) where
  -- For a model whose tree is a dict of JSON scalars (no datetime, no NumPy scalar, no NaN or infinity) and well-
  -- formed arrays, in which each key stands once, without references and without a dict {"$bin": …} or {"$blob":
  -- …}, where the analysis returned and the sizes fit the header, with a blob store that does what is documented
  -- and any threshold or none: encode, into no buffer or any fitting one, returns a container and extends the
  -- store, and decode of it with the model's own pydantic class and a reader that sees the store gives
  -- model_validate the tree: its large arrays as the reader gives them, the others as views, tuples as lists.
  pub decode-encode_stored :
      {M : Type 0} (validate : Fields → Result M) (m : Model) (fs : Fields) (out : Option Argument)
      (s s' : S) (t : T) (an : Analysis)
      → m.tree ≡ dict fs
      → m.model_type.is_base_model ≡ true
      → IsOwn ext (dict fs)
      → analyze_model ext (some store) least (model m) s ≡ (ok an, s')
      → FitsFormat an
      → IsOutput ext out (total_size_of an)
      → law.Sees s' t
      → (a : NdArray) × ((t' : T) × ((encode ext (some store) least (model m) out s ≡ (ok a, s'))
            × (law.Extends s s'
                × ((decode ext (some reader) m.model_type validate (array a) t
                      ≡ (validate (seen_fields (given law.view least true) fs), t'))
                    × law.Later t t'))))
  unfolding stored IsCarried
  decode-encode_stored validate m fs out s s' t an shape base h analyzed fits output sees =
      let setting = stored ext store reader law least in
      let (encoded, (identity, (facts, (valid, extends)))) =
        encode-image setting ext doc (stored-Leaves ext store reader law least doc) m out s s' an
          (rw shape h) analyzed fits output in
      let facts' : Analyzed setting ext s' (dict fs) an = rw shape at facts in
      let (t', (read, later)) =
        decode-image setting ext true validate m.model_type an fs s' t base identity valid facts'
          sees in
      let none_left = resolved_fields ext (given law.view least true) fs h.2 in
      (byte_array (image an), (t', (encoded, (extends, (read ∙ rw none_left refl, later)))))
