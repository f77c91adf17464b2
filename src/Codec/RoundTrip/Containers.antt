-- ===== src/Codec/RoundTrip/Containers.antt =====
-- decode_auto and decode of src/npb/_codec.py after encode.
use mathlib.Core.Path.{subst}
use npb.Prelude.{ℕ, ◌≡◌, ap, ◌∙◌, true, Option, none, List, if◌then◌else◌}
use npb.Errors.{Result, ok, err, schema_mismatch_error, blob_store_required_error}
use npb.Value.{Fields, NdArray, nbytes, dict}
use npb.Externals.{Externals, Documented}
use npb.Format.{Argument, array, parse_header}
use npb.Format.Checks.{info_of}
use npb.Schema.{ModelClass, schema_identity}
use npb.Codec.Manifest.{json_fallback}
use npb.Codec.Encode.{
  Analysis, Model, model, byte_array, analyze_model, encode, encoded_size, header_of, total_size_of,
}
use npb.Codec.Encode.Image.{IsAnalysis, IsOutput, image}
use npb.Codec.Encode.Slices.{length-image}
use npb.Codec.Decode.{decode_auto, decode, any_field_unresolved}
use npb.Codec.RoundTrip.Images.{
  FitsFormat, encode-image, parse_header-bytes_of, decode_auto-image, decode-image,
  decode-image_mismatch,
}
use npb.Codec.RoundTrip.Trees.{IsTree, restored_fields}
use npb.Codec.RoundTrip.Inlined.{inlined, inlined-Leaves}
use npb.Codec.RoundTrip.Analyzed.{Analyzed}

-- A container's header passes every test of parse_header.
pub parse_header-image :
    (an : Analysis)
    → IsAnalysis an
    → parse_header (array (byte_array (image an))) ≡ ok (info_of (header_of an))
parse_header-image an valid = parse_header-bytes_of true an valid

module _ {S T : Type 0} (ext : Externals) (doc : Documented ext (json_fallback ext)) where
  -- For a model whose tree is a dict of JSON scalars (no datetime, no NumPy scalar, no NaN or infinity), of well-
  -- formed arrays and of references, in which each key stands once and no dict is {"$bin": …} or {"$blob": …},
  -- where the analysis returned and the sizes fit the header: encode without externalization, into no buffer or
  -- into any fitting output buffer, returns a container of the analysed size and leaves the store alone;
  -- decode_auto of it, with no store, returns the tree, its tuples as lists and its arrays as views.
  pub decode_auto-encode :
      (m : Model) (fs : Fields) (out : Option Argument) (s s' : S) (t : T) (an : Analysis)
      → m.tree ≡ dict fs
      → IsTree ext (dict fs)
      → analyze_model {S = S} ext none none (model m) s ≡ (ok an, s')
      → FitsFormat an
      → IsOutput ext out (total_size_of an)
      → (a : NdArray) × (encode {S = S} ext none none (model m) out s ≡ (ok a, s))
        × (nbytes a ≡ total_size_of an)
        × (decode_auto {S = T} ext none (array a) t ≡ (ok (restored_fields true fs), t))
  unfolding inlined
  decode_auto-encode m fs out s s' t an shape h analyzed fits output =
      let setting = inlined S T ext in
      let (encoded, (identity, (facts, (valid, same)))) =
        encode-image setting ext doc (inlined-Leaves ext doc) m out s s' an (rw shape h) analyzed
          fits output in
      let facts' : Analyzed setting ext s' (dict fs) an = rw shape at facts in
      let (t', (read, still)) = decode_auto-image setting ext true an fs s' t valid facts' tt in
      (
        byte_array (image an),
        encoded ∙ ap (λ x. (ok (byte_array (image an)), x)) same,
        length-image an valid,
        read ∙ ap (λ x. (ok (restored_fields true fs), x)) still,
      )

  -- Under the same conditions, decode of an encoded model with the model's own class, a pydantic
  -- class, returns what model_validate makes of the
  -- restored tree, if no reference to a blob is left in it, and raises BlobStoreRequiredError before
  -- any validation if one is.
  pub decode-encode :
      {M : Type 0} (validate : Fields → Result M) (m : Model) (fs : Fields) (out : Option Argument)
      (s s' : S) (t : T) (an : Analysis)
      → m.tree ≡ dict fs
      → m.model_type.is_base_model ≡ true
      → IsTree ext (dict fs)
      → analyze_model {S = S} ext none none (model m) s ≡ (ok an, s')
      → FitsFormat an
      → IsOutput ext out (total_size_of an)
      → (a : NdArray) × (encode {S = S} ext none none (model m) out s ≡ (ok a, s))
        × (decode {S = T} ext none m.model_type validate (array a) t ≡ (
            if any_field_unresolved (restored_fields true fs)
            then (err blob_store_required_error, t)
            else (validate (restored_fields true fs), t)))
  unfolding inlined
  decode-encode validate m fs out s s' t an shape base h analyzed fits output =
      let setting = inlined S T ext in
      let (encoded, (identity, (facts, (valid, same)))) =
        encode-image setting ext doc (inlined-Leaves ext doc) m out s s' an (rw shape h) analyzed
          fits output in
      let facts' : Analyzed setting ext s' (dict fs) an = rw shape at facts in
      let (t', (read, still)) =
        decode-image setting ext true validate m.model_type an fs s' t base identity valid facts'
          tt in
      (
        byte_array (image an),
        encoded ∙ ap (λ x. (ok (byte_array (image an)), x)) same,
        subst
            (λ x.
              decode {S = T} ext none m.model_type validate (array (byte_array (image an))) t ≡ (
                if any_field_unresolved (restored_fields true fs)
                then (err blob_store_required_error, x)
                else (validate (restored_fields true fs), x)))
            still read,
      )

module _ {S : Type 0} (ext : Externals) (doc : Documented ext (json_fallback ext)) where
  -- encoded_size gives the length of what encode returns, under the same conditions.
  pub encoded_size-encode :
      (m : Model) (out : Option Argument) (s s' : S) (an : Analysis)
      → IsTree ext m.tree
      → analyze_model {S = S} ext none none (model m) s ≡ (ok an, s')
      → FitsFormat an
      → IsOutput ext out (total_size_of an)
      → (a : NdArray) × (encode {S = S} ext none none (model m) out s ≡ (ok a, s))
        × (encoded_size {S = S} ext none none (model m) s ≡ (ok (nbytes a), s))
  unfolding inlined encoded_size
  encoded_size-encode m out s s' an h analyzed fits output =
      let (encoded, (identity, (facts, (valid, same)))) =
        encode-image (inlined S S ext) ext doc (inlined-Leaves ext doc) m out s s' an h analyzed
          fits output in
      (
        byte_array (image an),
        encoded ∙ ap (λ x. (ok (byte_array (image an)), x)) same,
        rw (analyzed, length-image an valid) (ap (λ x. (ok (total_size_of an), x)) same),
      )

  -- Under the same conditions, decode of an encoded model with a pydantic class of another schema
  -- UUID or version raises
  -- SchemaMismatchError, whatever the tree is.
  pub decode-encode_mismatch :
      {M : Type 0} (validate : Fields → Result M) (m : Model) (other_type : ModelClass)
      (schema_id : List ℕ) (version : ℕ) (out : Option Argument) (s s' : S) (an : Analysis)
      → other_type.is_base_model ≡ true
      → schema_identity other_type ≡ ok (schema_id, version)
      → ¬ ((an.schema_id ≡ schema_id) × (an.schema_version ≡ version))
      → IsTree ext m.tree
      → analyze_model {S = S} ext none none (model m) s ≡ (ok an, s')
      → FitsFormat an
      → IsOutput ext out (total_size_of an)
      → (a : NdArray) × (encode {S = S} ext none none (model m) out s ≡ (ok a, s))
        × (decode {S = S} ext none other_type validate (array a) s ≡ (err schema_mismatch_error, s))
  unfolding inlined
  decode-encode_mismatch validate m other_type schema_id version out s s' an base identity differ h
        analyzed fits output =
      let (encoded, (own, (facts, (valid, same)))) =
        encode-image (inlined S S ext) ext doc (inlined-Leaves ext doc) m out s s' an h analyzed
          fits output in
      (
        byte_array (image an),
        encoded ∙ ap (λ x. (ok (byte_array (image an)), x)) same,
        decode-image_mismatch ext none true validate other_type an s schema_id version base identity
            differ valid,
      )
