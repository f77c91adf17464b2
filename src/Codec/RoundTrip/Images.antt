-- ===== src/Codec/RoundTrip/Images.antt =====
-- decode_auto and decode of src/npb/_codec.py on an array that holds a container's bytes.
use npb.Prelude.{
  ℕ, ◌+◌, ◌^◌, ◌<◌, max, ◌≡◌, refl, inl, inr, Bool, true, Option, List, arith, if◌then◌else◌,
  ==_iff, Bool-cases, length, list_eq_refl, list_eq_iff,
}
use npb.Errors.{Result, ok, err, reraise, schema_mismatch_error, blob_store_required_error}
use npb.Value.{Value, Fields, NdArray, dict}
use npb.Externals.{Externals, Documented}
use npb.Format.{Argument, array, frame_size, header_size, parse_header, is_uint8}
use npb.Format.Align.{align_up_least}
use npb.Format.Checks.{info_of, parse_header_iff}
use npb.Schema.{ModelClass, schema_identity}
use npb.Codec.Manifest.{json_fallback}
use npb.Codec.Encode.{
  Analysis, Model, model, byte_array, header_of, total_size_of, analyze_model, encode,
}
use npb.Codec.Encode.Image.{IsAnalysis, IsOutput, image, layout_bounds}
use npb.Codec.Encode.Container.{write_container-image}
use npb.Codec.Encode.Slices.{length-image, image-AllHold, header_at-image, metadata-image}
use npb.Codec.Decode.{
  decode_tree, decode_auto, decode, require_dict, check_schema, any_field_unresolved,
}
use npb.Codec.RoundTrip.Trees.{IsCarried, seen, seen_fields}
use npb.Codec.RoundTrip.Setting.{Setting}
use npb.Codec.RoundTrip.Induction.{Leaves}
use npb.Blob.{BlobStore}
use npb.Codec.RoundTrip.Analyzed.{Analyzed, analyze_model-Analyzed}

-- The sizes that the header's fields can hold.
pub record FitsFormat (an : Analysis) : Type 0 where
  pub schema_id_size : length an.schema_id ≡ 16
  pub schema_version_fits : an.schema_version < 2 ^ 32
  pub metadata_fits : length an.metadata_json < 2 ^ 32
  pub total_fits : total_size_of an < 2 ^ 64

module _ {S T : Type 0} (setting : Setting S T) (ext : Externals) where
  pub Analyzed-IsAnalysis :
      {s : S} {tree : Value} (an : Analysis)
      → Analyzed setting ext s tree an
      → FitsFormat an
      → IsAnalysis an
  Analyzed-IsAnalysis an facts fits = record {
    schema_id_size = fits.schema_id_size;
    schema_version_fits = fits.schema_version_fits;
    metadata_fits = fits.metadata_fits;
    total_fits = fits.total_fits;
    data_start_eq = facts.data_start_eq;
    placed = facts.placed;
  }

-- A 1-D C-contiguous uint8 array, writable or not.
abbrev pub bytes_of : Bool → List ℕ → NdArray
bytes_of writeable bs = record (byte_array bs) { writeable = writeable }

pub parse_header-bytes_of :
    (w : Bool) (an : Analysis)
    → IsAnalysis an
    → parse_header (array (bytes_of w (image an))) ≡ ok (info_of (header_of an))
unfolding is_uint8
parse_header-bytes_of w an valid =
    let bounds = layout_bounds an valid in
    let size = length-image an valid in
    let start = align_up_least (header_size + length an.metadata_json) frame_size (omega arith) in
    let total =
      align_up_least (max (an.data_start + an.data_bytes) frame_size) frame_size (omega arith) in
    (parse_header_iff (bytes_of w (image an)) (info_of (header_of an))).1 (
      record { uint8 = refl; flat = refl; contiguous = refl },
      omega arith,
      rw (header_at-image an valid) (record {
        magic_eq = refl;
        version_eq = refl;
        flags_eq = refl;
        frame_eq = refl;
        one_frame = bounds.2;
        in_buffer = omega arith;
        whole_frames = total.1;
        metadata_before_data = bounds.0;
        data_aligned = rw valid.data_start_eq start.1;
        data_inside = bounds.1;
      }),
      rw (header_at-image an valid),
    )

module _ {S T : Type 0} (setting : Setting S T) (ext : Externals) (w : Bool) where
  decode_tree-image :
      (an : Analysis) (fs : Fields) (s : S) (t : T)
      → IsAnalysis an
      → Analyzed setting ext s (dict fs) an
      → setting.Sees s t
      → (t' : T) × ((decode_tree ext setting.reader
              (bytes_of w (image an))
              (info_of (header_of an))
              t
            ≡ (ok (seen_fields (setting.view w) fs), t'))
          × setting.Later t t')
  unfolding decode_tree reraise require_dict seen
  decode_tree-image an fs s t valid facts sees =
      let bounds = layout_bounds an valid in
      let size = length-image an valid in
      let (t', (read, later)) =
        facts.restores (bytes_of w (image an)) an.data_start an.data_bytes (omega arith)
          (image-AllHold an valid) t sees in
      (t', (rw (metadata-image an valid, facts.json_eq, read) refl, later))

  pub decode_auto-image :
      (an : Analysis) (fs : Fields) (s : S) (t : T)
      → IsAnalysis an
      → Analyzed setting ext s (dict fs) an
      → setting.Sees s t
      → (t' : T) × ((decode_auto ext setting.reader (array (bytes_of w (image an))) t
            ≡ (ok (seen_fields (setting.view w) fs), t'))
          × setting.Later t t')
  unfolding decode_auto
  decode_auto-image an fs s t valid facts sees =
      let (t', (read, later)) = decode_tree-image an fs s t valid facts sees in
      (t', (rw (parse_header-bytes_of w an valid) read, later))

  pub decode-image :
      {M : Type 0} (validate : Fields → Result M) (model_type : ModelClass) (an : Analysis)
      (fs : Fields) (s : S) (t : T)
      → model_type.is_base_model ≡ true
      → schema_identity model_type ≡ ok (an.schema_id, an.schema_version)
      → IsAnalysis an
      → Analyzed setting ext s (dict fs) an
      → setting.Sees s t
      → (t' : T) × ((decode ext setting.reader model_type validate (array (bytes_of w (image an))) t
            ≡ (if any_field_unresolved (seen_fields (setting.view w) fs)
                then (err blob_store_required_error, t')
                else (validate (seen_fields (setting.view w) fs), t')))
          × setting.Later t t')
  unfolding decode
  decode-image validate model_type an fs s t base identity valid facts sees =
      let (t', (read, later)) = decode_tree-image an fs s t valid facts sees in
      (
        t',
        (
          rw
              (
                identity,
                base,
                parse_header-bytes_of w an valid,
                list_eq_refl an.schema_id,
                (==_iff an.schema_version an.schema_version).1 refl,
                read,
              )
              (elim (Bool-cases (any_field_unresolved (seen_fields (setting.view w) fs))) [
                | inl left_over ↦ rw left_over
                | inr resolved ↦ rw resolved
              ]),
          later,
        ),
      )

module _ {T : Type 0} (ext : Externals) (reader : Option (BlobStore T)) (w : Bool) where
  pub decode-image_mismatch :
      {M : Type 0} (validate : Fields → Result M) (model_type : ModelClass) (an : Analysis) (t : T)
      (schema_id : List ℕ) (version : ℕ)
      → model_type.is_base_model ≡ true
      → schema_identity model_type ≡ ok (schema_id, version)
      → ¬ ((an.schema_id ≡ schema_id) × (an.schema_version ≡ version))
      → IsAnalysis an
      → decode {S = T} ext reader model_type validate (array (bytes_of w (image an))) t
        ≡ (err schema_mismatch_error, t)
  unfolding decode check_schema
  decode-image_mismatch validate model_type an t schema_id version base identity differ valid =
      rw (identity, base, parse_header-bytes_of w an valid)
        (ground (arith, list_eq_iff an.schema_id schema_id))

module _ {S T : Type 0} (setting : Setting S T) (ext : Externals)
    (doc : Documented ext (json_fallback ext)) (leaves : Leaves setting ext) where
  -- What encode returns, where the analysis returned.
  pub encode-image :
      (m : Model) (out : Option Argument) (s s' : S) (an : Analysis)
      → IsCarried ext setting.Ref m.tree
      → analyze_model ext setting.blob_store setting.externalize_min_bytes (model m) s ≡ (ok an, s')
      → FitsFormat an
      → IsOutput ext out (total_size_of an)
      → (encode ext setting.blob_store setting.externalize_min_bytes (model m) out s
          ≡ (ok (byte_array (image an)), s'))
        × ((schema_identity m.model_type ≡ ok (an.schema_id, an.schema_version))
            × (Analyzed setting ext s' m.tree an × (IsAnalysis an × setting.Extends s s')))
  unfolding encode
  encode-image m out s s' an h analyzed fits output =
      let (identity, (facts, extends)) =
        analyze_model-Analyzed setting ext doc leaves m s s' an h analyzed in
      let valid = Analyzed-IsAnalysis setting ext an facts fits in
      (
        rw (analyzed, write_container-image ext out an valid output) refl,
        (identity, (facts, (valid, extends))),
      )

  -- Every array of the bytes that encode returned, writable or not, is read back, where the reader sees
  -- what the store holds.
  pub decode_auto-encode-image :
      (m : Model) (fs : Fields) (out : Option Argument) (s s' : S) (an : Analysis)
      → m.tree ≡ dict fs
      → IsCarried ext setting.Ref (dict fs)
      → analyze_model ext setting.blob_store setting.externalize_min_bytes (model m) s ≡ (ok an, s')
      → FitsFormat an
      → IsOutput ext out (total_size_of an)
      → (encode ext setting.blob_store setting.externalize_min_bytes (model m) out s
          ≡ (ok (byte_array (image an)), s'))
        × (setting.Extends s s'
            × ((w : Bool) (t : T)
                → setting.Sees s' t
                → (t' : T) × ((decode_auto ext setting.reader (array (bytes_of w (image an))) t
                      ≡ (ok (seen_fields (setting.view w) fs), t'))
                    × setting.Later t t')))
  decode_auto-encode-image m fs out s s' an shape h analyzed fits output =
      let (encoded, (identity, (facts, (valid, extends)))) =
        encode-image m out s s' an (rw shape h) analyzed fits output in
      let facts' : Analyzed setting ext s' (dict fs) an = rw shape at facts in
      (encoded, (extends, λ w t sees. decode_auto-image setting ext w an fs s' t valid facts' sees))
