-- ===== src/Tests/Containers.antt =====
-- A whole container, written and read.
use npb.Prelude.{◌≡◌, refl, true, none, some, [], ◌∷◌, arith, if◌then◌else◌, replicate, pos}
use npb.Errors.{ok, err, blob_store_required_error, schema_mismatch_error}
use npb.Value.{
  Value, NdArray, nbytes, list, dict, cons, nil, field, end, text, number, of_ints, get, only_key,
  product,
}
use npb.Format.{array, align_up}
use npb.Schema.{ModelClass, schema_identity}
use npb.Codec.Manifest.{
  json_fallback, inline_fields, bin_object, manifest_tree, manifest_ndarray, validate_ndarray,
  external_store, put_inline,
}
use npb.Codec.Encode.{
  Analysis, model, analyze_model, analyze_tree, check_threshold, encode, total_size_of,
  encoded_size, write_container,
}
use npb.Codec.Decode.{decode_auto, decode, any_field_unresolved}
use npb.Codec.RoundTrip.Trees.{IsCarried, IsTree, restored_fields}
use npb.Codec.RoundTrip.Images.{FitsFormat}
use npb.Codec.RoundTrip.Containers.{
  decode_auto-encode, decode-encode, encoded_size-encode, decode-encode_mismatch,
}
use npb.Codec.Encode.Image.{IsAnalysis, image}
use npb.Codec.Encode.Container.{write_container-image}
use npb.Tests.Documented.{sample_externals, sample_externals-Documented, write}
use npb.Tests.Sample.{pixels, capture_class, capture_fields, capture}

abbrev capture_manifest : Value
capture_manifest = dict (
    field "name" (text "cap") (
      field "pixels" (bin_object (inline_fields 0 pixels))
        (field "at" (list (cons (number 1) (cons (number 2) nil))) end)))

abbrev capture_analysis : Analysis
capture_analysis = record {
  schema_id = replicate 16 5;
  schema_version = 3;
  data_bytes = 3;
  data_start = 65536;
  arrays = (0, pixels) ∷ [];
  metadata_json = write capture_manifest [];
}

capture-analyzed :
    analyze_model {S = Unit {0}} sample_externals none none (model capture) tt
    ≡ (ok capture_analysis, tt)
unfolding analyze_model check_threshold analyze_tree schema_identity manifest_tree manifest_ndarray
    validate_ndarray external_store put_inline align_up sample_externals write inline_fields of_ints
capture-analyzed = refl

capture-IsTree : IsTree sample_externals (dict capture_fields)
unfolding IsCarried sample_externals get only_key product
capture-IsTree = (
  refl,
  refl,
  (
    refl,
    tt,
    (
      refl,
      record {
        plain = record { no_objects = refl; no_fields = refl; sized = omega arith };
        known = refl;
        filled = refl;
      },
      (refl, (tt, (tt, tt)), tt),
    ),
  ),
)

capture-FitsFormat : FitsFormat capture_analysis
unfolding align_up write inline_fields of_ints
capture-FitsFormat = omega arith

decode_auto-encode_example :
    (a : NdArray) × (encode {S = Unit {0}} sample_externals none none (model capture) none tt
      ≡ (ok a, tt))
    × (nbytes a ≡ total_size_of capture_analysis)
    × (decode_auto {S = Unit {0}} sample_externals none (array a) tt
        ≡ (ok (restored_fields true capture_fields), tt))
decode_auto-encode_example =
    decode_auto-encode sample_externals (sample_externals-Documented _) capture capture_fields none
      tt tt tt capture_analysis refl capture-IsTree capture-analyzed capture-FitsFormat
      ((sample_externals-Documented (json_fallback sample_externals)).empty_length _)

decode-encode_example :
    (a : NdArray) × (encode {S = Unit {0}} sample_externals none none (model capture) none tt
      ≡ (ok a, tt))
    × (decode {S = Unit {0}} sample_externals none capture_class ok (array a) tt ≡ (
        if any_field_unresolved (restored_fields true capture_fields)
        then (err blob_store_required_error, tt)
        else (ok (restored_fields true capture_fields), tt)))
decode-encode_example =
    decode-encode sample_externals (sample_externals-Documented _) ok capture capture_fields none tt
      tt tt capture_analysis refl refl capture-IsTree capture-analyzed capture-FitsFormat
      ((sample_externals-Documented (json_fallback sample_externals)).empty_length _)

encoded_size-encode_example :
    (a : NdArray) × (encode {S = Unit {0}} sample_externals none none (model capture) none tt
      ≡ (ok a, tt))
    × (encoded_size {S = Unit {0}} sample_externals none none (model capture) tt
        ≡ (ok (nbytes a), tt))
encoded_size-encode_example =
    encoded_size-encode sample_externals (sample_externals-Documented _) capture none tt tt
      capture_analysis capture-IsTree capture-analyzed capture-FitsFormat
      ((sample_externals-Documented (json_fallback sample_externals)).empty_length _)

-- The same schema UUID, and the next version.
abbrev next_class : ModelClass
next_class = record capture_class { schema_version = some (pos 4) }

decode-encode_mismatch_example :
    (a : NdArray) × (encode {S = Unit {0}} sample_externals none none (model capture) none tt
      ≡ (ok a, tt))
    × (decode {S = Unit {0}} sample_externals none next_class ok (array a) tt
        ≡ (err schema_mismatch_error, tt))
unfolding schema_identity
decode-encode_mismatch_example =
    decode-encode_mismatch sample_externals (sample_externals-Documented _) ok capture next_class
      (replicate 16 5) 4 none tt tt capture_analysis refl refl (λ same. omega (arith, same.1))
      capture-IsTree capture-analyzed capture-FitsFormat
      ((sample_externals-Documented (json_fallback sample_externals)).empty_length _)

capture-IsAnalysis : IsAnalysis capture_analysis
unfolding align_up write inline_fields of_ints
capture-IsAnalysis = record {
  schema_id_size = refl;
  schema_version_fits = omega arith;
  metadata_fits = omega arith;
  total_fits = omega arith;
  data_start_eq = refl;
  placed = (omega arith, refl, refl);
}

write_container-image_example :
    write_container sample_externals none capture_analysis ≡ ok (image capture_analysis)
write_container-image_example =
    write_container-image sample_externals none capture_analysis capture-IsAnalysis
      ((sample_externals-Documented (json_fallback sample_externals)).empty_length _)
