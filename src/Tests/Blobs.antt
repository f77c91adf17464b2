-- ===== src/Tests/Blobs.antt =====
-- The huge-blob benchmark with markers of two bytes and a blob of five.
use npb.Prelude.{ℕ, String, ◌≡◌, refl, Bool, true, false, none, List, [], ◌∷◌, pos, zeros}
use npb.Errors.{Result, ok, err, other_error}
use npb.Value.{set_item, Fields, NdArray, of_ints}
use npb.Format.{align_up}
use npb.Schema.{schema_identity}
use npb.Codec.Manifest.{
  inline_fields, manifest_tree, manifest_ndarray, validate_ndarray, external_store, put_inline,
}
use npb.Codec.Encode.{Analysis, model, analyze_model, analyze_tree, check_threshold, encoded_size}
use npb.HugeBlob.{HugeBlob, Arrays, Clock, message_model, make_message}
use npb.HugeBlob.Publisher.{Options, check_options, set_iteration_metadata, size_as}
use npb.Tests.Documented.{sample_externals, write}
use npb.Tests.Sample.{analysis_in, pixels, capture_class}

abbrev blob : NdArray
blob = record pixels { shape = 5 ∷ []; content = 0 ∷ 1 ∷ 0 ∷ 1 ∷ 0 ∷ [] }

abbrev arrays : Arrays
arrays = record { imu = pixels; timestamps = pixels; camera_matrix = pixels; distortion = pixels }

abbrev clock : Clock
clock = record { message_id = "huge-1"; created_ns = 1; gib = λ n. 0 }

abbrev format : ℕ → String
format n = "00000000"

abbrev message : HugeBlob
message = make_message arrays clock blob

-- The message as the two runs send it.
abbrev first_run : HugeBlob
first_run = set_iteration_metadata format "W" 0 message

loan : ℕ → List ℕ
loan n = zeros n

abbrev validate : Fields → Result (NdArray × Fields)
validate fs = err other_error

-- Every two arrays share their memory.
abbrev shares_memory : NdArray → NdArray → Bool
shares_memory a b = true

abbrev options : Options
options = record {
  gib_not_positive = false;
  pause_negative = false;
  iterations = pos 1;
  warmup = pos 1;
}

allowed : check_options options ≡ ok (1, 1)
unfolding check_options
allowed = refl

-- The sizes that the publisher takes are one.
size_as-message :
    (size_as {S = Unit {0}} sample_externals capture_class format shares_memory "W" message tt
      ≡ (ok 131072, tt))
    × (size_as {S = Unit {0}} sample_externals capture_class format shares_memory "M" first_run tt
        ≡ (ok 131072, tt))
unfolding size_as encoded_size analyze_model check_threshold analyze_tree schema_identity
    manifest_tree manifest_ndarray validate_ndarray external_store put_inline align_up
    sample_externals write inline_fields of_ints set_iteration_metadata set_item make_message
size_as-message = (refl, refl)

abbrev analysis : Analysis
analysis =
    analysis_in
      (analyze_model {S = Unit {0}} sample_externals none none
        (model (message_model capture_class first_run)) tt).0
