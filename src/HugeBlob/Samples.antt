-- ===== src/HugeBlob/Samples.antt =====
-- One sample of examples/iceoryx2_huge_blob: what the publisher sends for a message, and what the subscriber makes of it.
use native.Mathlib.Decide.{dec_lt}
use npb.Prelude.{
  ℕ, ◌*◌, String, ◌≡◌, refl, sym, ap, ◌∙◌, Bool, not, List, arith, ltb, ◌==◌, if◌then◌else◌,
}
use npb.Errors.{other_error, buffer_too_small_error, Result, ok, err, value_error}
use npb.Value.{NdArray, dict, only_key, get}
use npb.Externals.{Externals, IsArray}
use npb.Codec.Encode.{Analysis, byte_array, total_size_of}
use npb.Codec.Encode.Image.{image}
use npb.Codec.RoundTrip.Trees.{IsCarried, IsTree}
use npb.HugeBlob.{HugeBlob, tensor, message_fields, make_sparse_blob, check_markers}
use npb.HugeBlob.Markers.{check_markers-make_sparse_blob, make_sparse_blob_small}

-- What make_sparse_blob returned passes check_markers.
pub marked_blob :
    (marker_bytes size_bytes : ℕ) (blob : NdArray)
    → make_sparse_blob marker_bytes size_bytes ≡ ok blob
    → check_markers marker_bytes blob.content ≡ ok tt
marked_blob marker_bytes size_bytes blob made = elim (dec_lt size_bytes (2 * marker_bytes)) [
  | yes small ↦
      let refused : err value_error ≡ ok blob =
        sym (make_sparse_blob_small marker_bytes size_bytes small) ∙ made in
      cc
  | no wide ↦
      let (found, (made', (size, marked))) =
        check_markers-make_sparse_blob marker_bytes size_bytes (omega arith) in
      let both : ok found ≡ ok blob = sym made' ∙ made in
      let same : found ≡ blob = cc in
      ap (λ a. check_markers marker_bytes a.content) (sym same) ∙ marked
]

-- A message of well-formed arrays and a meta that decoding gives back.
pub message-IsTree :
    (ext : Externals) (message : HugeBlob)
    → IsTree ext (dict message.meta)
    → IsArray ext message.blob
    → IsArray ext message.arrays.imu
    → IsArray ext message.arrays.timestamps
    → IsArray ext message.arrays.camera_matrix
    → IsArray ext message.arrays.distortion
    → IsTree ext (dict (message_fields message))
unfolding IsCarried get only_key
message-IsTree ext message meta blob imu timestamps camera_matrix distortion = (
  refl,
  refl,
  (
    refl,
    tt,
    (
      refl,
      tt,
      (
        refl,
        meta,
        (
          refl,
          blob,
          (
            refl,
            (tensor_of "imu" "m/s^2" imu, (tensor_of "timestamps" "ns" timestamps, tt)),
            (refl, (refl, refl, (refl, camera_matrix, (refl, distortion, tt))), tt),
          ),
        ),
      ),
    ),
  ),
)
  where
    tensor_of : (name unit : String) {a : NdArray} → IsArray ext a → IsTree ext (tensor name unit a)
    tensor_of name unit valid = (refl, refl, (refl, tt, (refl, tt, (refl, valid, tt))))

-- What the tests of a run make of the encoded array.
abbrev pub run_outcome :
    (shares_memory : NdArray → NdArray → Bool) (required : ℕ) (memory : List ℕ) (tagged : HugeBlob)
    (an : Analysis)
    → Result (HugeBlob × List ℕ)
run_outcome shares_memory required memory tagged an =
    if ltb required (total_size_of an)
    then err buffer_too_small_error
    else if not (total_size_of an == required)
    then err other_error
    else if not (shares_memory (byte_array (image an)) (byte_array memory))
    then err other_error
    else ok (tagged, image an)
