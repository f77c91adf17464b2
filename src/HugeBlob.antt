-- ===== src/HugeBlob.antt =====
-- examples/iceoryx2_huge_blob/common.py: the message of the huge-blob benchmark. NumPy's other arrays, the clock and
-- the gibibytes of a size are parameters, and so is MARKER_BYTES, which is 4096.
pub mod Markers
pub mod Publisher
pub mod Subscriber
pub mod Metadata
pub mod Samples
use mathlib.Core.List.{reverse}
use npb.Prelude.{
  ℕ, zero, suc, ◌-◌, ◌*◌, ◌%◌, String, not, List, [], ◌∷◌, ltb, length, take, drop, replicate,
  list_eq,
}
use npb.Errors.{Result, ok, ◌>>=◌, ◌>>◌, raise_if, value_error, other_error}
use npb.Value.{
  Value, Items, Fields, NdArray, nbytes, leaf, float, ndarray, list, dict, text, number, nil, cons,
  end, field,
}
use npb.Schema.{ModelClass}
use npb.Codec.Encode.{Model, assign, byte_array}

-- np.arange(n, dtype=np.uint32).astype(np.uint8), from `first` on
unfoldable pub count_up : (first n : ℕ) → List ℕ
count_up first zero = []
count_up first (suc n) = (first % 256) ∷ count_up (suc first) n

unfoldable pub marker : (n : ℕ) → List ℕ
unfolding count_up
marker n = count_up 0 n

-- The arrays of a message beside its blob.
pub record Arrays : Type 0 where
  pub imu : NdArray
  pub timestamps : NdArray
  pub camera_matrix : NdArray
  pub distortion : NdArray

-- class HugeBlob. Its `meta` is a dict.
pub record HugeBlob : Type 0 where
  pub message_id : String
  pub created_ns : ℕ
  pub meta : Fields
  pub blob : NdArray
  pub arrays : Arrays

abbrev pub tensor : (name unit : String) → NdArray → Value
tensor name unit values =
    dict (field "name" (text name) (field "unit" (text unit) (field "values" (ndarray values) end)))

abbrev pub tensors : Arrays → Items
tensors arrays =
    cons (tensor "imu" "m/s^2" arrays.imu) (cons (tensor "timestamps" "ns" arrays.timestamps) nil)

abbrev pub calibration : Arrays → Fields
calibration arrays =
    field "camera_matrix" (ndarray arrays.camera_matrix)
      (field "distortion" (ndarray arrays.distortion) end)

-- The fields of a message, in order.
abbrev pub message_fields : HugeBlob → Fields
message_fields message = field "message_id" (text message.message_id) (
    field "created_ns" (number message.created_ns) (
      field "meta" (dict message.meta) (
        field "blob" (ndarray message.blob) (
          field "tensors" (list (tensors message.arrays))
            (field "calibration" (dict (calibration message.arrays)) end)))))

abbrev pub message_model : ModelClass → HugeBlob → Model
message_model huge_blob message = record {
  model_type = huge_blob;
  tree = dict (message_fields message);
}

abbrev pub layout : Fields
layout = field "semantic" (text "Pydantic + JSON manifest") (
    field "binary" (text "raw NumPy leaves")
      (field "transport" (text "one dynamic iceoryx2 shared-memory sample") end))

-- time.time_ns() in an f-string and as a number, and float(nbytes / 1024**3)
pub record Clock : Type 0 where
  pub message_id : String
  pub created_ns : ℕ
  pub gib : ℕ → ℕ

unfoldable pub make_message : Arrays → Clock → NdArray → HugeBlob
make_message arrays clock blob = record {
  message_id = clock.message_id;
  created_ns = clock.created_ns;
  meta = field "purpose" (text "NPB direct-to-iceoryx2 huge shared-memory demo") (
      field "blob_bytes" (number (nbytes blob)) (
        field "blob_gib" (leaf (float (clock.gib (nbytes blob))))
          (field "layout" (dict layout) end)));
  blob = blob;
  arrays = arrays;
}

module _ (marker_bytes : ℕ) where
  -- The bytes of the memmap: a file of zeros with the markers at its ends.
  unfoldable pub sparse_bytes : (size_bytes : ℕ) → Result (List ℕ)
  unfolding marker assign
  sparse_bytes size_bytes = do
    front ← assign (replicate size_bytes 0) 0 marker_bytes (marker marker_bytes)
    assign front (size_bytes - marker_bytes) size_bytes (reverse (marker marker_bytes))

  unfoldable pub make_sparse_blob : (size_bytes : ℕ) → Result NdArray
  unfolding sparse_bytes
  make_sparse_blob size_bytes = do
    raise_if (ltb size_bytes (2 * marker_bytes)) value_error
    bytes ← sparse_bytes size_bytes
    ok (byte_array bytes)

  -- blob[:MARKER_BYTES] and blob[-MARKER_BYTES:] of a 1-D array of bytes, compared by np.array_equal
  unfoldable pub check_markers : (blob : List ℕ) → Result (Unit {0})
  unfolding marker
  check_markers blob = do
    raise_if (not (list_eq (take marker_bytes blob) (marker marker_bytes))) other_error
    raise_if
        (not (list_eq (drop (length blob - marker_bytes) blob) (reverse (marker marker_bytes))))
        other_error
