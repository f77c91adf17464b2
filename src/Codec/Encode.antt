-- ===== src/Codec/Encode.antt =====
-- encode and encoded_size of src/npb/_codec.py.
pub mod Splice
pub mod Image
pub mod Container
pub mod Slices
use npb.Prelude.{
  ℕ, ◌+◌, ◌-◌, min, max, true, false, not, Option, none, some, List, [], ◌∷◌, ◌++◌, ltb, ◌==◌,
  if◌then◌else◌, length, get_or, take, drop, replicate, ℤ, is_negative,
}
use npb.Errors.{Result, ok, err, type_error, value_error, buffer_too_small_error, struct_error}
use npb.Errors
use npb.Exec.{Exec, pure, raise, lift, continue, ◌>>=◌, ◌>>◌}
use npb.Value.{Value, NdArray, nbytes, ndim}
use npb.Externals.{Externals}
use npb.Format.{
  Argument, array, other, Header, align_up, frame_size, header_size, magic, format_version,
  pack_header, is_uint8,
}
use npb.Blob.{BlobStore}
use npb.Schema.{ModelClass, schema_identity}
use npb.Codec.Manifest.{manifest_tree, json_fallback}

-- A pydantic model: its class, and what model_dump(mode="python") returns.
pub record Model : Type 0 where
  pub model_type : ModelClass
  pub tree : Value

-- The argument of encode: a BaseModel, or any other object.
pub data Object : Type 0 where
  model : Model → Object
  no_model : Object

-- What _analyze_model returns. It computes total_size too, which it does not return.
pub record Analysis : Type 0 where
  pub schema_id : List ℕ
  pub schema_version : ℕ
  pub data_bytes : ℕ
  pub data_start : ℕ
  pub arrays : List (ℕ × NdArray)
  pub metadata_json : List ℕ

-- buf[lo:hi] = src for a 1-D uint8 array: the bounds are cut to the buffer, and one byte is spread
-- over the slice.
unfoldable pub assign : List ℕ → ℕ → ℕ → List ℕ → Result (List ℕ)
assign buf lo hi src =
    let hi' = min hi (length buf) in
    let lo' = min lo hi' in
    if length src == hi' - lo'
    then ok (take lo' buf ++ (src ++ drop hi' buf))
    else if length src == 1
    then ok (take lo' buf ++ (replicate (hi' - lo') (get_or src 0 0) ++ drop hi' buf))
    else err value_error

-- buf[lo:hi] = 0
unfoldable pub fill_zero : List ℕ → ℕ → ℕ → List ℕ
fill_zero buf lo hi =
    let hi' = min hi (length buf) in
    let lo' = min lo hi' in take lo' buf ++ (replicate (hi' - lo') 0 ++ drop hi' buf)

-- struct.pack_into(binary, 0, …)
unfoldable pub pack_into : List ℕ → Header → Result (List ℕ)
pack_into buf h =
    Errors.◌>>=◌ (pack_header h) λ bs.
      if ltb (length buf) header_size then err struct_error else ok (bs ++ drop header_size buf)

-- The tests of _prepare_output on a caller's array.
unfoldable pub check_output : Argument → ℕ → Result (List ℕ)
check_output other total_size = err type_error
check_output (array out) total_size =
    if not (is_uint8 out.dtype)
    then err type_error
    else if not (ndim out == 1)
    then err value_error
    else if not out.c_contiguous
    then err value_error
    else if not out.writeable
    then err value_error
    else if ltb (nbytes out) total_size
    then err buffer_too_small_error
    else ok (take total_size out.content)

unfoldable pub prepare_output : Externals → Option Argument → ℕ → ℕ → Result (List ℕ)
unfolding check_output fill_zero
prepare_output ext none total_size data_start = ok (fill_zero (ext.empty total_size) 0 data_start)
prepare_output ext (some out) total_size data_start =
    Errors.◌>>=◌ (check_output out total_size) λ binary. ok (fill_zero binary 0 data_start)

-- The loop of encode over the inline arrays.
unfoldable pub write_arrays : List (ℕ × NdArray) → ℕ → ℕ → List ℕ → Result (List ℕ)
unfolding assign fill_zero
write_arrays [] data_start previous_end binary = ok binary
write_arrays ((rel_offset, a) ∷ arrays) data_start previous_end binary =
    let zeroed =
      if ltb previous_end rel_offset
      then fill_zero binary (data_start + previous_end) (data_start + rel_offset)
      else binary in
    let absolute_offset = data_start + rel_offset in
    Errors.◌>>=◌ (assign zeroed absolute_offset (absolute_offset + nbytes a) a.content)
      λ written. write_arrays arrays data_start (rel_offset + nbytes a) written

abbrev pub total_size_of : Analysis → ℕ
total_size_of an = align_up (max (an.data_start + an.data_bytes) frame_size) frame_size

abbrev pub header_of : Analysis → Header
header_of an = record {
  magic_bytes = magic;
  version = format_version;
  flags = 0;
  frame = frame_size;
  schema_id = an.schema_id;
  schema_version = an.schema_version;
  metadata_bytes = length an.metadata_json;
  data_start = an.data_start;
  data_bytes = an.data_bytes;
  encoded_bytes = total_size_of an;
}

-- encode after _analyze_model: the bytes of the array that it returns.
unfoldable pub write_container : Externals → Option Argument → Analysis → Result (List ℕ)
unfolding prepare_output pack_into assign write_arrays fill_zero
write_container ext out an =
    let metadata_bytes = length an.metadata_json in
    let total_size = total_size_of an in
    Errors.◌>>=◌ (prepare_output ext out total_size an.data_start) λ binary.
      Errors.◌>>=◌ (pack_into binary (header_of an)) λ packed.
        Errors.◌>>=◌ (assign packed header_size (header_size + metadata_bytes) an.metadata_json)
          λ headed. Errors.◌>>=◌ (write_arrays an.arrays an.data_start 0 headed) λ filled.
            let final_data_end = an.data_start + an.data_bytes in
            ok (
              if ltb final_data_end total_size
              then fill_zero filled final_data_end total_size
              else filled)

-- A writable 1-D C-contiguous uint8 array.
abbrev pub byte_array : List ℕ → NdArray
byte_array bs = record {
  dtype = record { name = "|u1"; itemsize = 1; hasobject = false; structured = false };
  shape = length bs ∷ [];
  c_contiguous = true;
  writeable = true;
  content = bs;
}

module _ {S : Type 0} (ext : Externals) (blob_store : Option (BlobStore S))
    (externalize_min_bytes : Option ℤ) where
  -- The tests of `externalize_min_bytes`.
  unfoldable pub check_threshold : Result (Unit {0})
  check_threshold = elim externalize_min_bytes [
    | none ↦ ok tt
    | some least ↦
        if is_negative least
        then err value_error
        else elim blob_store [ none ↦ err value_error | some store ↦ ok tt ]
  ]

  unfoldable pub analyze_tree : List ℕ × ℕ → Value → Exec S Analysis
  analyze_tree (schema_id, schema_version) tree s =
      let (r, w) =
        manifest_tree blob_store externalize_min_bytes tree
          (record { arrays = []; cursor = 0; blobs = s }) in
      continue r
        (λ manifest. do
          metadata_json ← lift (ext.to_json (json_fallback ext) manifest)
          pure (record {
            schema_id = schema_id;
            schema_version = schema_version;
            data_bytes = w.cursor;
            data_start = align_up (header_size + length metadata_json) frame_size;
            arrays = w.arrays;
            metadata_json = metadata_json;
          }))
        w.blobs

  unfoldable pub analyze_model : Object → Exec S Analysis
  unfolding check_threshold analyze_tree
  analyze_model no_model = raise type_error
  analyze_model (model m) = do
    identity ← lift (schema_identity m.model_type)
    lift check_threshold
    analyze_tree identity m.tree

  unfoldable pub encoded_size : Object → Exec S ℕ
  encoded_size obj = do an ← analyze_model obj; pure (total_size_of an)

  -- The result is a view of `out` where that is given: its bytes behind the result stay as they are.
  unfoldable pub encode : Object → Option Argument → Exec S NdArray
  encode obj out = do
    an ← analyze_model obj
    binary ← lift (write_container ext out an)
    pure (byte_array binary)
