-- ===== src/Tests/Sample.antt =====
-- A model with a text, an array and a tuple.
use npb.Prelude.{true, some, [], ◌∷◌, replicate, pos}
use npb.Value.{Fields, NdArray, ndarray, tuple, dict, cons, nil, field, end, text, number}
use npb.Schema.{ModelClass}
use npb.Codec.Encode.{Model, Analysis}
use npb.Errors.{Result, ok, err}
use npb.Tests.Documented.{uint8}

abbrev pub pixels : NdArray
pixels = record {
  dtype = uint8;
  shape = 3 ∷ [];
  c_contiguous = true;
  writeable = true;
  content = 9 ∷ 8 ∷ 7 ∷ [];
}

abbrev pub capture_class : ModelClass
capture_class = record {
  is_base_model = true;
  schema_name = some (0x61 ∷ []);
  schema_id = some (replicate 16 5);
  schema_version = some (pos 3);
}

abbrev pub capture_fields : Fields
capture_fields = field "name" (text "cap") (
    field "pixels" (ndarray pixels)
      (field "at" (tuple (cons (number 1) (cons (number 2) nil))) end))

abbrev pub capture : Model
capture = record { model_type = capture_class; tree = dict capture_fields }

-- The analysis that was returned.
abbrev pub analysis_in : Result Analysis → Analysis
analysis_in (ok an) = an
analysis_in (err exc) = record {
  schema_id = [];
  schema_version = 0;
  data_bytes = 0;
  data_start = 0;
  arrays = [];
  metadata_json = [];
}
