-- ===== src/HugeBlob/Subscriber.antt =====
-- examples/iceoryx2_huge_blob/subscriber.py: the loop of main. A poll of iceoryx2 gives a sample or none.
use npb.Prelude.{
  ℕ, ◌+◌, String, Bool, true, false, not, Option, none, some, List, [], ◌∷◌, str_eq, leb,
  if◌then◌else◌,
}
use npb.Errors.{raise_if, Result, ok, err, key_error, other_error, type_error}
use npb.Exec.{Exec, pure, lift, ◌>>=◌, ◌>>◌}
use npb.Value.{Value, Fields, NdArray, leaf, str, ndarray, dict, get}
use npb.Externals.{Externals, to_str}
use npb.Format.{array}
use npb.Schema.{ModelClass}
use npb.Codec.Encode.{byte_array}
use npb.Codec.Decode.{peek, decode_auto, decode}
use npb.HugeBlob.{check_markers}

-- obj["blob"] as an array, and obj["meta"] as a dict
unfoldable pub blob_of : Option Value → Result NdArray
blob_of (some (ndarray a)) = ok a
blob_of (some v) = err type_error
blob_of none = err key_error

unfoldable pub meta_of : Option Value → Result Fields
meta_of (some (dict meta)) = ok meta
meta_of (some v) = err other_error
meta_of none = err key_error

-- The warm-up and the measured samples so far.
pub record Received : Type 0 where
  pub warmup : ℕ
  pub measured : ℕ

unfoldable pub count_phase : (phase : String) → Received → Received
count_phase phase r =
    if str_eq phase "W"
    then record r { warmup = r.warmup + 1 }
    else if str_eq phase "M"
    then record r { measured = r.measured + 1 }
    else r

abbrev pub or_unknown : Option Value → Value
or_unknown (some v) = v
or_unknown none = leaf (str "?")

-- `shares_memory` is np.shares_memory.
module _ {T : Type 0} (ext : Externals) (huge_blob : ModelClass)
    (validate : Fields → Result (NdArray × Fields)) (marker_bytes : ℕ)
    (shares_memory : NdArray → NdArray → Bool) where
  -- The blob and the meta of a sample: by decode_auto, or by decode, where `validate` is pydantic's model_validate
  -- with the attributes of the message.
  unfoldable pub read_sample : (auto : Bool) → NdArray → Exec T (NdArray × Fields)
  unfolding decode_auto decode blob_of meta_of
  read_sample true binary = do
    obj ← decode_auto ext none (array binary)
    blob ← lift (blob_of (get "blob" obj))
    meta ← lift (meta_of (get "meta" obj))
    pure (blob, meta)
  read_sample false binary = decode ext none huge_blob validate (array binary)

  unfoldable pub receive_sample : (auto : Bool) → (sample : List ℕ) → Received → Exec T Received
  receive_sample auto sample r = do
    let binary = byte_array sample
    info ← lift (peek (array binary))
    (blob, meta) ← read_sample auto binary
    phase ← lift (to_str ext (or_unknown (get "benchmark_phase" meta)))
    sequence ← lift (to_str ext (or_unknown (get "benchmark_sequence" meta)))
    lift (check_markers marker_bytes blob.content)
    lift (raise_if (not (shares_memory binary blob)) other_error)
    pure (count_phase phase r)

  -- `while received_measured < iterations`, on the polls that there are.
  unfoldable pub receive_loop :
      (auto : Bool)
      → (iterations : ℕ) → (polls : List (Option (List ℕ))) → Received
      → Exec T Received
  receive_loop auto iterations [] r = pure r
  receive_loop auto iterations (none ∷ polls) r =
      let waited = receive_loop auto iterations polls r in
      if leb iterations r.measured then pure r else waited
  receive_loop auto iterations (some sample ∷ polls) r =
      let took = receive_sample auto sample r >>= receive_loop auto iterations polls in
      if leb iterations r.measured then pure r else took
