-- ===== src/VineyardChain.antt =====
-- examples/vineyard_chain: common.py, producer.py, stage.py and sink.py, on the codec and a blob store. NumPy's other
-- arrays, the clock and pydantic's model_validate are parameters, and so are EXTERNALIZE, which is 2 ** 20, and the
-- sum of the image's first elements. iceoryx2 hands a sample on as it was sent.
pub mod Carried
pub mod Facts
pub mod Delivery
use npb.Prelude.{
  ℕ, zero, suc, ◌*◌, String, none, some, List, [], ◌∷◌, ltb, length, replicate, ℤ, pos, negsuc,
}
use npb.Errors
use npb.Errors.{raise_if, Result, ok, err, other_error}
use npb.Exec.{◌>>◌, Exec, pure, lift, ◌>>=◌}
use npb.Value.{
  leaf, int, set_item, Items, Fields, NdArray, ndarray, list, dict, text, number, nil, cons, end,
  field,
}
use npb.Externals.{Externals}
use npb.Format.{array}
use npb.Schema.{ModelClass}
use npb.Blob.{BlobStore}
use npb.Codec.Encode.{Model, model, assign, byte_array, encode}
use npb.Codec.Decode.{decode}
use npb.HugeBlob.{marker}

pub record Tensor : Type 0 where
  pub name : String
  pub values : NdArray

-- class ChainMessage. Its `meta` is a dict.
pub record ChainMessage : Type 0 where
  pub frame_id : ℕ
  pub stage : ℕ
  pub meta : Fields
  pub image : NdArray
  pub tensors : List Tensor

unfoldable pub tensor_items : List Tensor → Items
tensor_items [] = nil
tensor_items (t ∷ ts) =
    cons (dict (field "name" (text t.name) (field "values" (ndarray t.values) end)))
      (tensor_items ts)

-- The fields of a message, in order.
unfoldable pub message_fields : ChainMessage → Fields
unfolding tensor_items
message_fields message = field "frame_id" (number message.frame_id) (
    field "stage" (number message.stage) (
      field "meta" (dict message.meta) (
        field "image" (ndarray message.image)
          (field "tensors" (list (tensor_items message.tensors)) end))))

abbrev pub message_model : ModelClass → ChainMessage → Model
message_model chain_message message = record {
  model_type = chain_message;
  tree = dict (message_fields message);
}

-- `size` is int(gib * 1024**3), `frame_id` is time.time_ns(), and `imu` is the array of the tensor.
unfoldable pub make_message : (head size frame_id : ℕ) → (imu : NdArray) → Result ChainMessage
unfolding assign marker
make_message head size frame_id imu =
    Errors.◌>>=◌ (assign (replicate size 7) 0 head (marker head)) λ bytes. ok (record {
      frame_id = frame_id;
      stage = 0;
      meta = field "purpose" (text "NPB + Vineyard long-chain zero-copy demo") end;
      image = byte_array bytes;
      tensors = record { name = "imu"; values = imu } ∷ [];
    })

-- What a stage does to the message.
unfoldable pub restaged : (stage : ℕ) → (checksum : ℤ) → ChainMessage → ChainMessage
unfolding set_item
restaged stage checksum message = record message {
  stage = stage;
  meta = set_item "last_checksum" (leaf (int checksum)) message.meta;
}

-- initial_max_slice_len of a stage's publisher, which makes a loan of more fail
abbrev pub max_slice : ℕ
max_slice = 256 * 1024

-- The option --stage.
unfoldable pub check_stage : ℤ → Result ℕ
check_stage (pos zero) = err other_error
check_stage (pos (suc n)) = ok (suc n)
check_stage (negsuc n) = err other_error

-- `image_sum` is int(image[:4096].sum()).
module _ {S : Type 0} (ext : Externals) (chain_message : ModelClass)
    (validate : Fields → Result ChainMessage) (store : BlobStore S) (externalize : ℕ)
    (image_sum : NdArray → Result ℤ) where
  abbrev pub encoded : ChainMessage → Exec S (List ℕ)
  encoded message = do
    control ←
        encode ext (some store) (some (pos externalize))
          (model (message_model chain_message message)) none
    pure control.content

  unfoldable pub receive : List ℕ → Exec S ChainMessage
  receive sample = decode ext (some store) chain_message validate (array (byte_array sample))

  -- The producer's sample, in a slice of its own size.
  unfoldable pub producer_main : ChainMessage → Exec S (List ℕ)
  producer_main message = encoded message

  -- The sample that a stage sends.
  unfoldable pub send : ChainMessage → Exec S (List ℕ)
  send message = do
    outgoing ← encoded message
    lift (raise_if (ltb max_slice (length outgoing)) other_error)
    pure outgoing

  -- The stage with this option, for one sample.
  unfoldable pub stage_main : (stage : ℤ) → (sample : List ℕ) → Exec S (List ℕ)
  unfolding check_stage restaged receive send
  stage_main stage sample = do
    index ← lift (check_stage stage)
    message ← receive sample
    checksum ← lift (image_sum message.image)
    send (restaged index checksum message)

  -- The sample on the service of this number, where the producer sent a message: it is the producer's on service
  -- 0, and stage n takes that of service n - 1.
  unfoldable pub published : (service : ℕ) → ChainMessage → Exec S (List ℕ)
  unfolding stage_main producer_main
  published zero message = producer_main message
  published (suc n) message = published n message >>= stage_main (pos (suc n))

  -- The message that a sink behind stage `after_stage` gets.
  unfoldable pub sink_main : (after_stage : ℕ) → ChainMessage → Exec S ChainMessage
  unfolding published receive
  sink_main after_stage message = published after_stage message >>= receive
