-- ===== src/Tests/Relays.antt =====
-- The chain of examples/vineyard_chain with one stage, on the store in memory: an image of five bytes, of which two
-- are read, with arrays of two bytes and more in the store.
use mathlib.Core.Path.{subst}
use npb.Prelude.{
  ℕ, zero, suc, ◌+◌, ◌≤◌, ◌≡◌, refl, sym, ap, ◌∙◌, List, [], ◌∷◌, arith, take, replicate, ℤ, pos,
}
use npb.Errors.{Result, ok, err, other_error}
use npb.Value.{
  set_item, Items, Fields, NdArray, leaf, int, str, ndarray, dict, list, nil, cons, end, field, get,
  only_key, product, of_ints,
}
use npb.Externals.{IsArray}
use npb.Format.{align_up}
use npb.Blob.{manifest_fields}
use npb.Schema.{schema_identity}
use npb.Codec.Manifest.{
  manifest_tree, manifest_ndarray, validate_ndarray, external_store, put_external, at_least,
}
use npb.Codec.Encode.{total_size_of, Analysis, analyze_model, analyze_tree, check_threshold, assign}
use npb.Codec.RoundTrip.Trees.{IsCarried, seen}
use npb.Codec.RoundTrip.Images.{FitsFormat}
use npb.Codec.RoundTrip.Stored.{is_external}
use npb.Codec.RoundTrip.External.{IsOwn}
use npb.HugeBlob.{marker, count_up}
use npb.VineyardChain.{
  max_slice, Tensor, ChainMessage, tensor_items, message_fields, make_message, restaged, sink_main,
}
use npb.VineyardChain.Facts.{IsRelayed}
use npb.VineyardChain.Delivery.{IsSetting, travelled, analysis_of, AllFit, sink_main-published}
use npb.Tests.Documented.{sample_externals, sample_externals-Documented, write}
use npb.Tests.Sample.{analysis_in, pixels, capture_class}
use npb.Tests.Memory.{Memory, memory, memory-Lawful, memory-Sees, empty_memory, put_at, unary}

abbrev image : NdArray
image = record pixels { shape = 5 ∷ []; content = 0 ∷ 1 ∷ 7 ∷ 7 ∷ 7 ∷ [] }

abbrev message : ChainMessage
message = record {
  frame_id = 9;
  stage = 0;
  meta = field "purpose" (leaf (str "NPB + Vineyard long-chain zero-copy demo")) end;
  image = image;
  tensors = record { name = "imu"; values = pixels } ∷ [];
}

made : make_message 2 5 9 pixels ≡ ok message
unfolding make_message assign marker count_up
made = refl

-- model_validate on a tree of this shape, and of no other.
validate_items : Items → Result (List Tensor)
validate_items nil = ok []
validate_items (cons (dict (field k (leaf (str name)) (field j (ndarray values) end))) xs) =
    elim (validate_items xs) [
      | ok ts ↦ ok (record { name = name; values = values } ∷ ts)
      | err e ↦ err e
    ]
validate_items (cons v xs) = err other_error

built :
    (frame_id stage : ℕ)
    → (meta : Fields) → (array : NdArray) → Result (List Tensor)
    → Result ChainMessage
built frame_id stage meta array (ok ts) =
    ok (record { frame_id = frame_id; stage = stage; meta = meta; image = array; tensors = ts })
built frame_id stage meta array (err e) = err e

validate : Fields → Result ChainMessage
unfolding validate_items built
validate
      (field a (leaf (int (pos frame_id))) (
        field b
          (leaf (int (pos stage)))
          (field c (dict meta) (field d (ndarray array) (field e (list xs) end))))) =
    built frame_id stage meta array (validate_items xs)
validate fs = err other_error

validate_items-tensor_items : (ts : List Tensor) → validate_items (tensor_items ts) ≡ ok ts
unfolding validate_items tensor_items
validate_items-tensor_items [] = refl
validate_items-tensor_items (t ∷ ts) = rw (validate_items-tensor_items ts) refl

validate-message_fields : (m : ChainMessage) → validate (message_fields m) ≡ ok m
unfolding validate built message_fields
validate-message_fields m =
    ap (built m.frame_id m.stage m.meta m.image) (validate_items-tensor_items m.tensors)

-- The first two bytes.
unfoldable sum : List ℕ → ℕ
sum [] = 0
sum (b ∷ bs) = b + sum bs

abbrev image_sum : NdArray → Result ℤ
image_sum a = ok (pos (sum (take 2 a.content)))

setting :
    IsSetting {S = Memory} sample_externals capture_class validate memory memory-Lawful image_sum
unfolding schema_identity sample_externals memory-Lawful
setting = record {
  identity = (replicate 16 5, 3);
  named = refl;
  is_model = refl;
  validates = validate-message_fields;
  sees_self = memory-Sees;
  keeps = λ a. record { dtype_eq = refl; shape_eq = refl; content_eq = refl };
  sums = λ same. ap (λ bytes. ok (pos (sum (take 2 bytes)))) same.content_eq;
}

abbrev relayed : ℕ → ChainMessage
relayed n =
    travelled {S = Memory} sample_externals capture_class memory memory-Lawful 2 (pos 1) n message

abbrev analysis_at : ℕ → Memory → Result Analysis × Memory
analysis_at n m =
    analysis_of {S = Memory} sample_externals capture_class memory memory-Lawful 2 (pos 1)
      (relayed n) m

-- The store has two arrays after the producer, and two more after the stage.
abbrev two_arrays : Memory
two_arrays = put_at pixels (put_at image empty_memory)

abbrev four_arrays : Memory
four_arrays = put_at pixels (put_at image two_arrays)

analyzed_first :
    analysis_at 0 empty_memory ≡ (ok (analysis_in (analysis_at 0 empty_memory).0), two_arrays)
unfolding analyze_model check_threshold analyze_tree schema_identity manifest_tree manifest_ndarray
    validate_ndarray external_store put_external at_least align_up sample_externals write
    manifest_fields of_ints memory travelled message_fields tensor_items
analyzed_first = refl

-- A container that fits its header and a slice.
abbrev IsSendable : Analysis → Type 0
IsSendable an = FitsFormat an × (total_size_of an ≤ max_slice)

first-IsSendable : IsSendable (analysis_in (analysis_at 0 empty_memory).0)
unfolding analyze_model check_threshold analyze_tree schema_identity manifest_tree manifest_ndarray
    validate_ndarray external_store put_external at_least align_up sample_externals write
    manifest_fields of_ints memory travelled message_fields tensor_items unary
first-IsSendable = (omega arith, omega arith)

analyzed_next :
    analysis_at 1 two_arrays ≡ (ok (analysis_in (analysis_at 1 two_arrays).0), four_arrays)
unfolding analyze_model check_threshold analyze_tree schema_identity manifest_tree manifest_ndarray
    validate_ndarray external_store put_external at_least align_up sample_externals write
    manifest_fields of_ints memory travelled message_fields tensor_items restaged sum set_item seen
    is_external memory-Lawful
analyzed_next = refl

next-IsSendable : IsSendable (analysis_in (analysis_at 1 two_arrays).0)
unfolding analyze_model check_threshold analyze_tree schema_identity manifest_tree manifest_ndarray
    validate_ndarray external_store put_external at_least align_up sample_externals write
    manifest_fields of_ints memory travelled message_fields tensor_items restaged sum set_item seen
    is_external memory-Lawful unary
next-IsSendable = (omega arith, omega arith)

message-IsOwn : IsOwn sample_externals (dict (message_fields message))
unfolding IsCarried get only_key message_fields tensor_items sample_externals product
message-IsOwn = (
  refl,
  refl,
  (
    refl,
    tt,
    (
      refl,
      tt,
      (
        refl,
        (refl, refl, (refl, tt, tt)),
        (
          refl,
          image-IsArray,
          (refl, ((refl, refl, (refl, tt, (refl, pixels-IsArray, tt))), tt), tt),
        ),
      ),
    ),
  ),
)
  where
    image-IsArray : IsArray sample_externals image
    image-IsArray = record {
      plain = record { no_objects = refl; no_fields = refl; sized = omega arith };
      known = refl;
      filled = refl;
    }

    pixels-IsArray : IsArray sample_externals pixels
    pixels-IsArray = record {
      plain = record { no_objects = refl; no_fields = refl; sized = omega arith };
      known = refl;
      filled = refl;
    }

-- An analysis that is known.
known-IsSendable :
    (n : ℕ) (m before after : Memory) (known an : Analysis) (stop : Memory)
    → before ≡ m
    → analysis_at n m ≡ (ok known, stop)
    → IsSendable known
    → analysis_at n before ≡ (ok an, after)
    → IsSendable an × (after ≡ stop)
known-IsSendable n m before after known an stop here found fits got =
    let both : ◌≡◌ {A = Result Analysis × Memory} (ok known, stop) (ok an, after) =
      sym found ∙ ap (analysis_at n) (sym here) ∙ got in
    let same : known ≡ an = cc (ap (λ p. p.0) both) in
    (subst IsSendable same fits, sym (ap (λ p. p.1) both))

message-AllFit :
    AllFit {S = Memory} sample_externals capture_class memory memory-Lawful 2
      (pos 1)
      message
      empty_memory
      1
unfolding memory-Lawful
message-AllFit zero up_to before after an reached analyzed =
    let (fits, room) =
      (known-IsSendable 0 empty_memory before after _ an two_arrays reached analyzed_first
        first-IsSendable analyzed).0 in
    (fits, λ late. room)
message-AllFit (suc zero) up_to before after an (m, (m', (an', (reached, (first, later)))))
      analyzed =
    let here =
      (known-IsSendable 0 empty_memory m m' _ an' two_arrays reached analyzed_first first-IsSendable
        first).1 in
    let (fits, room) =
      (known-IsSendable 1 two_arrays before after _ an four_arrays (later ∙ here) analyzed_next
        next-IsSendable analyzed).0 in
    (fits, λ late. room)
message-AllFit (suc (suc n)) up_to before after an reached analyzed = absurd (omega (arith, up_to))

sink_main-published_example :
    (m : ChainMessage) × ((s' : Memory) × ((sink_main {S = Memory} sample_externals capture_class
            validate memory 2 image_sum 1 message empty_memory
          ≡ (ok m, s'))
        × IsRelayed (pos 1) 1 message m))
unfolding sum
sink_main-published_example =
    sink_main-published {S = Memory} sample_externals (sample_externals-Documented _) capture_class
      validate memory memory-Lawful 2 image_sum (pos 1) setting 1 message empty_memory refl refl
      message-IsOwn message-AllFit
