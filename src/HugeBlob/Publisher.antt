-- ===== src/HugeBlob/Publisher.antt =====
-- examples/iceoryx2_huge_blob/publisher.py: the options, the sizes, and the loop of main. iceoryx2 gives the memory
-- of each sample and takes it when it is sent; timing and printing are left out.
use npb.Prelude.{
  ℕ, suc, ◌+◌, ◌-◌, String, Bool, true, not, none, some, List, [], ◌∷◌, ltb, ◌==◌, if◌then◌else◌, ℤ,
  pos, negsuc, pos_part, is_negative,
}
use npb.Errors.{Result, ok, err, raise_if, other_error}
use npb.Exec.{Exec, pure, lift, ◌>>=◌, ◌>>◌}
use npb.Value.{set_item, nbytes, text, NdArray}
use npb.Externals.{Externals}
use npb.Format.{array}
use npb.Schema.{ModelClass}
use npb.Codec.Encode.{model, byte_array, encode, encoded_size}
use npb.HugeBlob.{HugeBlob, Arrays, Clock, message_model, make_message, make_sparse_blob}

-- `format` is f"{sequence:08d}".
unfoldable pub set_iteration_metadata :
    (format : ℕ → String) → (phase : String) → (sequence : ℕ) → HugeBlob → HugeBlob
unfolding set_item
set_iteration_metadata format phase sequence message = record message {
  meta =
      set_item "benchmark_sequence" (text (format sequence))
        (set_item "benchmark_phase" (text phase) message.meta);
}

-- The tests of the options; the sizes of --gib and --pause-ms are floats, of which only the tests are read.
pub record Options : Type 0 where
  pub gib_not_positive : Bool
  pub pause_negative : Bool
  pub iterations : ℤ
  pub warmup : ℤ

abbrev pub is_not_positive : ℤ → Bool
is_not_positive (pos n) = n == 0
is_not_positive (negsuc n) = true

unfoldable pub check_options : Options → Result (ℕ × ℕ)
check_options options =
    if options.gib_not_positive
    then err other_error
    else if is_not_positive options.iterations
    then err other_error
    else if is_negative options.warmup
    then err other_error
    else if options.pause_negative
    then err other_error
    else ok (pos_part options.warmup, pos_part options.iterations)

-- The phase and the sequence of a run.
abbrev pub phase_of : (warmup run_index : ℕ) → String × ℕ
phase_of warmup run_index =
    if ltb run_index warmup then ("W", run_index) else ("M", run_index - warmup)

-- `shares_memory` is np.shares_memory.
module _ {S : Type 0} (ext : Externals) (huge_blob : ModelClass) (format : ℕ → String)
    (shares_memory : NdArray → NdArray → Bool) where
  -- One run: the message as it is then, and the bytes of the sample that is sent. `memory` is what the loaned
  -- memory holds.
  unfoldable pub publish_run :
      (required : ℕ)
      → (phase : String) → (sequence : ℕ) → (memory : List ℕ) → HugeBlob
      → Exec S (HugeBlob × List ℕ)
  publish_run required phase sequence memory message = do
    let tagged = set_iteration_metadata format phase sequence message
    let out = byte_array memory
    encoded ← encode ext none none (model (message_model huge_blob tagged)) (some (array out))
    lift (raise_if (not (nbytes encoded == required)) other_error)
    lift (raise_if (not (shares_memory encoded out)) other_error)
    pure (tagged, encoded.content)

  -- The runs that are left, with the memory that each is given. Where a run raises, the exception alone is the result,
  -- though the samples before it have been sent.
  unfoldable pub publish_loop :
      (required warmup run_index : ℕ) → (loans : List (List ℕ)) → HugeBlob → Exec S (List (List ℕ))
  publish_loop required warmup run_index [] message = pure []
  publish_loop required warmup run_index (memory ∷ loans) message = do
    sent ←
        publish_run required (phase_of warmup run_index).0 (phase_of warmup run_index).1 memory
          message
    samples ← publish_loop required warmup (suc run_index) loans sent.0
    pure (sent.1 ∷ samples)

  unfoldable pub size_as : (phase : String) → HugeBlob → Exec S ℕ
  size_as phase message =
      encoded_size ext none none
        (model (message_model huge_blob (set_iteration_metadata format phase 0 message)))

  -- The sizes of a warm-up message and of a measured one, which must be one.
  unfoldable pub required_size : HugeBlob → Exec S (HugeBlob × ℕ)
  required_size message = do
    let warm = set_iteration_metadata format "W" 0 message
    required ← size_as "W" message
    measured_required ← size_as "M" warm
    lift (raise_if (not (measured_required == required)) other_error)
    pure (set_iteration_metadata format "M" 0 warm, required)

  -- The samples that are sent. `loans` gives the memory of each run, of the size asked for.
  unfoldable pub publish :
      (loans : ℕ → List (List ℕ)) → (warmup : ℕ) → HugeBlob → Exec S (List (List ℕ))
  publish loans warmup message = do
    ready ← required_size message
    publish_loop ready.1 warmup 0 (loans ready.1) ready.0

  -- main: `blob_bytes` is int(args.gib * 1024**3), and `loans` gives as many memories as there are runs.
  unfoldable pub main :
      (marker_bytes : ℕ)
      → Options
      → (blob_bytes : ℕ) → Arrays
      → Clock
      → (loans : (required runs : ℕ) → List (List ℕ)) → Exec S (List (List ℕ))
  main marker_bytes options blob_bytes arrays clock loans = do
    (warmup, iterations) ← lift (check_options options)
    blob ← lift (make_sparse_blob marker_bytes blob_bytes)
    publish (λ required. loans required (warmup + iterations)) warmup
        (make_message arrays clock blob)
