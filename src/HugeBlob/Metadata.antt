-- ===== src/HugeBlob/Metadata.antt =====
-- The dict "meta" of a message of examples/iceoryx2_huge_blob, as decoding gives it back.
use npb.Prelude.{ℕ, String, ◌≡◌, refl, ap, ◌∙◌, some}
use npb.Value.{set_item, NdArray, text, get}
use npb.Codec.RoundTrip.Trees.{get-seen_fields, seen_option, seen, seen_fields}
use npb.Value.Dicts.{get-set_item_self, get-set_item_ne}
use npb.HugeBlob.{HugeBlob}
use npb.HugeBlob.Publisher.{set_iteration_metadata}

module _ (format : ℕ → String) (phase : String) (sequence : ℕ) (message : HugeBlob) where
  pub tagged_phase :
      (view : NdArray → NdArray)
      → get "benchmark_phase"
          (seen_fields view (set_iteration_metadata format phase sequence message).meta)
        ≡ some (text phase)
  unfolding set_iteration_metadata seen
  tagged_phase view =
      get-seen_fields view "benchmark_phase" _
      ∙ ap (seen_option view) (
          get-set_item_ne "benchmark_sequence" "benchmark_phase" (text (format sequence)) _ refl
          ∙ get-set_item_self "benchmark_phase" (text phase) message.meta)

  pub tagged_sequence :
      (view : NdArray → NdArray)
      → get "benchmark_sequence"
          (seen_fields view (set_iteration_metadata format phase sequence message).meta)
        ≡ some (text (format sequence))
  unfolding set_iteration_metadata seen
  tagged_sequence view =
      get-seen_fields view "benchmark_sequence" _
      ∙ ap (seen_option view) (
          get-set_item_self "benchmark_sequence" (text (format sequence))
            (set_item "benchmark_phase" (text phase) message.meta))
