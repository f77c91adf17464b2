-- ===== src/VineyardChain/Delivery.antt =====
-- A message through the stages of examples/vineyard_chain to its sink.
use npb.Prelude.{
  ℕ, zero, suc, ◌≤◌, ◌<◌, ◌≡◌, refl, ◌∙◌, inl, inr, true, false, none, some, List, arith, ltb,
  Bool-cases, length, ℤ, pos,
}
use npb.Errors.{Result, ok}
use npb.Exec.{Exec}
use npb.Value.{Fields, NdArray, dict}
use npb.Externals.{Externals, Documented}
use npb.Schema.{ModelClass, schema_identity}
use npb.Blob.{BlobStore}
use npb.Codec.Manifest.{json_fallback}
use npb.Codec.Encode.{Analysis, model, analyze_model, check_threshold, total_size_of}
use npb.Codec.Encode.Image.{image}
use npb.Codec.Encode.Slices.{length-image}
use npb.Codec.RoundTrip.Trees.{IsCarried}
use npb.Codec.RoundTrip.Analyzed.{analyze_model-returns}
use npb.Codec.RoundTrip.Images.{FitsFormat, encode-image, decode-image}
use npb.Codec.RoundTrip.Stored.{Lawful, given, is_external, stored, stored-Leaves}
use npb.Codec.RoundTrip.External.{IsOwn, resolved_fields}
use npb.VineyardChain.{
  ChainMessage, message_fields, message_model, restaged, check_stage, max_slice, encoded,
  producer_main, send, receive, stage_main, published, sink_main,
}
use npb.VineyardChain.Facts.{
  SameArray, seen_message, seen-message_fields, IsRelayed, IsRelayed-first, IsRelayed-seen,
  IsRelayed-restaged, seen_message-IsOwn, restaged-IsOwn,
}

-- What is assumed of the class of the messages, and of a store that all processes share: the class has an identity,
-- model_validate gives back a message's attributes, the store sees what it holds, a resolved array has the
-- elements of the one that was put, and the sum depends on the elements alone.
pub record IsSetting {S : Type 0} (ext : Externals) (chain_message : ModelClass)
    (validate : Fields → Result ChainMessage) (store : BlobStore S) (law : Lawful ext store store)
    (image_sum : NdArray → Result ℤ) : Type 0 where
  pub identity : List ℕ × ℕ
  pub named : schema_identity chain_message ≡ ok identity
  pub is_model : chain_message.is_base_model ≡ true
  pub validates : (m : ChainMessage) → validate (message_fields m) ≡ ok m
  pub sees_self : (s : S) → law.Sees s s
  pub keeps : (a : NdArray) → SameArray (law.view a) a
  pub sums : {a b : NdArray} → SameArray a b → image_sum a ≡ image_sum b

module _ {S : Type 0} (ext : Externals) (chain_message : ModelClass) (store : BlobStore S)
    (law : Lawful ext store store) (externalize : ℕ) (checksum : ℤ) where
  abbrev pub resolved_view : NdArray → NdArray
  resolved_view = given law.view (some (pos externalize)) true

  -- The message that stage n sends, if the producer sent this one.
  unfoldable pub travelled : ℕ → ChainMessage → ChainMessage
  travelled zero message = message
  travelled (suc n) message =
      restaged (suc n) checksum (seen_message resolved_view (travelled n message))

  abbrev pub analysis_of : ChainMessage → Exec S Analysis
  analysis_of message =
      analyze_model ext (some store) (some (pos externalize))
        (model (message_model chain_message message))

  -- The store of stage n before it sends, if the producer began with s.
  abbrev pub Reaches : ChainMessage → S → ℕ → S → Type 0
  Reaches message s zero s' = s' ≡ s
  Reaches message s (suc n) s' =
      (before : S) × ((after : S) × ((an : Analysis) × (Reaches message s n before
            × ((analysis_of (travelled n message) before ≡ (ok an, after)) × law.Later after s'))))

  -- Up to stage n, what is sent fits the header's fields, and what a stage sends fits its publisher's slices.
  abbrev pub AllFit : ChainMessage → S → ℕ → Type 0
  AllFit message s n =
      (i : ℕ)
      → i ≤ n
      → (before after : S) (an : Analysis) → Reaches message s i before
      → analysis_of (travelled i message) before ≡ (ok an, after)
      → FitsFormat an × (0 < i → total_size_of an ≤ max_slice)

module _ {S : Type 0} (ext : Externals) (doc : Documented ext (json_fallback ext))
    (chain_message : ModelClass) (validate : Fields → Result ChainMessage) (store : BlobStore S)
    (law : Lawful ext store store) (externalize : ℕ) (image_sum : NdArray → Result ℤ) (checksum : ℤ)
    (setting : IsSetting ext chain_message validate store law image_sum) where
  abbrev view : NdArray → NdArray
  view = resolved_view ext chain_message store law externalize checksum

  abbrev travels : ℕ → ChainMessage → ChainMessage
  travels = travelled ext chain_message store law externalize checksum

  view-keeps : (a : NdArray) → SameArray (view a) a
  view-keeps a = elim (Bool-cases (is_external (some (pos externalize)) a)) [
    | inl outside ↦ rw outside (setting.keeps a)
    | inr inside ↦ rw inside (record { dtype_eq = refl; shape_eq = refl; content_eq = refl })
  ]

  travelled-IsOwn :
      (n : ℕ) (message : ChainMessage)
      → IsOwn ext (dict (message_fields message))
      → IsOwn ext (dict (message_fields (travels n message)))
  unfolding travelled
  travelled-IsOwn zero message h = h
  travelled-IsOwn (suc n) message h =
      restaged-IsOwn ext (suc n) checksum (seen_message view (travels n message))
        (seen_message-IsOwn view view-keeps ext (travels n message) (travelled-IsOwn n message h))

  travelled-IsRelayed :
      (n : ℕ) (message : ChainMessage)
      → message.stage ≡ 0
      → IsRelayed checksum n message (travels n message)
  unfolding travelled
  travelled-IsRelayed zero message first = IsRelayed-first checksum message first
  travelled-IsRelayed (suc n) message first =
      IsRelayed-restaged checksum n message (seen_message view (travels n message)) (
        IsRelayed-seen view view-keeps checksum n message (travels n message)
          (travelled-IsRelayed n message first))

  threshold : check_threshold ext (some store) (some (pos externalize)) ≡ ok tt
  unfolding check_threshold
  threshold = refl

  abbrev analysis : ChainMessage → Exec S Analysis
  analysis = analysis_of ext chain_message store law externalize checksum

  -- A message is encoded, and who reads the sample gets it.
  receive-encoded :
      (m : ChainMessage) (s : S)
      → IsOwn ext (dict (message_fields m))
      → ((an : Analysis) (s' : S) → analysis m s ≡ (ok an, s') → FitsFormat an)
      → (an : Analysis) × ((s' : S) × ((t : S) × ((analysis m s ≡ (ok an, s'))
              × ((encoded ext chain_message validate store externalize image_sum m s
                    ≡ (ok (image an), s'))
                  × ((length (image an) ≡ total_size_of an)
                      × ((receive ext chain_message validate store externalize image_sum
                              (image an)
                              s'
                            ≡ (ok (seen_message view m), t))
                          × law.Later s' t))))))
  unfolding receive stored IsCarried
  receive-encoded m s own fits =
      let stored_at = stored ext store store law (some (pos externalize)) in
      let leaves = stored-Leaves ext store store law (some (pos externalize)) doc in
      let (an, (s', analyzed)) =
        analyze_model-returns stored_at ext doc leaves (message_model chain_message m) s
          setting.identity own setting.named threshold in
      let (written, (identity, (facts, (valid, extends)))) =
        encode-image stored_at ext doc leaves (message_model chain_message m) none s s' an own
          analyzed (fits an s' analyzed) (doc.empty_length (total_size_of an)) in
      let (t, (read, later)) =
        decode-image stored_at ext true validate chain_message an (message_fields m) s' s'
          setting.is_model identity valid facts (setting.sees_self s') in
      let none_left = resolved_fields ext view (message_fields m) own.2 in
      let got =
        rw (none_left, seen-message_fields view m, setting.validates (seen_message view m)) at
          read in
      (an, (s', (t, (analyzed, (rw written refl, (length-image an valid, (got, later)))))))

  -- What the process behind service n sends.
  abbrev sends : ℕ → ChainMessage → Exec S (List ℕ)
  sends zero = producer_main ext chain_message validate store externalize image_sum
  sends (suc n) = send ext chain_message validate store externalize image_sum

  sends-encoded :
      (n : ℕ) (m : ChainMessage) (s s' : S) (sample : List ℕ)
      → encoded ext chain_message validate store externalize image_sum m s ≡ (ok sample, s')
      → (0 < n → length sample ≤ max_slice)
      → sends n m s ≡ (ok sample, s')
  unfolding producer_main send
  sends-encoded zero m s s' sample made fits = made
  sends-encoded (suc n) m s s' sample made fits =
      let small : ltb max_slice (length sample) ≡ false = ground (arith, fits (omega arith)) in
      rw (made, small) refl

  -- What the process behind service n sends is read.
  receive-sends :
      (n : ℕ) (message : ChainMessage) (s before : S)
      → IsOwn ext (dict (message_fields message))
      → AllFit ext chain_message store law externalize checksum message s n
      → Reaches ext chain_message store law externalize checksum message s n before
      → (an : Analysis) × ((after : S) × ((t : S) × ((analysis (travels n message) before
                ≡ (ok an, after))
              × ((sends n (travels n message) before ≡ (ok (image an), after))
                  × ((receive ext chain_message validate store externalize image_sum
                          (image an)
                          after
                        ≡ (ok (seen_message view (travels n message)), t))
                      × law.Later after t)))))
  receive-sends n message s before own fits reached =
      let (an, (after, (t, (analyzed, (made, (size, (got, later))))))) =
        receive-encoded (travels n message) before (travelled-IsOwn n message own)
          (λ an after found. (fits n (omega arith) before after an reached found).0) in
      let room = (fits n (omega arith) before after an reached analyzed).1 in
      (
        an,
        (
          after,
          (
            t,
            (
              analyzed,
              (
                sends-encoded n (travels n message) before after (image an) made
                    (λ late. omega (arith, size, room late)),
                (got, later),
              ),
            ),
          ),
        ),
      )

  -- What is on service n is what the process behind it sends then.
  published-travelled :
      (n : ℕ) (message : ChainMessage) (s : S)
      → message.stage ≡ 0
      → image_sum message.image ≡ ok checksum
      → IsOwn ext (dict (message_fields message))
      → AllFit ext chain_message store law externalize checksum message s n
      → (s' : S) × (Reaches ext chain_message store law externalize checksum message s n s'
          × (published ext chain_message validate store externalize image_sum n message s
              ≡ sends n (travels n message) s'))
  unfolding published stage_main check_stage travelled
  published-travelled zero message s first summed own fits = (s, (refl, refl))
  published-travelled (suc n) message s first summed own fits =
      let before_n : AllFit ext chain_message store law externalize checksum message s n =
        λ i up_to. fits i (omega (arith, up_to)) in
      let (before, (reached, sent)) = published-travelled n message s first summed own before_n in
      let (an, (after, (t, (analyzed, (goes, (got, later)))))) =
        receive-sends n message s before own before_n reached in
      let relayed =
        IsRelayed-seen view view-keeps checksum n message (travels n message)
          (travelled-IsRelayed n message first) in
      let total = setting.sums relayed.image_same ∙ summed in
      (
        t,
        (
          (before, (after, (an, (reached, (analyzed, later))))),
          rw (sent, goes) (rw (got, total) refl),
        ),
      )

  -- The sink behind stage n of a chain of n stages, for a message of stage 0 that is a tree of well-formed arrays
  -- and JSON values, of whose image numpy takes a sum that depends on the elements alone: with a store that does
  -- what is documented, that all processes share and whose arrays keep their elements, a class with an identity,
  -- and a model_validate that gives back a message's attributes, and where what each process sends fits the
  -- header's fields, and what each stage sends fits the 256 KiB of its publisher's slices, every process returns,
  -- and the sink gets a message with the same frame_id, the number of the last stage, the same image and tensors,
  -- and, behind one stage at least, the sum in its meta.
  pub sink_main-published :
      (n : ℕ) (message : ChainMessage) (s : S)
      → message.stage ≡ 0
      → image_sum message.image ≡ ok checksum
      → IsOwn ext (dict (message_fields message))
      → AllFit ext chain_message store law externalize checksum message s n
      → (m : ChainMessage) × ((s' : S) × ((sink_main ext chain_message validate store externalize
                image_sum n message s
              ≡ (ok m, s'))
            × IsRelayed checksum n message m))
  unfolding sink_main
  sink_main-published n message s first summed own fits =
      let (before, (reached, sent)) = published-travelled n message s first summed own fits in
      let (an, (after, (t, (_, (goes, (got, _)))))) =
        receive-sends n message s before own fits reached in
      (
        seen_message view (travels n message),
        (
          t,
          (
            rw (sent, goes) got,
            IsRelayed-seen view view-keeps checksum n message (travels n message)
                (travelled-IsRelayed n message first),
          ),
        ),
      )
