-- ===== src/Tests/Flows.antt =====
-- Two messages on an array of three bytes: stage 1 takes both, the second one first, and stage 2 the first.
use npb.Prelude.{ℕ, ◌≡◌, refl, false, List, [], ◌∷◌, pos}
use npb.Mstore.Errors.{ok}
use npb.Chain.{
  ChainMessage, Flow, produce, clear_first, messages_from, stage_frame, is_outside, sink_frame,
  expected_value,
}
use npb.Chain.Order.{Steps, here, next, works, sink_frame-produce}

abbrev message : ℕ → ℕ → ChainMessage
message i stage = record { sequence = pos i; stage = stage; generation = 1 }

abbrev start : Flow
start = record { image = 0 ∷ 0 ∷ 7 ∷ []; messages = message 0 0 ∷ message 1 0 ∷ [] }

abbrev end : Flow
end = record { image = 3 ∷ 1 ∷ 7 ∷ []; messages = message 0 2 ∷ message 1 1 ∷ [] }

start-produced : produce 3 2 1 ≡ ok start
unfolding produce clear_first messages_from
start-produced = refl

end-reached : Steps 1 start end
unfolding stage_frame is_outside
end-reached =
    next
      (next (next here (works start 1 (message 1 0) (0 ∷ 1 ∷ 7 ∷ [], message 1 1) refl refl)) (
        works (record { image = 0 ∷ 1 ∷ 7 ∷ []; messages = message 0 0 ∷ message 1 1 ∷ [] }) 0
          (message 0 0) (1 ∷ 1 ∷ 7 ∷ [], message 0 1) refl refl))
      (works (record { image = 1 ∷ 1 ∷ 7 ∷ []; messages = message 0 1 ∷ message 1 1 ∷ [] }) 0
        (message 0 1) (3 ∷ 1 ∷ 7 ∷ [], message 0 2) refl refl)

sink_frame-produce_example :
    (sink_frame 2 1 false end.image (message 0 2) ≡ ok (expected_value 2))
    × ((r : List ℕ × ChainMessage) × (stage_frame 3 1 end.image (message 0 2) ≡ ok r))
sink_frame-produce_example =
    sink_frame-produce 3 2 1 start end 0 (message 0 2) start-produced end-reached refl
