-- ===== src/Chain.antt =====
-- The example zeromq_mutable_shm_chain: producer.py, stage.py and sink.py on one shared byte array. Its
-- connections, its options and what it prints are left out, and so is the decoding of each message.
pub mod Order
use npb.Prelude.{
  ℕ, zero, suc, ◌+◌, ◌-◌, ◌%◌, ◌^◌, Bool, true, not, List, [], ◌∷◌, ltb, leb, ◌==◌, if◌then◌else◌,
  length, get_elem?, set, replicate, ℤ, pos, negsuc, pos_part,
}
use npb.Mstore.Errors.{Result, ok, err, other_error, or_raise, ◌>>=◌}

-- ChainMessage, with what the code looks at of its image reference.
pub record ChainMessage : Type 0 where
  pub sequence : ℤ
  pub stage : ℕ
  pub generation : ℕ

-- image[:count] = 0
unfoldable pub clear_first : ℕ → List ℕ → List ℕ
clear_first zero image = image
clear_first (suc n) [] = []
clear_first (suc n) (b ∷ image) = 0 ∷ clear_first n image

-- The messages of the producer's loop from a sequence number on, for an object of a generation.
unfoldable pub messages_from : ℕ → ℕ → ℕ → List ChainMessage
messages_from generation sequence zero = []
messages_from generation sequence (suc n) =
    record { sequence = pos sequence; stage = 0; generation = generation }
    ∷ messages_from generation (suc sequence) n

-- What is shared, and the messages in the order in which they were made.
pub record Flow : Type 0 where
  pub image : List ℕ
  pub messages : List ChainMessage

-- The tests of the producer, the array that it makes and what it sends.
unfoldable pub produce : (size count generation : ℕ) → Result Flow
unfolding clear_first messages_from
produce size count generation =
    if size == 0
    then err other_error
    else if count == 0
    then err other_error
    else if ltb size count
    then err other_error
    else ok (record {
      image = clear_first count (replicate size 7);
      messages = messages_from generation 0 count;
    })

-- slot < 0 or slot >= image.size
unfoldable pub is_outside : ℤ → ℕ → Bool
is_outside (negsuc n) size = true
is_outside (pos n) size = leb size n

-- One frame in a stage that has opened the object: `generation` is the object's.
unfoldable pub stage_frame :
    (stage generation : ℕ) → List ℕ → ChainMessage → Result (List ℕ × ChainMessage)
unfolding is_outside
stage_frame stage generation image message =
    if not (generation == message.generation)
    then err other_error
    else if is_outside message.sequence (length image)
    then err other_error
    else or_raise (get_elem? image (pos_part message.sequence)) other_error >>= λ before. ok (
      set image (pos_part message.sequence) ((before + stage) % 2 ^ 8),
      record message { stage = stage },
    )

-- sum(range(1, n + 1))
unfoldable pub sum_to : ℕ → ℕ
sum_to zero = 0
sum_to (suc n) = sum_to n + suc n

unfoldable pub expected_value : (after_stage : ℕ) → ℕ
unfolding sum_to
expected_value after_stage = sum_to after_stage % 2 ^ 8

-- image[slot], where a negative slot counts from the end
unfoldable pub item_at : List ℕ → ℤ → Result ℕ
item_at image (pos n) = or_raise (get_elem? image n) other_error
item_at image (negsuc n) =
    if ltb n (length image)
    then or_raise (get_elem? image (length image - suc n)) other_error
    else err other_error

-- One frame in the sink that has opened the object, whose view is writable or not: the value that it prints.
unfoldable pub sink_frame :
    (after_stage generation : ℕ) → (writeable : Bool) → List ℕ → ChainMessage → Result ℕ
unfolding item_at expected_value
sink_frame after_stage generation writeable image message =
    if not (generation == message.generation)
    then err other_error
    else item_at image message.sequence >>= λ value.
        if not (message.stage == after_stage)
        then err other_error
        else if not (value == expected_value after_stage)
        then err other_error
        else if writeable
        then err other_error
        else ok value
