-- ===== src/Tests/Pipelines.antt =====
-- ZeroMQ as one queue of messages: what Carries asks can hold. A model sent twice, and received twice.
use npb.Prelude.{
  ℕ, ◌≡◌, refl, sym, ap, Bool, true, false, none, some, List, [], ◌∷◌, ◌++◌, str_eq, if◌then◌else◌,
  pos,
}
use npb.Errors.{Result, ok, err, blob_store_error}
use npb.Format.{require_binary_array, is_uint8}
use npb.Codec.Manifest.{json_fallback}
use npb.Codec.Encode.{model, encode, byte_array}
use npb.Codec.Encode.Image.{image}
use npb.Codec.RoundTrip.Trees.{seen_fields}
use npb.Codec.RoundTrip.Stored.{stored, stored-Leaves, given}
use npb.Tests.Memory.{
  Memory, memory, memory-Lawful, memory-Sees, empty_memory, one_array, stored_analysis,
  stored-analyzed, stored-IsOwn, stored-FitsFormat,
}
use npb.Codec.RoundTrip.Images.{decode_auto-encode-image}
use npb.Zmq.{
  Pyzmq, Socket, new_socket, Settings, check_settings, refuses, push_type_name, context_of, set_hwm,
  set_timeout, attach, send_model, send,
}
use npb.Zmq.Queues.{Carries, Message, IsAccepted, send_all, recv_all}
use npb.Zmq.Pipeline.{recv_all-send_all}
use npb.Tests.Documented.{sample_externals, sample_externals-Documented}
use npb.Tests.Sample.{capture, capture_fields}

abbrev Queue : Type 0
Queue = List (List ℕ)

take_first : Queue → Result (List ℕ) × Queue
take_first [] = (err blob_store_error, [])
take_first (payload ∷ rest) = (ok payload, rest)

-- The push end is socket 0, the pull end socket 1.
queue_zmq : Pyzmq Queue
unfolding take_first
queue_zmq = record {
  import_zmq = λ q. (ok tt, q);
  instance_of = λ q. (ok 0, q);
  socket = λ context name q. (ok (if str_eq name push_type_name then 0 else 1), q);
  setsockopt = λ raw option value q. (ok tt, q);
  bind = λ raw endpoint q. (ok tt, q);
  connect = λ raw endpoint q. (ok tt, q);
  send = λ raw payload flags copy q. (ok tt, q ++ (payload ∷ []));
  recv = λ raw flags. take_first;
  close = λ raw q. (ok tt, q);
}

abbrev settings : Settings
settings = record {
  context = none;
  hwm = some (pos 4);
  linger_ms = pos 0;
  send_timeout_ms = none;
  recv_timeout_ms = none;
}

abbrev end_of : ℕ → Bool → Socket
end_of raw closed = record { raw = raw; context = 0; endpoint = "inproc://npb"; closed = closed }

new_socket_run :
    new_socket queue_zmq push_type_name "inproc://npb" true settings [] ≡ (ok (end_of 0 false), [])
unfolding new_socket queue_zmq check_settings refuses context_of set_hwm set_timeout attach
new_socket_run = refl

queue-Carries : Carries queue_zmq 0 1 true (pos 0)
unfolding queue_zmq take_first
queue-Carries = record {
  waiting = λ q. q;
  send_queues = λ payload z z' h. sym (ap (λ r. r.1) h);
  recv_takes = λ payload rest z h. (rest, (rw h refl, refl));
}

-- The model of Tests/Memory, whose array goes to the store. The second time it would be another array of the
-- store, and so another analysis: the model is sent once.
sent_capture : Message Memory
sent_capture = record {
  content = capture;
  fields = capture_fields;
  analysis = stored_analysis;
  after = one_array;
}

sent_capture-IsAccepted :
    IsAccepted
      (stored sample_externals memory memory memory-Lawful (some (pos 2)))
      sample_externals
      empty_memory
      sent_capture
unfolding sent_capture stored
sent_capture-IsAccepted = record {
  shape = refl;
  is_carried = stored-IsOwn;
  analyzed = stored-analyzed;
  fits = stored-FitsFormat;
}

abbrev one_message : Queue
one_message = image stored_analysis ∷ []

capture-encoded :
    encode sample_externals (some memory) (some (pos 2)) (model capture) none empty_memory
    ≡ (ok (byte_array (image stored_analysis)), one_array)
unfolding stored
capture-encoded =
    (decode_auto-encode-image (stored sample_externals memory memory memory-Lawful (some (pos 2)))
      sample_externals (sample_externals-Documented _)
      (stored-Leaves sample_externals memory memory memory-Lawful (some (pos 2))
        (sample_externals-Documented _))
      capture capture_fields none empty_memory one_array stored_analysis refl stored-IsOwn
      stored-analyzed stored-FitsFormat
      ((sample_externals-Documented (json_fallback sample_externals)).empty_length _)).0

capture-sent :
    send_all queue_zmq sample_externals
      (some memory)
      (pos 0)
      (some (pos 2))
      true
      (end_of 0 false)
      (capture ∷ [])
      (empty_memory, [])
    ≡ (ok tt, (one_array, one_message))
unfolding send_all send_model send require_binary_array is_uint8 queue_zmq
capture-sent = rw capture-encoded refl

recv_all-send_all_example :
    (t : Memory) × ((z : Queue) × ((recv_all queue_zmq sample_externals
            (some memory)
            (pos 0)
            (end_of 1 false)
            1
            (one_array, one_message)
          ≡ (
            ok (seen_fields (given memory-Lawful.view (some (pos 2)) false) capture_fields ∷ []),
            (t, z),
          ))
        × (z ≡ [])))
unfolding queue-Carries sent_capture
recv_all-send_all_example =
    recv_all-send_all queue_zmq sample_externals (sample_externals-Documented _) memory memory
      memory-Lawful (some (pos 2)) (end_of 0 false) (end_of 1 false) true (pos 0) queue-Carries
      (sent_capture ∷ []) empty_memory one_array one_array [] one_message
      (sent_capture-IsAccepted, tt) refl capture-sent (memory-Sees one_array)
