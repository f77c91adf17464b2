-- ===== src/Tests/Streams.antt =====
-- A frame that comes in pieces.
use npb.Prelude.{
  ℕ, ◌≡◌, refl, true, none, some, List, [], ◌∷◌, ◌++◌, arith, ◌==◌, if◌then◌else◌, length,
}
use npb.Mstore.Errors.{ok}
use npb.Mstore.Json.{Members, object, end, member, null}
use npb.Mstore.Protocol.{JsonText, Socket, encode_frame, pack, recv_exact, recv_frame}
use npb.Mstore.Protocol.Descriptors.{
  Outgoing, Channel, rights, send_frame, recv_frame_with_optional_fd,
}
use npb.Mstore.Protocol.Passing.{recv_frame_with_optional_fd-send_frame}
use npb.Mstore.Protocol.Stream.{IsRead, recv_exact-IsRead, recv_frame-encode_frame}

-- Two messages, {} and {"a":null}, and their texts.
empty_or_a : Members → List ℕ
empty_or_a end = 123 ∷ 125 ∷ []
empty_or_a _ = 123 ∷ 34 ∷ 97 ∷ 34 ∷ 58 ∷ 110 ∷ 117 ∷ 108 ∷ 108 ∷ 125 ∷ []

abbrev message : Members
message = member "a" null end

abbrev small_json : JsonText
small_json = record {
  dumps = empty_or_a;
  loads = λ bs.
      if length bs == 2
      then some (object end)
      else if length bs == 10
      then some (object message)
      else none;
}

abbrev payload : List ℕ
payload = 123 ∷ 34 ∷ 97 ∷ 34 ∷ 58 ∷ 110 ∷ 117 ∷ 108 ∷ 108 ∷ 125 ∷ []

abbrev frame : List ℕ
frame = 0 ∷ 0 ∷ 0 ∷ 10 ∷ payload

-- It comes in pieces of 1, 2, 1, 4 and the rest, with two bytes of the next frame.
abbrev stream : Socket
stream = record { pending = frame ++ 0 ∷ 0 ∷ []; sizes = 0 ∷ 1 ∷ 7 ∷ 3 ∷ [] }

recv_exact-IsRead_example : IsRead 4 stream (recv_exact 4 stream)
recv_exact-IsRead_example = recv_exact-IsRead 4 stream (omega arith)

recv_frame-encode_frame_example :
    (t : Socket) × ((recv_frame small_json stream ≡ (ok message, t)) × (t.pending ≡ 0 ∷ 0 ∷ []))
unfolding encode_frame pack empty_or_a
recv_frame-encode_frame_example =
    recv_frame-encode_frame small_json message frame (0 ∷ 0 ∷ []) stream refl refl refl

-- The frame with the descriptor 9, of which sendmsg takes 5 bytes.
abbrev outgoing : Outgoing
outgoing = record { bytes = frame; rights = 9 ∷ [] }

abbrev channel : Channel
channel = record {
  socket = record stream { pending = frame };
  ancillary = rights (9 ∷ []) ∷ [];
  closed = [];
}

recv_frame_with_optional_fd-send_frame_example :
    (d : Channel) × ((recv_frame_with_optional_fd small_json true channel
        ≡ (ok (message, some 9), d))
      × ((d.closed ≡ []) × (d.socket.pending ≡ [])))
unfolding send_frame encode_frame pack empty_or_a
recv_frame_with_optional_fd-send_frame_example =
    recv_frame_with_optional_fd-send_frame small_json 5 message (some 9) outgoing channel refl refl
      refl refl
