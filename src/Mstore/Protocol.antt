-- ===== src/Mstore/Protocol.antt =====
-- The frames of mstore/protocol.py on a stream socket.
pub mod Stream
pub mod Descriptors
pub mod Passing
use npb.Prelude.{
  ℕ, zero, suc, ◌+◌, ◌-◌, ◌*◌, ◌/◌, ◌%◌, ◌^◌, min, not, Option, List, [], ◌∷◌, ◌++◌, ltb, ◌==◌,
  if◌then◌else◌, length, take, drop,
}
use npb.Mstore.Errors.{
  Exn, Result, ok, err, ◌>>=◌, ◌>>◌, raise_if, or_raise, protocol_error, eof_error,
}
use npb.Mstore.Json.{Json, Members, object}

abbrev pub max_frame : ℕ
max_frame = 4 * 1024 * 1024

abbrev pub header_size : ℕ
header_size = 4

-- json.dumps(…).encode("utf-8"), and json.loads(….decode("utf-8")), which may refuse
pub record JsonText : Type 0 where
  pub dumps : Members → List ℕ
  pub loads : List ℕ → Option Json

-- _HEADER.pack(size): four bytes, the highest first
unfoldable pub pack : ℕ → List ℕ
pack size = size / 2 ^ 24 % 2 ^ 8 ∷ size / 2 ^ 16 % 2 ^ 8 ∷ size / 2 ^ 8 % 2 ^ 8 ∷ size % 2 ^ 8 ∷ []

-- _HEADER.unpack(bytes), which wants four bytes
unfoldable pub unpack : List ℕ → Result ℕ
unpack (a ∷ b ∷ c ∷ d ∷ []) = ok (a * 2 ^ 24 + b * 2 ^ 16 + c * 2 ^ 8 + d)
unpack _ = err Exn.other_error

unfoldable pub require_object : Json → Result Members
require_object (object fields) = ok fields
require_object _ = err protocol_error

-- What is left of a connection: the bytes that the peer has sent or will send before it closes, and
-- how many of them, less one, each recv finds at most.
pub record Socket : Type 0 where
  pub pending : List ℕ
  pub sizes : List ℕ

-- How much the next recv(n) finds at most.
abbrev pub limit : ℕ → List ℕ → ℕ
limit n [] = n
limit n (k ∷ ks) = min n (suc k)

abbrev pub next_sizes : List ℕ → List ℕ
next_sizes [] = []
next_sizes (k ∷ ks) = ks

-- sock.recv(n)
unfoldable pub recv : ℕ → Socket → List ℕ × Socket
recv n s = (
  take (limit n s.sizes) s.pending,
  record { pending = drop (limit n s.sizes) s.pending; sizes = next_sizes s.sizes },
)

abbrev pub append_to : List ℕ → Result (List ℕ) × Socket → Result (List ℕ) × Socket
append_to chunk (ok more, s) = (ok (chunk ++ more), s)
append_to chunk (err e, s) = (err e, s)

-- The loop of recv_exact. A round that goes on has received at least one byte, so that `remaining`
-- rounds are enough.
unfoldable pub recv_loop : ℕ → ℕ → Socket → Result (List ℕ) × Socket
unfolding recv
recv_loop rounds zero s = (ok [], s)
recv_loop zero (suc n) s = (err eof_error, s)
recv_loop (suc rounds) (suc n) s =
    let received = recv (suc n) s in
    let later = recv_loop rounds (suc n - length received.0) received.1 in
    if length received.0 == 0 then (err eof_error, received.1) else append_to received.0 later

unfoldable pub recv_exact : ℕ → Socket → Result (List ℕ) × Socket
unfolding recv_loop
recv_exact size s = recv_loop size size s

module _ (text : JsonText) where
  unfoldable pub encode_frame : Members → Result (List ℕ)
  unfolding pack
  encode_frame message = do
    let payload = text.dumps message
    raise_if (ltb max_frame (length payload)) protocol_error
    ok (pack (length payload) ++ payload)

  unfoldable pub decode_frame : List ℕ → Result Members
  unfolding unpack require_object
  decode_frame frame = do
    raise_if (ltb (length frame) header_size) protocol_error
    size ← unpack (take header_size frame)
    raise_if (ltb max_frame size) protocol_error
    raise_if (not (length frame == header_size + size)) protocol_error
    value ← or_raise (text.loads (drop header_size frame)) protocol_error
    require_object value

  -- recv_frame, once the header is there
  unfoldable pub recv_payload : List ℕ → Result ℕ → Socket → Result Members × Socket
  unfolding recv_exact decode_frame
  recv_payload header (err e) s = (err e, s)
  recv_payload header (ok size) s =
      if ltb max_frame size
      then (err protocol_error, s)
      else let received = recv_exact size s in
        (received.0 >>= (λ payload. decode_frame (header ++ payload)), received.1)

  abbrev pub after_header : Result (List ℕ) × Socket → Result Members × Socket
  after_header (ok header, s) = recv_payload header (unpack header) s
  after_header (err e, s) = (err e, s)

  unfoldable pub recv_frame : Socket → Result Members × Socket
  unfolding recv_exact recv_payload unpack
  recv_frame s = after_header (recv_exact header_size s)
