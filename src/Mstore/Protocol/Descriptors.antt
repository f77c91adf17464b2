-- ===== src/Mstore/Protocol/Descriptors.antt =====
-- Frames with a descriptor beside them, and frames on named pipes: send_frame, recv_frame_with_optional_fd,
-- send_pipe_frame and recv_pipe_frame of mstore/protocol.py.
use npb.Prelude.{
  ℕ, ◌+◌, ◌-◌, ◌*◌, Bool, true, false, not, Option, none, some, List, [], ◌∷◌, ◌++◌, ltb, ◌==◌,
  if◌then◌else◌, length, take, drop,
}
use npb.Mstore.Errors.{Exn, Result, ok, err, protocol_error, eof_error, os_error}
use npb.Mstore.Json.{Members}
use npb.Mstore.Protocol.{
  JsonText, Socket, max_frame, header_size, unpack, recv, recv_exact, encode_frame, decode_frame,
  recv_frame,
}

-- What was sent on a socket: the bytes, and the descriptors beside them.
pub record Outgoing : Type 0 where
  pub bytes : List ℕ
  pub rights : List ℕ

-- sock.sendall(bytes)
abbrev pub sendall : List ℕ → Outgoing → Outgoing
sendall bytes s = record s { bytes = s.bytes ++ bytes }

-- sock.sendmsg with one descriptor, which takes the first `sent` bytes
abbrev pub sendmsg : ℕ → List ℕ → ℕ → Outgoing → Outgoing
sendmsg sent frame fd s = record {
  bytes = s.bytes ++ take sent frame;
  rights = s.rights ++ (fd ∷ []);
}

-- One item of ancillary data: SCM_RIGHTS with its descriptors, or any other.
pub data Ancillary : Type 0 where
  rights : List ℕ → Ancillary
  another : Ancillary

-- A socket, the ancillary data that the next recvmsg gives, and the descriptors that os.close was called on,
-- in order.
pub record Channel : Type 0 where
  pub socket : Socket
  pub ancillary : List Ancillary
  pub closed : List ℕ

-- The loop over ancdata: the descriptor that is kept, and those that are closed.
unfoldable pub take_rights : List Ancillary → Option ℕ × List ℕ
take_rights [] = (none, [])
take_rights (another ∷ items) = take_rights items
take_rights (rights [] ∷ items) = take_rights items
take_rights (rights (fd ∷ extra) ∷ items) = (some fd, extra)

unfoldable pub close_optional : Option ℕ → Channel → Channel
close_optional none c = c
close_optional (some fd) c = record c { closed = c.closed ++ (fd ∷ []) }

-- buf.extend(recv_exact(sock, n))
abbrev pub extend : List ℕ → Result (List ℕ) × Socket → Result (List ℕ) × Socket
extend buf (ok more, s) = (ok (buf ++ more), s)
extend buf (err exc, s) = (err exc, s)

-- At least n bytes in buf, where recv_exact gives as many as it is asked for.
unfoldable pub fill : ℕ → List ℕ → Socket → Result (List ℕ) × Socket
unfolding recv_exact
fill n buf s =
    if ltb (length buf) n then extend buf (recv_exact (n - length buf) s) else (ok buf, s)

module _ (text : JsonText) where
  abbrev pub sends : Bool → ℕ → Option ℕ → Result (List ℕ) → Outgoing → Result (Unit {0}) × Outgoing
  sends has_sendmsg sent fd (err exc) s = (err exc, s)
  sends has_sendmsg sent none (ok frame) s = (ok tt, sendall frame s)
  sends false sent (some fd) (ok frame) s = (err protocol_error, s)
  sends true sent (some fd) (ok frame) s =
      let first = sendmsg sent frame fd s in
      (ok tt, if ltb sent (length frame) then sendall (drop sent frame) first else first)

  unfoldable pub send_frame :
      (has_sendmsg : Bool)
      → (sent : ℕ) → Members
      → Option ℕ
      → Outgoing
      → Result (Unit {0}) × Outgoing
  unfolding encode_frame
  send_frame has_sendmsg sent message fd s = sends has_sendmsg sent fd (encode_frame text message) s

  -- The descriptor is closed before the exception is raised.
  abbrev pub refuse : Exn → Option ℕ → Channel → Result (Members × Option ℕ) × Channel
  refuse exc fd c = (err exc, close_optional fd c)

  abbrev pub decoded : Result Members → Option ℕ → Channel → Result (Members × Option ℕ) × Channel
  decoded (ok message) fd c = (ok (message, fd), c)
  decoded (err exc) fd c = refuse exc fd c

  -- The frame is whole.
  abbrev pub whole :
      ℕ → Option ℕ → Channel → Result (List ℕ) × Socket → Result (Members × Option ℕ) × Channel
  whole total fd c (err exc, s) = (err exc, record c { socket = s })
  whole total fd c (ok buf, s) =
      let c' = record c { socket = s } in
      if not (length buf == total)
      then refuse protocol_error fd c'
      else decoded (decode_frame text buf) fd c'

  abbrev pub with_size :
      List ℕ → Option ℕ → Channel → Result ℕ → Result (Members × Option ℕ) × Channel
  with_size buf fd c (err exc) = (err exc, c)
  with_size buf fd c (ok size) =
      if ltb max_frame size
      then refuse protocol_error fd c
      else whole (header_size + size) fd c (fill (header_size + size) buf c.socket)

  abbrev pub with_header :
      Option ℕ → Channel → Result (List ℕ) × Socket → Result (Members × Option ℕ) × Channel
  with_header fd c (err exc, s) = (err exc, record c { socket = s })
  with_header fd c (ok buf, s) =
      with_size buf fd (record c { socket = s }) (unpack (take header_size buf))

  -- What follows recvmsg, which got some bytes.
  unfoldable pub recv_rest : List ℕ → Channel → Result (Members × Option ℕ) × Channel
  unfolding take_rights close_optional fill decode_frame unpack
  recv_rest first c =
      let (fd, extra) = take_rights c.ancillary in
      let c' = record c { ancillary = []; closed = c.closed ++ extra } in
      with_header fd c' (fill header_size first c'.socket)

  abbrev pub plain_frame : Result Members × Socket → Channel → Result (Members × Option ℕ) × Channel
  plain_frame (ok message, s) c = (ok (message, none), record c { socket = s })
  plain_frame (err exc, s) c = (err exc, record c { socket = s })

  unfoldable pub recv_frame_with_optional_fd :
      (has_recvmsg : Bool) → Channel → Result (Members × Option ℕ) × Channel
  unfolding recv recv_frame recv_rest
  recv_frame_with_optional_fd false c = plain_frame (recv_frame text c.socket) c
  recv_frame_with_optional_fd true c =
      let (first, s) = recv (64 * 1024) c.socket in
      if length first == 0
      then (err eof_error, record c { socket = s })
      else recv_rest first (record c { socket = s })

  -- A named pipe carries messages whole: recv_bytes(maxlength) raises OSError on a longer one.
  abbrev pub piped : Result (List ℕ) → List (List ℕ) → Result (Unit {0}) × List (List ℕ)
  piped (ok frame) pipe = (ok tt, pipe ++ (frame ∷ []))
  piped (err exc) pipe = (err exc, pipe)

  unfoldable pub send_pipe_frame : Members → List (List ℕ) → Result (Unit {0}) × List (List ℕ)
  unfolding encode_frame
  send_pipe_frame message pipe = piped (encode_frame text message) pipe

  unfoldable pub recv_pipe_frame : List (List ℕ) → Result Members × List (List ℕ)
  unfolding decode_frame
  recv_pipe_frame [] = (err eof_error, [])
  recv_pipe_frame (frame ∷ pipe) =
      if ltb (max_frame + header_size) (length frame)
      then (err os_error, pipe)
      else (decode_frame text frame, pipe)
