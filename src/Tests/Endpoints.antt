-- ===== src/Tests/Endpoints.antt =====
-- A control connection over TCP.
use npb.Prelude.{ℕ, ◌≡◌, refl, true, false, none, List, [], ◌∷◌, ◌++◌, ℤ}
use npb.Mstore.Errors.{Result, ok, err, other_error, os_error}
use npb.Mstore.Endpoint.{default_endpoint, pipe_scheme}
use npb.Mstore.Transport.{Network, Net, connect_control}
use npb.Mstore.Transport.Closing.{Outcome, connect_control-Outcome}
use npb.Schema.{codes}

abbrev int_other : List ℕ → Result ℤ
int_other cs = err other_error

-- Socket 3 is bound to the port 7070 of "h"; nobody listens elsewhere.
abbrev network : Network ℕ
network = record {
  is_windows = true;
  int_other = int_other;
  os_path = λ path. path;
  socket = λ family w. (ok 3, w);
  setsockopt = λ sock option w. (ok tt, w);
  settimeout = λ sock timeout w. (ok tt, w);
  connect = λ sock address w. (err os_error, w);
  bind = λ sock address w. (ok tt, w);
  listen = λ sock backlog w. (ok tt, w);
  getsockname = λ sock w. (ok (b'h' ∷ [], 7070), w);
  shutdown = λ sock w. (ok tt, w);
  close_socket = λ sock w. (ok tt, w);
  mkdir_parent = λ path w. (ok tt, w);
  unlink = λ path w. (ok false, w);
  chmod = λ path mode w. (ok tt, w);
  pipe_client = λ name w. (ok 4, w);
  pipe_listener = λ name backlog w. (ok 5, w);
  close_pipe = λ conn w. (ok tt, w);
  send_frame = λ sock message fd w. (ok tt, w);
  recv_frame_with_optional_fd = λ sock w. (err os_error, w);
  send_pipe_frame = λ conn message w. (ok tt, w);
  recv_pipe_frame = λ conn w. (err os_error, w);
}

abbrev start : Net ℕ
start = record { world = 0; taken = []; closed = [] }

-- "tcp://h:0"
abbrev any_port : List ℕ
any_port = b't' ∷ b'c' ∷ b'p' ∷ b':' ∷ b'/' ∷ b'/' ∷ b'h' ∷ b':' ∷ b'0' ∷ []

-- "tcp://h:7070"
abbrev published : List ℕ
published = b't' ∷ b'c' ∷ b'p' ∷ b':' ∷ b'/' ∷ b'/' ∷ b'h' ∷ b':' ∷ b'7' ∷ b'0' ∷ b'7' ∷ b'0' ∷ []

connect_control-Outcome_example : Outcome (connect_control network published 0 start)
connect_control-Outcome_example =
    connect_control-Outcome network 0 (λ sock w. refl) (λ sock w. refl) published start refl

-- The user "a  b" of a Windows machine.
windows_endpoint :
    default_endpoint (record {
      is_windows = true;
      user = b'a' ∷ b' ' ∷ b' ' ∷ b'b' ∷ [];
      runtime_dir = none;
      uid = 0;
    })
    ≡ pipe_scheme ++ codes "mstore-a-b"
unfolding default_endpoint codes
windows_endpoint = refl
