-- ===== src/Mstore/Transport.antt =====
-- mstore/transport.py: control connections and listeners. Sockets and pipes are numbers of the operating
-- system, which is a parameter.
pub mod Published
pub mod Closing
use npb.Prelude.{ℕ, Bool, Option, none, some, List, [], ◌∷◌, ◌++◌, if◌then◌else◌, ℤ}
use npb.Mstore.Errors.{Exn, Result, ok, err, other_error, protocol_error, os_error}
use npb.Mstore.Exec.{Exec, pure, raise, lift, ◌>>=◌, ◌>>◌}
use npb.Mstore.Json.{Float, Members}
use npb.Mstore.Endpoint.{Address, unix, tcp, pipe, colon, tcp_scheme, parse_endpoint}
use npb.Mstore.Endpoint.Decimal.{decimal}

pub data Family : Type 0 where
  af_unix af_inet : Family

pub data SocketOption : Type 0 where
  tcp_nodelay so_reuseaddr : SocketOption

-- What transport.py calls, on the state of the world. `os_path` is str(Path(text)); `unlink` says whether there
-- was a file, where the code catches FileNotFoundError; `frames` are the calls of protocol.py on a socket and on
-- a pipe.
pub record Network (W : Type 0) : Type 0 where
  pub is_windows : Bool
  pub int_other : List ℕ → Result ℤ
  pub os_path : List ℕ → List ℕ
  pub socket : Family → Exec W ℕ
  pub setsockopt : ℕ → SocketOption → Exec W (Unit {0})
  pub settimeout : ℕ → Float → Exec W (Unit {0})
  pub connect : ℕ → Address → Exec W (Unit {0})
  pub bind : ℕ → Address → Exec W (Unit {0})
  pub listen : ℕ → (backlog : ℕ) → Exec W (Unit {0})
  pub getsockname : ℕ → Exec W (List ℕ × ℕ)
  pub shutdown : ℕ → Exec W (Unit {0})
  pub close_socket : ℕ → Exec W (Unit {0})
  pub mkdir_parent : List ℕ → Exec W (Unit {0})
  pub unlink : List ℕ → Exec W Bool
  pub chmod : List ℕ → (mode : ℕ) → Exec W (Unit {0})
  pub pipe_client : List ℕ → Exec W ℕ
  pub pipe_listener : List ℕ → (backlog : ℕ) → Exec W ℕ
  pub close_pipe : ℕ → Exec W (Unit {0})
  pub send_frame : ℕ → Members → Option ℕ → Exec W (Unit {0})
  pub recv_frame_with_optional_fd : ℕ → Exec W (Members × Option ℕ)
  pub send_pipe_frame : ℕ → Members → Exec W (Unit {0})
  pub recv_pipe_frame : ℕ → Exec W Members

-- SocketControlConnection and PipeControlConnection.
pub data ControlConnection : Type 0 where
  socket_connection pipe_connection : ℕ → ControlConnection

-- The world, the sockets that the process got, and those that it closed.
pub record Net (W : Type 0) : Type 0 where
  pub world : W
  pub taken : List ℕ
  pub closed : List ℕ

abbrev pub in_world : {W A : Type 0} → Exec W A → Exec (Net W) A
in_world m s = ((m s.world).0, record s { world = (m s.world).1 })

-- `try: call; except OSError: pass`
abbrev pub passed : {S : Type 0} → Result (Unit {0}) × S → Result (Unit {0}) × S
passed (ok done, s) = (ok tt, s)
passed (err os_error, s) = (ok tt, s)
passed (err exc, s) = (err exc, s)

-- 0.5
abbrev pub half : Float
half = 0x3fe0000000000000

module _ {W : Type 0} (net : Network W) where
  unfoldable pub send : ControlConnection → Members → (fd : Option ℕ) → Exec (Net W) (Unit {0})
  send (socket_connection sock) message fd = in_world (net.send_frame sock message fd)
  send (pipe_connection conn) message (some fd) = raise protocol_error
  send (pipe_connection conn) message none = in_world (net.send_pipe_frame conn message)

  unfoldable pub recv : ControlConnection → Exec (Net W) (Members × Option ℕ)
  recv (socket_connection sock) = in_world (net.recv_frame_with_optional_fd sock)
  recv (pipe_connection conn) = do
    message ← in_world (net.recv_pipe_frame conn)
    pure (message, none)

  -- A socket that the process got.
  abbrev pub took : Result ℕ × W → Net W → Result ℕ × Net W
  took (ok sock, w) s = (ok sock, record s { world = w; taken = s.taken ++ (sock ∷ []) })
  took (err exc, w) s = (err exc, record s { world = w })

  unfoldable pub new_socket : Family → Exec (Net W) ℕ
  new_socket family s = took (net.socket family s.world) s

  -- sock.close(), which gives the descriptor up whether or not it raises
  unfoldable pub close_socket : ℕ → Exec (Net W) (Unit {0})
  close_socket sock s =
      in_world (net.close_socket sock) (record s { closed = s.closed ++ (sock ∷ []) })

  unfoldable pub close : ControlConnection → Exec (Net W) (Unit {0})
  unfolding close_socket
  close (socket_connection sock) = do
    (λ s. passed (in_world (net.shutdown sock) s))
    (λ s. passed (close_socket sock s))
  close (pipe_connection conn) = λ s. passed (in_world (net.close_pipe conn) s)

  -- The handler of a connect that raised, which raises its exception again.
  abbrev pub closing : Exn → Result (Unit {0}) × Net W → Result ControlConnection × Net W
  closing exc (ok done, s) = (err exc, s)
  closing exc (err other, s) = (err other, s)

  abbrev pub connected : ℕ → Result (Unit {0}) × Net W → Result ControlConnection × Net W
  connected sock (ok done, s) = (ok (socket_connection sock), s)
  connected sock (err exc, s) = closing exc (close_socket sock s)

  unfoldable pub connect_socket : ℕ → Address → Float → Exec (Net W) ControlConnection
  unfolding close_socket
  connect_socket sock address timeout = do
    in_world (net.settimeout sock timeout)
    (λ s. connected sock (in_world (net.connect sock address) s))

  unfoldable pub connect_address : Address → Float → Exec (Net W) ControlConnection
  unfolding connect_socket new_socket
  connect_address (pipe name) timeout =
      if net.is_windows
      then (do conn ← in_world (net.pipe_client name); pure (pipe_connection conn))
      else raise other_error
  connect_address (unix path) timeout =
      if net.is_windows
      then raise other_error
      else (do sock ← new_socket af_unix; connect_socket sock (unix path) timeout)
  connect_address (tcp host port) timeout = do
    sock ← new_socket af_inet
    in_world (net.setsockopt sock tcp_nodelay)
    connect_socket sock (tcp host port) timeout

  unfoldable pub connect_control :
      (endpoint : List ℕ) → (timeout : Float) → Exec (Net W) ControlConnection
  unfolding parse_endpoint connect_address
  connect_control endpoint timeout = do
    address ← lift (parse_endpoint net.int_other endpoint)
    connect_address address timeout

  unfoldable pub listen_unix : (endpoint path : List ℕ) → Exec (Net W) (ℕ × List ℕ)
  unfolding new_socket
  listen_unix endpoint address = if net.is_windows then raise other_error else (do
    let path = net.os_path address
    in_world (net.mkdir_parent path)
    removed ← in_world (net.unlink path)
    sock ← new_socket af_unix
    in_world (net.bind sock (unix path))
    in_world (net.chmod path 0o600)
    pure (sock, endpoint))

  -- f"tcp://{host}:{port}"
  unfoldable pub tcp_endpoint : List ℕ → ℕ → List ℕ
  unfolding decimal
  tcp_endpoint host port = tcp_scheme ++ (host ++ (colon ∷ decimal port))

  unfoldable pub listen_tcp : List ℕ → ℤ → Exec (Net W) (ℕ × List ℕ)
  unfolding new_socket tcp_endpoint
  listen_tcp host port = do
    sock ← new_socket af_inet
    in_world (net.setsockopt sock so_reuseaddr)
    in_world (net.setsockopt sock tcp_nodelay)
    in_world (net.bind sock (tcp host port))
    name ← in_world (net.getsockname sock)
    pure (sock, tcp_endpoint name.0 name.1)

  unfoldable pub listen_address : (endpoint : List ℕ) → Address → Exec (Net W) (ℕ × List ℕ)
  unfolding listen_unix listen_tcp
  listen_address endpoint (pipe name) = raise other_error
  listen_address endpoint (unix path) = listen_unix endpoint path
  listen_address endpoint (tcp host port) = listen_tcp host port

  unfoldable pub make_socket_listener : (endpoint : List ℕ) → Exec (Net W) (ℕ × List ℕ)
  unfolding parse_endpoint listen_address
  make_socket_listener endpoint = do
    address ← lift (parse_endpoint net.int_other endpoint)
    made ← listen_address endpoint address
    in_world (net.listen made.0 128)
    in_world (net.settimeout made.0 half)
    pure made

  abbrev pub pipe_only : Address → Exec (Net W) ℕ
  pipe_only (pipe name) =
      if net.is_windows then in_world (net.pipe_listener name 128) else raise other_error
  pipe_only (unix path) = raise other_error
  pipe_only (tcp host port) = raise other_error

  unfoldable pub make_pipe_listener : (endpoint : List ℕ) → Exec (Net W) ℕ
  unfolding parse_endpoint
  make_pipe_listener endpoint = do
    address ← lift (parse_endpoint net.int_other endpoint)
    pipe_only address
