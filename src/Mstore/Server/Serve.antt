-- ===== src/Mstore/Server/Serve.antt =====
-- MStoreServer._serve_connection and _error_payload of mstore/server.py: one worker on one connection.
use npb.Prelude.{
  ℕ, String, Bool, true, false, not, ◌&&◌, Option, none, some, List, [], ◌∷◌, ◌++◌, if◌then◌else◌,
}
use npb.Mstore.Errors.{
  Exn, Result, ok, err, eof_error, os_error, other_error, protocol_error, error_code,
}
use npb.Mstore.Json.{Members}
use npb.Mstore.Records.{Platform, Registry}
use npb.Mstore.Server.{Services, Draws, Reply, handle}

-- isinstance(exc, MStoreError)
unfoldable pub is_mstore_error : Exn → Bool
is_mstore_error eof_error = false
is_mstore_error os_error = false
is_mstore_error other_error = false
is_mstore_error _ = true

-- except (OSError, EOFError, ConnectionError)
unfoldable pub is_connection_error : Exn → Bool
is_connection_error eof_error = true
is_connection_error os_error = true
is_connection_error _ = false

-- A response: a result with the descriptor beside it, or an error's type and whether a traceback is added.
pub data Response : Type 0 where
  success : Reply → Option ℕ → Response
  failure : String → (traced : Bool) → Response

unfoldable pub _error_payload : (debug : Bool) → Exn → Response
unfolding is_mstore_error error_code
_error_payload debug exc = failure (error_code exc) (debug && not (is_mstore_error exc))

-- What one round of the loop meets: whether _stop is set, what conn.recv() does, what the request draws,
-- and what conn.send does with a result and with an error.
pub record Round : Type 0 where
  pub stopping : Bool
  pub incoming : Result (Members × Option ℕ)
  pub draws : Draws
  pub result_sent : Result (Unit {0})
  pub error_sent : Result (Unit {0})

-- The registry, what was sent on the connection, the descriptors that the worker got and those that it
-- closed, each in order, and whether the connection is open and registered.
pub record Session : Type 0 where
  pub registry : Registry
  pub sent : List Response
  pub taken : List ℕ
  pub closed : List ℕ
  pub is_open : Bool
  pub is_registered : Bool

-- After a round the loop goes on, breaks, or an exception leaves it.
pub data Next : Type 0 where
  go_on break : Next
  raises : Exn → Next

abbrev pub send : Response → Result (Unit {0}) → Session → Result (Unit {0}) × Session
send response (ok done) s = (ok tt, record s { sent = s.sent ++ (response ∷ []) })
send response (err exc) s = (err exc, s)

unfoldable pub take_fd : Option ℕ → Session → Session
take_fd none s = s
take_fd (some fd) s = record s { taken = s.taken ++ (fd ∷ []) }

-- os.close(fd), whose OSError is passed over
unfoldable pub close_fd : Option ℕ → Session → Session
close_fd none s = s
close_fd (some fd) s = record s { closed = s.closed ++ (fd ∷ []) }

-- The error is sent in the handler of an exception, which breaks the loop on a lost connection.
abbrev pub reported : Result (Unit {0}) × Session → Next × Session
reported (ok done, s) = (go_on, s)
reported (err exc, s) = (if is_connection_error exc then break else raises exc, s)

module _ (p : Platform) (services : Services) (debug : Bool) where
  unfoldable pub report : Exn → Round → Session → Next × Session
  unfolding _error_payload is_connection_error
  report exc round s = reported (send (_error_payload debug exc) round.error_sent s)

  -- `conn.send({"ok": True, …})` in the `try`, and its handler
  abbrev pub after_send : Round → Result (Unit {0}) × Session → Next × Session
  after_send round (ok done, s) = (go_on, s)
  after_send round (err exc, s) = report exc round s

  -- The `finally`.
  abbrev pub finish : Option ℕ → Next × Session → Next × Session
  finish fd (next, s) = (next, close_fd fd s)

  unfoldable pub respond : Result (Reply × Option ℕ) → Round → Session → Next × Session
  unfolding report take_fd close_fd
  respond (err exc) round s = report exc round s
  respond (ok (reply, fd)) round s =
      finish fd (after_send round (send (success reply fd) round.result_sent (take_fd fd s)))

  unfoldable pub answer : Members → Round → Session → Next × Session
  unfolding respond handle
  answer request round s =
      let handled = handle p services request round.draws s.registry in
      respond handled.0 round (record s { registry = handled.1 })

  -- A request with a descriptor is refused.
  unfoldable pub serve_request : Members → Option ℕ → Round → Session → Next × Session
  unfolding answer take_fd close_fd _error_payload
  serve_request request none round s = answer request round s
  serve_request request (some fd) round s =
      let held = close_fd (some fd) (take_fd (some fd) s) in
      (break, (send (_error_payload debug protocol_error) round.error_sent held).1)

  -- conn.recv() raised. Its ProtocolError is reported, whether or not that can be sent.
  unfoldable pub recv_failed : Exn → Round → Session → Next × Session
  unfolding _error_payload
  recv_failed eof_error round s = (break, s)
  recv_failed os_error round s = (break, s)
  recv_failed protocol_error round s =
      (break, (send (_error_payload debug protocol_error) round.error_sent s).1)
  recv_failed exc round s = (raises exc, s)

  abbrev pub received : Result (Members × Option ℕ) → Round → Session → Next × Session
  received (err exc) round s = recv_failed exc round s
  received (ok (request, request_fd)) round s = serve_request request request_fd round s

  unfoldable pub serve_round : Round → Session → Next × Session
  unfolding serve_request recv_failed
  serve_round round s = if round.stopping then (break, s) else received round.incoming round s

  abbrev pub proceed : Next × Session → (Session → Option Exn × Session) → Option Exn × Session
  proceed (go_on, s) rest = rest s
  proceed (break, s) rest = (none, s)
  proceed (raises exc, s) rest = (some exc, s)

  -- The loop, on the rounds that there are before the peer closes: then recv() raises EOFError.
  unfoldable pub serve_loop : List Round → Session → Option Exn × Session
  unfolding serve_round
  serve_loop [] s = (none, s)
  serve_loop (round ∷ rounds) s = proceed (serve_round round s) (serve_loop rounds)

  -- conn.close() and _unregister_connection, on every way out.
  unfoldable pub _serve_connection : List Round → Session → Option Exn × Session
  unfolding serve_loop
  _serve_connection rounds s =
      let (raised, t) = serve_loop rounds s in
      (raised, record t { is_open = false; is_registered = false })
