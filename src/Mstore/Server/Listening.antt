-- ===== src/Mstore/Server/Listening.antt =====
-- The accept loops and shutdown of MStoreServer in mstore/server.py. The acceptor is one thread, and
-- what the others do between its steps are events; a connection is a number.
pub mod Forever
pub mod Tended
pub mod Closing
pub mod Down
pub mod Stops
pub mod Ends
use npb.Prelude.{
  ℕ, Bool, true, false, ◌&&◌, ◌||◌, Option, none, some, List, [], ◌∷◌, ◌++◌, ◌==◌, if◌then◌else◌,
}
use npb.Mstore.Errors.{Exn, os_error, eof_error}
use npb.Mstore.Records.{Registry}
use npb.Mstore.Registry

-- The server, with the connections that accept gave it and those that it closed, the listeners that it made and
-- those that it closed, and the paths that it removed.
pub record ServerState : Type 0 where
  pub endpoint : List ℕ
  pub debug : Bool
  pub registry : Registry
  pub socket_listener : Option ℕ
  pub pipe_listener : Option ℕ
  pub is_stopped : Bool
  pub threads : List ℕ
  pub connections : List ℕ
  pub accepted : List ℕ
  pub closed : List ℕ
  pub closed_listeners : List ℕ
  pub made_listeners : List ℕ
  pub removed : List (List ℕ)

unfoldable pub contains : ℕ → List ℕ → Bool
contains c [] = false
contains c (d ∷ ds) = c == d || contains c ds

-- set.add and set.discard
unfoldable pub add : ℕ → List ℕ → List ℕ
unfolding contains
add c cs = if contains c cs then cs else c ∷ cs

unfoldable pub discard : ℕ → List ℕ → List ℕ
discard c [] = []
discard c (d ∷ ds) = let rest = discard c ds in if c == d then rest else d ∷ rest

unfoldable pub _register_connection : ℕ → ServerState → ServerState
unfolding add
_register_connection conn s = record s { connections = add conn s.connections }

unfoldable pub _unregister_connection : ℕ → ServerState → ServerState
unfolding discard
_unregister_connection conn s = record s { connections = discard conn s.connections }

-- A worker's thread is that of its connection.
unfoldable pub _start_worker : ℕ → ServerState → ServerState
unfolding _register_connection add
_start_worker conn s =
    let t = _register_connection conn s in record t { threads = add conn t.threads }

-- conn.close()
abbrev pub close_connection : ℕ → ServerState → ServerState
close_connection conn s = record s { closed = s.closed ++ (conn ∷ []) }

-- What another thread does: a worker's `finally`, what a worker's request makes of the registry, and the steps of
-- shutdown.
pub data Event : Type 0 where
  worker_ends : ℕ → Event
  worker_handles : Registry → Event
  sets_stop closes_listener closes_pipe closes_connections : Event

-- The calls of shutdown, in order. That of connect_control only wakes the acceptor.
abbrev pub shutdown : List Event
shutdown = sets_stop ∷ closes_listener ∷ closes_pipe ∷ closes_connections ∷ []

unfoldable pub finish_worker : ℕ → ServerState → ServerState
unfolding _unregister_connection discard
finish_worker conn s =
    let t = _unregister_connection conn (close_connection conn s) in
    record t { threads = discard conn t.threads }

-- `listener.close()`, whose OSError is passed over
unfoldable pub close_listener : Option ℕ → ServerState → ServerState
close_listener none s = s
close_listener (some listener) s = record s {
  closed_listeners = s.closed_listeners ++ (listener ∷ []);
}

-- `connections = list(self._connections)`, each of which is closed
unfoldable pub close_connections : ServerState → ServerState
close_connections s = record s { closed = s.closed ++ s.connections }

unfoldable pub happen : Event → ServerState → ServerState
unfolding finish_worker close_listener close_connections
happen (worker_ends conn) s = finish_worker conn s
happen (worker_handles registry) s = record s { registry = registry }
happen sets_stop s = record s { is_stopped = true }
happen closes_listener s = close_listener s.socket_listener s
happen closes_pipe s = close_listener s.pipe_listener s
happen closes_connections s = close_connections s

unfoldable pub happen_all : List Event → ServerState → ServerState
unfolding happen
happen_all [] s = s
happen_all (event ∷ events) s = happen_all events (happen event s)

-- What accept gives.
pub data Accept : Type 0 where
  connection : ℕ → Accept
  timeout : Accept
  failure : Exn → Accept

-- One round of an accept loop: the events before `_stop` is read, what accept does, and the events until the
-- loop goes on.
pub record Turn : Type 0 where
  pub before : List Event
  pub accept : Accept
  pub meanwhile : List Event

-- A round goes on, or the loop ends, or an exception leaves it.
pub data Next : Type 0 where
  go_on break : Next
  raises : Exn → Next

-- A connection that accept gave.
abbrev pub got : ℕ → ServerState → ServerState
got conn s = record s { accepted = s.accepted ++ (conn ∷ []) }

-- The handler of an exception of accept.
abbrev pub or_break : (caught : Bool) → Exn → ServerState → Next × ServerState
or_break caught exc s = (if caught && s.is_stopped then break else raises exc, s)

unfoldable pub is_os_error : Exn → Bool
is_os_error os_error = true
is_os_error _ = false

-- except (OSError, EOFError)
unfoldable pub is_pipe_error : Exn → Bool
is_pipe_error os_error = true
is_pipe_error eof_error = true
is_pipe_error _ = false

unfoldable pub accept_socket : Accept → List Event → ServerState → Next × ServerState
unfolding happen_all _start_worker is_os_error
accept_socket (connection conn) meanwhile s =
    (go_on, _start_worker conn (happen_all meanwhile (got conn s)))
accept_socket timeout meanwhile s = (go_on, happen_all meanwhile s)
accept_socket (failure exc) meanwhile s = or_break (is_os_error exc) exc (happen_all meanwhile s)

-- The pipe's loop reads `_stop` again.
abbrev pub start_or_close : ℕ → ServerState → Next × ServerState
start_or_close conn s =
    if s.is_stopped then (break, close_connection conn s) else (go_on, _start_worker conn s)

unfoldable pub accept_pipe : Accept → List Event → ServerState → Next × ServerState
unfolding happen_all _start_worker is_pipe_error
accept_pipe (connection conn) meanwhile s = start_or_close conn (happen_all meanwhile (got conn s))
accept_pipe timeout meanwhile s = or_break true os_error (happen_all meanwhile s)
accept_pipe (failure exc) meanwhile s = or_break (is_pipe_error exc) exc (happen_all meanwhile s)

abbrev pub AcceptStep : Type 0
AcceptStep = Accept → List Event → ServerState → Next × ServerState

-- What a thread has come to: it is still in its loop, or it ended, with an exception or without.
pub data Progress : Type 0 where
  waiting ended : Progress
  raised : Exn → Progress

abbrev pub proceed :
    Next × ServerState → (ServerState → Progress × ServerState) → Progress × ServerState
proceed (go_on, s) rest = rest s
proceed (break, s) rest = (ended, s)
proceed (raises exc, s) rest = (raised exc, s)

-- The loop, for the turns that there are.
unfoldable pub accept_loop : AcceptStep → List Turn → ServerState → Progress × ServerState
unfolding happen_all
accept_loop step [] s = (waiting, s)
accept_loop step (turn ∷ turns) s =
    let t = happen_all turn.before s in
    let next = step turn.accept turn.meanwhile t in
    let rest = accept_loop step turns in if t.is_stopped then (ended, t) else proceed next rest
