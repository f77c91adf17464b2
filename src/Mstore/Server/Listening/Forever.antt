-- ===== src/Mstore/Server/Listening/Forever.antt =====
-- serve_forever, _cleanup and the constructor of MStoreServer in mstore/server.py.
use npb.Prelude.{ℕ, Bool, true, false, Option, none, some, List, [], ◌∷◌, ◌++◌, if◌then◌else◌, ℤ}
use npb.Mstore.Errors.{Result, ok, err, other_error}
use npb.Mstore.Records.{new_registry}
use npb.Mstore.Registry
use npb.Mstore.Endpoint.{Address, unix, tcp, pipe, parse_endpoint, Surroundings, default_endpoint}
use npb.Mstore.Server.Listening.{
  Event, happen_all, waiting, ended, ServerState, close_listener, close_connections, Turn,
  accept_socket, accept_pipe, Progress, raised, accept_loop,
}

-- What the other threads do between the steps of _cleanup.
pub record Cleaning : Type 0 where
  pub after_listeners : List Event
  pub after_connections : List Event
  pub after_registry : List Event
  pub joining : List Event

-- What make_socket_listener and make_pipe_listener return, whether Path(address).unlink() of _cleanup finds
-- the file, and what happens during _cleanup.
pub record Setup : Type 0 where
  pub int_other : List ℕ → Result ℤ
  pub socket_listener : List ℕ → Result (ℕ × List ℕ)
  pub pipe_listener : List ℕ → Result ℕ
  pub unlink : List ℕ → Result Bool
  pub cleaning : Cleaning

module _ (setup : Setup) where
  abbrev pub socket_ready : Result (ℕ × List ℕ) → List Turn → ServerState → Progress × ServerState
  socket_ready (ok (listener, published)) turns s = accept_loop accept_socket turns (record s {
    socket_listener = some listener;
    endpoint = published;
    made_listeners = s.made_listeners ++ (listener ∷ []);
  })
  socket_ready (err exc) turns s = (raised exc, s)

  unfoldable pub _serve_socket_forever : List Turn → ServerState → Progress × ServerState
  unfolding accept_loop accept_socket
  _serve_socket_forever turns s = socket_ready (setup.socket_listener s.endpoint) turns s

  abbrev pub pipe_ready : Result ℕ → List Turn → ServerState → Progress × ServerState
  pipe_ready (ok listener) turns s = accept_loop accept_pipe turns (record s {
    pipe_listener = some listener;
    made_listeners = s.made_listeners ++ (listener ∷ []);
  })
  pipe_ready (err exc) turns s = (raised exc, s)

  unfoldable pub _serve_pipe_forever : List Turn → ServerState → Progress × ServerState
  unfolding accept_loop accept_pipe
  _serve_pipe_forever turns s = pipe_ready (setup.pipe_listener s.endpoint) turns s

  -- `self._socket_listener, self._pipe_listener = None, None`, and both are closed
  unfoldable pub close_listeners : ServerState → ServerState
  unfolding close_listener
  close_listeners s =
      let t = close_listener s.socket_listener (record s { socket_listener = none }) in
      close_listener s.pipe_listener (record t { pipe_listener = none })

  abbrev pub unlinked : List ℕ → Result Bool → ServerState → Result (Unit {0}) × ServerState
  unlinked path (ok found) s =
      (ok tt, if found then record s { removed = s.removed ++ (path ∷ []) } else s)
  unlinked path (err exc) s = (err exc, s)

  abbrev pub remove_socket : Result Address → ServerState → Result (Unit {0}) × ServerState
  remove_socket (ok (unix path)) s = unlinked path (setup.unlink path) s
  remove_socket (ok (tcp host port)) s = (ok tt, s)
  remove_socket (ok (pipe name)) s = (ok tt, s)
  remove_socket (err exc) s = (err exc, s)

  -- The threads are joined where nothing was raised.
  abbrev pub joined : Result (Unit {0}) × ServerState → Result (Unit {0}) × ServerState
  joined (ok done, s) = (ok tt, happen_all setup.cleaning.joining s)
  joined (err exc, s) = (err exc, s)

  unfoldable pub _cleanup : ServerState → Result (Unit {0}) × ServerState
  unfolding close_listeners close_connections happen_all Registry.close parse_endpoint
  _cleanup s =
      let t = happen_all setup.cleaning.after_listeners (close_listeners s) in
      let u = happen_all setup.cleaning.after_connections (close_connections t) in
      let v =
        happen_all setup.cleaning.after_registry
          (record u { registry = Registry.close u.registry }) in
      joined (remove_socket (parse_endpoint setup.int_other v.endpoint) v)

  abbrev pub with_cleanup : Progress → Result (Unit {0}) × ServerState → Progress × ServerState
  with_cleanup progress (ok done, s) = (progress, s)
  with_cleanup progress (err exc, s) = (raised exc, s)

  -- The `finally` of serve_forever.
  abbrev pub finally_cleanup : Progress × ServerState → Progress × ServerState
  finally_cleanup (waiting, s) = (waiting, s)
  finally_cleanup (ended, s) = with_cleanup ended (_cleanup s)
  finally_cleanup (raised exc, s) = with_cleanup (raised exc) (_cleanup s)

  abbrev pub serve_address : Result Address → List Turn → ServerState → Progress × ServerState
  serve_address (ok (pipe name)) turns s = finally_cleanup (_serve_pipe_forever turns s)
  serve_address (ok (unix path)) turns s = finally_cleanup (_serve_socket_forever turns s)
  serve_address (ok (tcp host port)) turns s = finally_cleanup (_serve_socket_forever turns s)
  serve_address (err exc) turns s = (raised exc, s)

  unfoldable pub serve_forever : List Turn → ServerState → Progress × ServerState
  unfolding parse_endpoint _serve_pipe_forever _serve_socket_forever _cleanup
  serve_forever turns s = serve_address (parse_endpoint setup.int_other s.endpoint) turns s

-- MStoreServer(endpoint, debug=…)
abbrev pub or_default : Option (List ℕ) → Surroundings → List ℕ
or_default none env = default_endpoint env
or_default (some []) env = default_endpoint env
or_default (some (c ∷ cs)) env = c ∷ cs

abbrev pub fresh : List ℕ → Bool → ServerState
fresh endpoint debug = record {
  endpoint = endpoint;
  debug = debug;
  registry = new_registry;
  socket_listener = none;
  pipe_listener = none;
  is_stopped = false;
  threads = [];
  connections = [];
  accepted = [];
  closed = [];
  made_listeners = [];
  closed_listeners = [];
  removed = [];
}

abbrev pub unless_tcp : (is_windows : Bool) → Result Address → ServerState → Result ServerState
unless_tcp true (ok (tcp host port)) s = ok s
unless_tcp false (ok (tcp host port)) s = err other_error
unless_tcp is_windows (ok (unix path)) s = ok s
unless_tcp is_windows (ok (pipe name)) s = ok s
unless_tcp is_windows (err exc) s = err exc

unfoldable pub new_server :
    (int_other : List ℕ → Result ℤ)
    → Surroundings
    → Option (List ℕ)
    → (debug : Bool) → Result ServerState
unfolding default_endpoint parse_endpoint
new_server int_other env endpoint debug =
    let chosen = or_default endpoint env in
    unless_tcp env.is_windows (parse_endpoint int_other chosen) (fresh chosen debug)
