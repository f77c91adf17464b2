-- ===== src/Mstore/Server/Listening/Down.antt =====
-- What serve_forever of mstore/server.py leaves open when it ends.
use mathlib.Core.Path.{subst}
use npb.Prelude.{ℕ, ◌≡◌, refl, ◌≢◌, Bool, true, false, Option, none, List, [], ◌++◌, arith}
use npb.Mstore.Errors.{Result, ok, err}
use npb.Mstore.Registry
use npb.Mstore.Endpoint.{Address, unix, tcp, pipe, parse_endpoint, Surroundings}
use npb.Mstore.Server.Listening.{
  ServerState, contains, Event, happen_all, close_connections, Turn, accept_socket, accept_pipe,
  Progress, waiting, ended, raised,
}
use npb.Mstore.Server.Listening.Forever.{
  joined, Setup, socket_ready, _serve_socket_forever, pipe_ready, _serve_pipe_forever,
  close_listeners, unlinked, remove_socket, _cleanup, with_cleanup, finally_cleanup, serve_address,
  serve_forever, or_default, fresh, new_server,
}
use npb.Mstore.Server.Listening.Tended.{
  contains-append, contains-nil, listener_list, IsTended, accept_socket-IsTended,
  accept_pipe-IsTended, accept_loop-IsTended,
}
use npb.Mstore.Server.Listening.Closing.{
  any_handling, is_quiet, IsClosing, happen_all-IsClosing, happen_all-registry, close_listener_lem,
  kept_closed, fresh-IsTended, unless_tcp-eq-ok,
}

-- No connection and no listener is open, and the registry is empty, if it was left alone since it was closed.
pub record IsDown (quiet : Bool) (s : ServerState) : Type 0 where
  pub closed : IsClosing false s
  pub no_object : quiet ≡ true → (s.registry.objects ≡ []) × (s.registry.tokens ≡ [])

module _ (setup : Setup) where
  close_listeners_lem :
      (s : ServerState)
      → close_listeners setup s ≡ record s {
        socket_listener = none;
        pipe_listener = none;
        closed_listeners =
            (s.closed_listeners ++ listener_list s.socket_listener)
            ++ listener_list s.pipe_listener;
      }
  unfolding close_listeners
  close_listeners_lem s =
      rw (close_listener_lem s.socket_listener (record s { socket_listener = none }))
        (close_listener_lem s.pipe_listener _)

  -- What was closed of the registry, and not more.
  abbrev quiet : Bool
  quiet = is_quiet setup.cleaning

  unlinked-IsDown :
      (path : List ℕ) (r : Result Bool) (s : ServerState)
      → IsDown quiet s
      → IsDown quiet (unlinked setup path r s).1
  unlinked-IsDown path (ok true) s h = record {
    closed = record {
      connections_closed = h.closed.connections_closed;
      listeners_closed = h.closed.listeners_closed;
      no_listener = h.closed.no_listener;
    };
    no_object = h.no_object;
  }
  unlinked-IsDown path (ok false) s h = h
  unlinked-IsDown path (err exc) s h = h

  remove_socket-IsDown :
      (r : Result Address) (s : ServerState)
      → IsDown quiet s
      → IsDown quiet (remove_socket setup r s).1
  remove_socket-IsDown (ok (unix path)) s h = unlinked-IsDown path (setup.unlink path) s h
  remove_socket-IsDown (ok (tcp host port)) s h = h
  remove_socket-IsDown (ok (pipe name)) s h = h
  remove_socket-IsDown (err exc) s h = h

  happen_all-IsDown :
      (events : List Event) (s : ServerState)
      → (quiet ≡ true → any_handling events ≡ false)
      → IsDown quiet s
      → IsDown quiet (happen_all events s)
  happen_all-IsDown events s still h = record {
    closed = happen_all-IsClosing false events s h.closed;
    no_object = λ q. rw (happen_all-registry events s (still q)) (h.no_object q);
  }

  joined-IsDown :
      (r : Result (Unit {0}) × ServerState) → IsDown quiet r.1 → IsDown quiet (joined setup r).1
  joined-IsDown (ok done, s) h = happen_all-IsDown setup.cleaning.joining s (λ q. ground arith) h
  joined-IsDown (err exc, s) h = h

  close_listeners-IsClosing :
      (s : ServerState) → IsTended [] s → IsClosing true (close_listeners setup s)
  close_listeners-IsClosing s h = rw (close_listeners_lem s) (record {
    connections_closed = λ c a. ground (arith, h.tended c a, contains-nil c);
    listeners_closed = λ l made. kept_closed l s h made;
    no_listener = (refl, refl);
  })

  close_connections-IsClosing :
      (s : ServerState) → IsClosing true s → IsClosing false (close_connections s)
  unfolding close_connections
  close_connections-IsClosing s h = record {
    connections_closed =
        λ c a. ground (arith, h.connections_closed c a, contains-append c s.closed s.connections);
    listeners_closed = h.listeners_closed;
    no_listener = h.no_listener;
  }

  _cleanup-IsDown : (s : ServerState) → IsTended [] s → IsDown quiet (_cleanup setup s).1
  unfolding _cleanup Registry.close
  _cleanup-IsDown s h =
      let cleaning = setup.cleaning in
      let t = happen_all cleaning.after_listeners (close_listeners setup s) in
      let open_ones =
        happen_all-IsClosing true cleaning.after_listeners _ (close_listeners-IsClosing s h) in
      let shut =
        happen_all-IsClosing false cleaning.after_connections _
          (close_connections-IsClosing t open_ones) in
      let u = happen_all cleaning.after_connections (close_connections t) in
      let emptied : IsDown quiet (record u { registry = Registry.close u.registry }) = record {
        closed = record {
          connections_closed = shut.connections_closed;
          listeners_closed = shut.listeners_closed;
          no_listener = shut.no_listener;
        };
        no_object = λ q. (refl, refl);
      } in
      joined-IsDown _ (
        remove_socket-IsDown _ _
          (happen_all-IsDown cleaning.after_registry _ (λ q. ground arith) emptied))

  with_cleanup-state :
      (progress : Progress) (r : Result (Unit {0}) × ServerState)
      → (with_cleanup setup progress r).1 ≡ r.1
  with_cleanup-state progress (ok done, s) = refl
  with_cleanup-state progress (err exc, s) = refl

  finally_cleanup-IsDown :
      (r : Progress × ServerState)
      → IsTended [] r.1
      → (finally_cleanup setup r).0 ≢ waiting
      → IsDown quiet (finally_cleanup setup r).1
  finally_cleanup-IsDown (waiting, s) h ends = absurd (ends refl)
  finally_cleanup-IsDown (ended, s) h ends =
      rw (with_cleanup-state ended (_cleanup setup s)) (_cleanup-IsDown s h)
  finally_cleanup-IsDown (raised exc, s) h ends =
      rw (with_cleanup-state (raised exc) (_cleanup setup s)) (_cleanup-IsDown s h)

  socket_ready-IsTended :
      (r : Result (ℕ × List ℕ)) (turns : List Turn) (endpoint : List ℕ) (debug : Bool)
      → IsTended [] (socket_ready setup r turns (fresh endpoint debug)).1
  unfolding contains
  socket_ready-IsTended (ok (listener, published)) turns endpoint debug =
      accept_loop-IsTended accept_socket accept_socket-IsTended turns _
        (record { tended = λ c a. a; kept = refl })
  socket_ready-IsTended (err exc) turns endpoint debug = fresh-IsTended endpoint debug

  pipe_ready-IsTended :
      (r : Result ℕ) (turns : List Turn) (endpoint : List ℕ) (debug : Bool)
      → IsTended [] (pipe_ready setup r turns (fresh endpoint debug)).1
  unfolding contains
  pipe_ready-IsTended (ok listener) turns endpoint debug =
      accept_loop-IsTended accept_pipe accept_pipe-IsTended turns _
        (record { tended = λ c a. a; kept = refl })
  pipe_ready-IsTended (err exc) turns endpoint debug = fresh-IsTended endpoint debug

  serve_address-IsDown :
      (r : Result Address) (turns : List Turn) (endpoint : List ℕ) (debug : Bool)
      → (serve_address setup r turns (fresh endpoint debug)).0 ≢ waiting
      → IsDown quiet (serve_address setup r turns (fresh endpoint debug)).1
  unfolding _serve_socket_forever _serve_pipe_forever
  serve_address-IsDown (ok (unix path)) turns endpoint debug ends =
      finally_cleanup-IsDown _
        (socket_ready-IsTended (setup.socket_listener endpoint) turns endpoint debug) ends
  serve_address-IsDown (ok (tcp host port)) turns endpoint debug ends =
      finally_cleanup-IsDown _
        (socket_ready-IsTended (setup.socket_listener endpoint) turns endpoint debug) ends
  serve_address-IsDown (ok (pipe name)) turns endpoint debug ends =
      finally_cleanup-IsDown _
        (pipe_ready-IsTended (setup.pipe_listener endpoint) turns endpoint debug) ends
  serve_address-IsDown (err exc) turns endpoint debug ends = record {
    closed = record {
      connections_closed = λ c a. ground (arith, a, contains-nil c);
      listeners_closed = λ l a. a;
      no_listener = (refl, refl);
    };
    no_object = λ q. (refl, refl);
  }

  -- A server that the constructor returned, whatever its accept loop gets and whatever the workers and shutdown do
  -- between its steps and those of _cleanup: once serve_forever has ended, with an exception or without, each
  -- connection that accept gave and each listener that was made has been closed, and no listener is kept; and if
  -- no worker changed the registry after _cleanup had closed it, the registry has no object and no token.
  pub serve_forever-IsDown :
      (env : Surroundings) (chosen : Option (List ℕ)) (debug : Bool) (turns : List Turn)
      (s : ServerState)
      → new_server setup.int_other env chosen debug ≡ ok s
      → (serve_forever setup turns s).0 ≢ waiting
      → IsDown (is_quiet setup.cleaning) (serve_forever setup turns s).1
  unfolding new_server serve_forever
  serve_forever-IsDown env chosen debug turns s made ends =
      let endpoint = or_default chosen env in
      let same : fresh endpoint debug ≡ s =
        unless_tcp-eq-ok env.is_windows (parse_endpoint setup.int_other endpoint) _ s made in
      let Down : ServerState → Type 0 = λ u.
        (serve_forever setup turns u).0 ≢ waiting → IsDown quiet (serve_forever setup turns u).1 in
      subst Down same
        (serve_address-IsDown (parse_endpoint setup.int_other endpoint) turns endpoint debug) ends
