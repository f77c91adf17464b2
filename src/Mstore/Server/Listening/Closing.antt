-- ===== src/Mstore/Server/Listening/Closing.antt =====
-- What the events of the other threads leave, of mstore/server.py, while _cleanup runs.
use npb.Prelude.{
  ℕ, ◌≡◌, refl, sym, ◌∙◌, Bool, true, false, not, ◌&&◌, ◌||◌, Option, none, some, List, [], ◌∷◌,
  ◌++◌, append-nil, arith,
}
use npb.Mstore.Errors.{Result, ok, err}
use npb.Mstore.Endpoint.{Address, unix, tcp, pipe}
use npb.Mstore.Server.Listening.{
  ServerState, contains, Event, worker_ends, worker_handles, sets_stop, closes_listener,
  closes_pipe, closes_connections, happen, happen_all, finish_worker, _unregister_connection,
  close_connections, close_listener,
}
use npb.Mstore.Server.Listening.Forever.{Cleaning, fresh, unless_tcp}
use npb.Mstore.Server.Listening.Tended.{
  contains-append, contains-single, contains-discard, listener_list, IsTended,
}

-- A worker's request that changed the registry.
abbrev pub is_handling : Event → Bool
is_handling (worker_handles registry) = true
is_handling (worker_ends conn) = false
is_handling sets_stop = false
is_handling closes_listener = false
is_handling closes_pipe = false
is_handling closes_connections = false

unfoldable pub any_handling : List Event → Bool
any_handling [] = false
any_handling (event ∷ events) = is_handling event || any_handling events

-- No worker changes the registry any more once _cleanup has closed it.
abbrev pub is_quiet : Cleaning → Bool
is_quiet cleaning =
    not (any_handling cleaning.after_registry) && not (any_handling cleaning.joining)

-- No listener is open, and no connection but those that are registered, if `registered`.
pub record IsClosing (registered : Bool) (s : ServerState) : Type 0 where
  pub connections_closed :
      (c : ℕ)
      → contains c s.accepted ≡ true
      → (registered && contains c s.connections || contains c s.closed) ≡ true
  pub listeners_closed :
      (l : ℕ) → contains l s.made_listeners ≡ true → contains l s.closed_listeners ≡ true
  pub no_listener : (s.socket_listener ≡ none) × (s.pipe_listener ≡ none)

-- There is no listener left to close.
close_none :
    (registered : Bool) (l : Option ℕ) (s : ServerState)
    → l ≡ none
    → IsClosing registered s
    → IsClosing registered (close_listener l s)
unfolding close_listener
close_none registered none s e h = h
close_none registered (some l) s e h = let never : some l ≡ none = e in cc

happen-IsClosing :
    (registered : Bool) (event : Event) (s : ServerState)
    → IsClosing registered s
    → IsClosing registered (happen event s)
unfolding happen finish_worker _unregister_connection close_connections close_listener
happen-IsClosing registered (worker_ends conn) s h = record {
  connections_closed = λ c a. ground (
    arith,
    h.connections_closed c a,
    contains-append c s.closed (conn ∷ []),
    contains-single c conn,
    contains-discard c conn s.connections,
  );
  listeners_closed = h.listeners_closed;
  no_listener = h.no_listener;
}
happen-IsClosing registered (worker_handles registry) s h = record {
  connections_closed = h.connections_closed;
  listeners_closed = h.listeners_closed;
  no_listener = h.no_listener;
}
happen-IsClosing registered sets_stop s h = record {
  connections_closed = h.connections_closed;
  listeners_closed = h.listeners_closed;
  no_listener = h.no_listener;
}
happen-IsClosing registered closes_listener s h =
    close_none registered s.socket_listener s h.no_listener.0 h
happen-IsClosing registered closes_pipe s h =
    close_none registered s.pipe_listener s h.no_listener.1 h
happen-IsClosing registered closes_connections s h = record {
  connections_closed =
      λ c a. ground (arith, h.connections_closed c a, contains-append c s.closed s.connections);
  listeners_closed = h.listeners_closed;
  no_listener = h.no_listener;
}

pub happen_all-IsClosing :
    (registered : Bool) (events : List Event) (s : ServerState)
    → IsClosing registered s
    → IsClosing registered (happen_all events s)
unfolding happen_all
happen_all-IsClosing registered [] s h = h
happen_all-IsClosing registered (event ∷ events) s h =
    happen_all-IsClosing registered events (happen event s) (happen-IsClosing registered event s h)

close_listener-registry :
    (l : Option ℕ) (s : ServerState) → (close_listener l s).registry ≡ s.registry
unfolding close_listener
close_listener-registry none s = refl
close_listener-registry (some l) s = refl

happen-registry :
    (event : Event) (s : ServerState)
    → is_handling event ≡ false
    → (happen event s).registry ≡ s.registry
unfolding happen finish_worker _unregister_connection close_connections
happen-registry (worker_ends conn) s h = refl
happen-registry (worker_handles registry) s h = cc
happen-registry sets_stop s h = refl
happen-registry closes_listener s h = close_listener-registry s.socket_listener s
happen-registry closes_pipe s h = close_listener-registry s.pipe_listener s
happen-registry closes_connections s h = refl

pub happen_all-registry :
    (events : List Event) (s : ServerState)
    → any_handling events ≡ false
    → (happen_all events s).registry ≡ s.registry
unfolding happen_all any_handling
happen_all-registry [] s h = refl
happen_all-registry (event ∷ events) s h =
    happen_all-registry events (happen event s) (ground arith)
    ∙ happen-registry event s (ground arith)

pub close_listener_lem :
    (l : Option ℕ) (s : ServerState)
    → close_listener l s ≡ record s { closed_listeners = s.closed_listeners ++ listener_list l }
unfolding close_listener
close_listener_lem none s =
    λ i. record s { closed_listeners = (sym (append-nil s.closed_listeners)) i }
close_listener_lem (some l) s = refl

pub kept_closed :
    (l : ℕ) (s : ServerState)
    → IsTended [] s
    → contains l s.made_listeners ≡ true
    → contains l
        ((s.closed_listeners ++ listener_list s.socket_listener) ++ listener_list s.pipe_listener)
      ≡ true
kept_closed l s h made =
    let socket = listener_list s.socket_listener in
    let pipes = listener_list s.pipe_listener in
    let held : contains l (socket ++ pipes) ≡ true = rw (← h.kept) made in
    ground (
      arith,
      held,
      contains-append l socket pipes,
      contains-append l (s.closed_listeners ++ socket) pipes,
      contains-append l s.closed_listeners socket,
    )

pub fresh-IsTended : (endpoint : List ℕ) (debug : Bool) → IsTended [] (fresh endpoint debug)
unfolding contains
fresh-IsTended endpoint debug = record { tended = λ c a. a; kept = refl }

pub unless_tcp-eq-ok :
    (is_windows : Bool) (r : Result Address) (s t : ServerState)
    → unless_tcp is_windows r s ≡ ok t
    → s ≡ t
unless_tcp-eq-ok true (ok (tcp host port)) s t h = cc
unless_tcp-eq-ok false (ok (tcp host port)) s t h = cc
unless_tcp-eq-ok is_windows (ok (unix path)) s t h = cc
unless_tcp-eq-ok is_windows (ok (pipe name)) s t h = cc
unless_tcp-eq-ok is_windows (err exc) s t h = cc
