-- ===== src/Tests/Listeners.antt =====
-- A server on a socket, with one client, that is shut down.
use npb.Prelude.{ℕ, ◌≡◌, refl, inl, true, false, none, some, List, [], ◌∷◌, ℤ}
use npb.Mstore.Errors.{Result, ok, err, other_error, os_error}
use npb.Mstore.Endpoint.{Surroundings, parse_endpoint, without_prefix}
use npb.Mstore.Server.Listening.{
  ServerState, ended, worker_ends, closes_connections, Turn, shutdown, connection, failure,
  accept_loop, accept_socket, happen_all, happen, _start_worker, is_os_error,
}
use npb.Mstore.Server.Listening.Forever.{
  with_cleanup, Setup, fresh, new_server, serve_forever, _serve_socket_forever, _cleanup,
}
use npb.Mstore.Server.Listening.Closing.{any_handling}
use npb.Mstore.Server.Listening.Down.{IsDown, serve_forever-IsDown}
use npb.Mstore.Server.Listening.Ends.{serve_forever-ends}
use npb.Mstore.Server.Listening.Stops.{any_stop}

abbrev int_other : List ℕ → Result ℤ
int_other cs = err other_error

abbrev setup : Setup
setup = record {
  int_other = int_other;
  socket_listener = λ endpoint. ok (3, endpoint);
  pipe_listener = λ endpoint. err other_error;
  unlink = λ path. ok true;
  cleaning = record {
    after_listeners = [];
    after_connections = worker_ends 8 ∷ [];
    after_registry = [];
    joining = closes_connections ∷ [];
  };
}

abbrev surroundings : Surroundings
surroundings = record { is_windows = false; user = []; runtime_dir = none; uid = 0 }

-- "unix:///s"
abbrev endpoint : List ℕ
endpoint = b'u' ∷ b'n' ∷ b'i' ∷ b'x' ∷ b':' ∷ b'/' ∷ b'/' ∷ b'/' ∷ b's' ∷ []

-- A client comes, and accept fails when the listener is closed under it.
abbrev arrival : Turn
arrival = record { before = []; accept = connection 8; meanwhile = [] }

abbrev interrupted : Turn
interrupted = record { before = []; accept = failure os_error; meanwhile = shutdown }

serve_forever-IsDown_example :
    IsDown true (serve_forever setup (arrival ∷ interrupted ∷ []) (fresh endpoint false)).1
unfolding new_server parse_endpoint without_prefix serve_forever _serve_socket_forever accept_loop
    accept_socket happen_all happen _start_worker is_os_error _cleanup any_handling
serve_forever-IsDown_example =
    serve_forever-IsDown setup surroundings (some endpoint) false (arrival ∷ interrupted ∷ [])
      (fresh endpoint false) refl (λ e. cc)

serve_forever-ends_example :
    (u : ServerState) × ((u.is_stopped ≡ true)
      × (serve_forever setup (arrival ∷ interrupted ∷ arrival ∷ []) (fresh endpoint false)
          ≡ with_cleanup setup ended (_cleanup setup u)))
unfolding any_stop parse_endpoint without_prefix is_os_error
serve_forever-ends_example =
    serve_forever-ends setup false (arrival ∷ []) (arrival ∷ []) interrupted (fresh endpoint false)
      ended (inl (b'/' ∷ b's' ∷ [], refl), ((3, endpoint), refl)) (tt, tt) (refl, (refl, tt))
