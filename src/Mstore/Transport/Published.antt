-- ===== src/Mstore/Transport/Published.antt =====
-- The endpoint that make_socket_listener of mstore/transport.py publishes.
use npb.Prelude.{ℕ, ◌≡◌, List, ℤ, pos}
use npb.Mstore.Errors.{ok}
use npb.Mstore.Endpoint.{Address, unix, tcp, parse_endpoint}
use npb.Mstore.Transport.{Network}

module _ {W : Type 0} (net : Network W) where
  -- The address at which a listener with this socket waits: bind of the socket returned, for the path of the
  -- endpoint, or for the endpoint's host and port, of which getsockname gave the name in the world that bind left.
  pub data Reaches (endpoint : List ℕ) (sock : ℕ) : Address → Type 0 where
    by_path :
        {path : List ℕ} (w w' : W)
        → parse_endpoint net.int_other endpoint ≡ ok (unix path)
        → net.bind sock (unix path) w ≡ (ok tt, w')
        → Reaches endpoint sock (unix path)
    by_name :
        {host asked_host : List ℕ} {port : ℕ} {asked_port : ℤ} (w w' w'' : W)
        → parse_endpoint net.int_other endpoint ≡ ok (tcp asked_host asked_port)
        → net.bind sock (tcp asked_host asked_port) w ≡ (ok tt, w')
        → net.getsockname sock w' ≡ (ok (host, port), w'')
        → Reaches endpoint sock (tcp host (pos port))

  abbrev IsPublished : (endpoint : List ℕ) → ℕ × List ℕ → Type 0
  IsPublished endpoint made =
      (a : Address) × ((parse_endpoint net.int_other made.1 ≡ ok a) × Reaches endpoint made.0 a)
