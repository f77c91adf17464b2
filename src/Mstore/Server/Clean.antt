-- ===== src/Mstore/Server/Clean.antt =====
-- What _serve_connection of mstore/server.py leaves behind.
use npb.Prelude.{ℕ, ◌≡◌, Option}
use npb.Mstore.Registry.Invariant.{IsValid}
use npb.Mstore.Server.Serve.{Session, close_fd}

-- The registry is valid, and the worker has closed the descriptors that it got.
pub record IsClean (s : Session) : Type 0 where
  pub registry_valid : IsValid s.registry
  pub all_closed : s.closed ≡ s.taken

-- The same while one descriptor is in use.
record IsHolding (fd : Option ℕ) (s : Session) : Type 0 where
  registry_valid : IsValid s.registry
  others_closed : (close_fd fd s).closed ≡ s.taken
