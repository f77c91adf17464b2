-- ===== src/Mstore/Regions/Access.antt =====
-- Which descriptors the server of mstore/server.py sends, with the regions of mstore/backend.py.
use npb.Prelude.{ℕ}
use npb.Mstore.Json.{Json}
use npb.Mstore.Records.{Registry}
use npb.Mstore.Server.{Services}
use npb.Mstore.Regions.{Kernel, Region, client_mapping}

-- The services of a server whose regions are these, in a state of the world.
abbrev pub with_regions : {W : Type 0} → Kernel W → (ℕ → Region) → W → Services → Services
with_regions kernel regions w services = record services {
  client_mapping = λ region mode. (client_mapping kernel (regions region) mode w).0;
}
