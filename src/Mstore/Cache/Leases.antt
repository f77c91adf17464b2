-- ===== src/Mstore/Cache/Leases.antt =====
-- A lease on a mapping of mstore/client.py keeps it open.
use npb.Prelude.{◌≡◌, Bool, true, List, [], ◌∷◌, arith}
use npb.Mstore.Cache.{MappingState, _maybe_close_locked, acquire, release, set_cached}

-- The calls on a mapping, by its leases, by the cache, and by whoever exports its buffer.
pub data Use : Type 0 where
  acquiring releasing : Use
  caching exporting : Bool → Use

unfoldable pub use_mapping : Use → MappingState → MappingState
unfolding acquire release set_cached
use_mapping acquiring m = (acquire m).1
use_mapping releasing m = release m
use_mapping (caching b) m = set_cached b m
use_mapping (exporting b) m = record m { exported = b }

unfoldable pub use_all : List Use → MappingState → MappingState
unfolding use_mapping
use_all [] m = m
use_all (u ∷ us) m = use_all us (use_mapping u m)

use_mapping-lease :
    (u : Use) (m : MappingState)
    → (m.closed ≡ true → m.leases ≡ 0)
    → (use_mapping u m).closed ≡ true
    → (use_mapping u m).leases ≡ 0
unfolding use_mapping acquire release set_cached _maybe_close_locked
use_mapping-lease acquiring m h e = ground arith
use_mapping-lease releasing m h e = ground arith
use_mapping-lease (caching b) m h e = ground arith
use_mapping-lease (exporting b) m h e = h e

-- A mapping is closed only where it has no lease, after any calls in any order, if that held before.
pub use_all-lease :
    (us : List Use) (m : MappingState)
    → (m.closed ≡ true → m.leases ≡ 0)
    → (use_all us m).closed ≡ true
    → (use_all us m).leases ≡ 0
unfolding use_all
use_all-lease [] m h = h
use_all-lease (u ∷ us) m h = use_all-lease us (use_mapping u m) (use_mapping-lease u m h)
