-- ===== src/Tests/Caches.antt =====
-- A cache of two mappings.
use npb.Prelude.{ℕ, ◌≤◌, String, ◌≡◌, refl, true, false, none, some, List, [], ◌∷◌, arith, length}
use npb.Mstore.Errors.{ok}
use npb.Mstore.Cache.{MappingState, Key, Cache, _cache_put, is_mode, clear_cache}
use npb.Mstore.Cache.Leases.{Use, acquiring, releasing, caching, use_all}
use npb.Mstore.Cache.Lookup.{_cache_put-length}
use npb.Mstore.Cache.Clearing.{IsCleared, lookup-clear_cache}

abbrev mapping : MappingState
mapping = record { closed = false; exported = false; leases = 1; cached = true }

abbrev key : String → Key
key s = record { object_id = s; token = "t"; mode = "read" }

abbrev two : Cache
two = record {
  entries = (key "a", 1) ∷ (key "b", 2) ∷ [];
  mappings = λ i. mapping;
  hits = 0;
  misses = 2;
  evictions = 0;
}

-- A mapping that is leased, put into the cache, taken out of it and let go.
abbrev life : List Use
life = acquiring ∷ caching true ∷ caching false ∷ releasing ∷ releasing ∷ []

life-closed : (use_all life mapping).closed ≡ true
unfolding use_all
life-closed = refl

_cache_put-length_example : length (_cache_put 2 (key "c") 3 two).entries ≤ 2
_cache_put-length_example = _cache_put-length 2 (key "c") 3 two (omega arith)

lookup-clear_cache_example :
    (n : ℕ) × (((clear_cache (some "a") none none two).0 ≡ ok n)
      × IsCleared (some "a") none none n two (clear_cache (some "a") none none two).1)
unfolding is_mode
lookup-clear_cache_example = lookup-clear_cache (some "a") none none two refl
