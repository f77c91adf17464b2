-- ===== src/Mstore/Cache.antt =====
-- _MappingState and the mapping cache of Client in mstore/client.py. Mappings are known by numbers.
pub mod Leases
pub mod Lookup
pub mod Clearing
use npb.Prelude.{
  ℕ, ◌+◌, ◌-◌, String, Bool, true, false, not, ◌&&◌, ◌||◌, Option, none, some, List, [], ◌∷◌, ◌++◌,
  str_eq, ltb, ◌==◌, if◌then◌else◌, length,
}
use npb.Mstore.Errors.{Result, ok, err, other_error}

-- `exported` says that NumPy arrays or memoryviews still hold the mapping's buffer, so that closing
-- it raises BufferError.
pub record MappingState : Type 0 where
  pub closed : Bool
  pub exported : Bool
  pub leases : ℕ
  pub cached : Bool

unfoldable pub _maybe_close_locked : MappingState → MappingState
_maybe_close_locked m =
    if m.cached || not (m.leases == 0) || m.closed
    then m
    else if m.exported
    then m
    else record m { closed = true }

unfoldable pub acquire : MappingState → Result (Unit {0}) × MappingState
acquire m = if m.closed then (err other_error, m) else (ok tt, record m { leases = m.leases + 1 })

unfoldable pub release : MappingState → MappingState
unfolding _maybe_close_locked
release m = _maybe_close_locked (if ltb 0 m.leases then record m { leases = m.leases - 1 } else m)

unfoldable pub set_cached : Bool → MappingState → MappingState
unfolding _maybe_close_locked
set_cached cached m = _maybe_close_locked (record m { cached = cached })

-- (object_id, token, mode)
pub record Key : Type 0 where
  pub object_id : String
  pub token : String
  pub mode : String

unfoldable pub same_key : Key → Key → Bool
same_key k j = str_eq k.object_id j.object_id && str_eq k.token j.token && str_eq k.mode j.mode

-- The mappings by their numbers.
abbrev pub Mappings : Type 0
Mappings = ℕ → MappingState

unfoldable pub change : (MappingState → MappingState) → ℕ → Mappings → Mappings
change f i ms j = if i == j then f (ms j) else ms j

-- The OrderedDict, the least recently used entry first, and the counters.
pub record Cache : Type 0 where
  pub entries : List (Key × ℕ)
  pub mappings : Mappings
  pub hits : ℕ
  pub misses : ℕ
  pub evictions : ℕ

unfoldable pub lookup : Key → List (Key × ℕ) → Option ℕ
unfolding same_key
lookup key [] = none
lookup key ((k, i) ∷ es) = if same_key k key then some i else lookup key es

unfoldable pub remove : Key → List (Key × ℕ) → List (Key × ℕ)
unfolding same_key
remove key [] = []
remove key ((k, i) ∷ es) =
    let rest = remove key es in if same_key k key then rest else (k, i) ∷ rest

abbrev pub get_state : Key → Option ℕ → Cache → Option ℕ × Cache
get_state key none c = (none, record c { misses = c.misses + 1 })
get_state key (some i) c =
    if (c.mappings i).closed
    then (
      none,
      record c {
        entries = remove key c.entries;
        mappings = change (set_cached false) i c.mappings;
        misses = c.misses + 1;
      },
    )
    else (some i, record c { entries = remove key c.entries ++ (key, i) ∷ []; hits = c.hits + 1 })

unfoldable pub _cache_get : Key → Cache → Option ℕ × Cache
unfolding lookup remove set_cached change
_cache_get key c = get_state key (lookup key c.entries) c

-- `while len(self._cache) > self.cache_size`
unfoldable pub evict : ℕ → List (Key × ℕ) → Cache → Cache
unfolding set_cached change
evict cache_size [] c = record c { entries = [] }
evict cache_size ((k, i) ∷ es) c =
    let smaller = evict cache_size es (record c {
      mappings = change (set_cached false) i c.mappings;
      evictions = c.evictions + 1;
    }) in
    if ltb cache_size (length ((k, i) ∷ es)) then smaller else record c { entries = (k, i) ∷ es }

abbrev pub drop_old : Option ℕ → ℕ → Mappings → Mappings
drop_old none state ms = ms
drop_old (some old) state ms = if old == state then ms else change (set_cached false) old ms

unfoldable pub _cache_put : ℕ → Key → ℕ → Cache → Cache
unfolding lookup remove evict set_cached change
_cache_put cache_size key state c =
    if cache_size == 0
    then c
    else evict cache_size (remove key c.entries ++ (key, state) ∷ []) (record c {
      mappings = change (set_cached true) state (drop_old (lookup key c.entries) state c.mappings);
    })

-- An absent filter lets every value pass.
abbrev pub passes : Option String → String → Bool
passes none s = true
passes (some t) s = str_eq s t

unfoldable pub matches : Option String → Option String → Option String → Key → Bool
matches object_id token mode k =
    passes object_id k.object_id && passes token k.token && passes mode k.mode

-- The entries that stay.
unfoldable pub kept : (Key → Bool) → List (Key × ℕ) → List (Key × ℕ)
kept drops [] = []
kept drops ((k, i) ∷ es) = let rest = kept drops es in if drops k then rest else (k, i) ∷ rest

-- The mappings of the entries that go.
unfoldable pub dropped : (Key → Bool) → List (Key × ℕ) → List ℕ
dropped drops [] = []
dropped drops ((k, i) ∷ es) = let rest = dropped drops es in if drops k then i ∷ rest else rest

unfoldable pub uncache : List ℕ → Mappings → Mappings
unfolding change set_cached
uncache [] ms = ms
uncache (i ∷ is) ms = uncache is (change (set_cached false) i ms)

unfoldable pub is_mode : Option String → Bool
is_mode none = true
is_mode (some m) = str_eq m "read" || str_eq m "write"

unfoldable pub clear_cache :
    Option String → Option String → Option String → Cache → Result ℕ × Cache
unfolding matches kept dropped uncache is_mode
clear_cache object_id token mode c =
    let drops = matches object_id token mode in
    let states = dropped drops c.entries in
    if is_mode mode
    then (
      ok (length states),
      record c { entries = kept drops c.entries; mappings = uncache states c.mappings },
    )
    else (err other_error, c)
