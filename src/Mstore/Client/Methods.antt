-- ===== src/Mstore/Client/Methods.antt =====
-- Client and SharedObject of mstore/client.py, on the connection of Mstore/Client and the cache of Mstore/Cache.
use npb.Prelude.{
  ℕ, String, Bool, true, false, ◌||◌, Option, none, some, List, [], ◌∷◌, str_eq, ◌==◌,
  if◌then◌else◌, length, ℤ,
}
use npb.Mstore.Errors
use npb.Mstore.Errors.{Result, ok, err, other_error, protocol_error}
use npb.Mstore.Exec.{Exec, pure, lift, modify, ◌>>=◌, ◌>>◌}
use npb.Mstore.Json.{
  Json, Items, Members, null, integer, text, array, object, nil, cons, end, member,
}
use npb.Mstore.Cache.{
  MappingState, Key, change, acquire, release, _cache_get, _cache_put, clear_cache,
}
use npb.Mstore.Server.{member_of, truthy, or_else}
use npb.Mstore.Client.{
  System, State, close_fd, _request, _open_mapping, _drop_connection, empty_cache, item,
  truthy_member,
}
use npb.Mstore.Client.Creation.{Creation, Request, check_creation}

pub record SharedObject : Type 0 where
  pub info : Json
  pub token : String
  pub mode : String
  pub state : ℕ
  pub cache_hit : Bool
  pub released : Bool

pub record CacheInfo : Type 0 where
  pub size : ℕ
  pub capacity : ℕ
  pub hits : ℕ
  pub misses : ℕ
  pub evictions : ℕ

-- _MappingState(mapping, info)
abbrev pub fresh_state : MappingState
fresh_state = record { closed = false; exported = false; leases = 0; cached = false }

unfoldable pub new_state : {W : Type 0} → ℕ → Json → State W → State W
unfolding change
new_state i info c = record c {
  cache = record c.cache { mappings = change (λ m. fresh_state) i c.cache.mappings };
  infos = λ j. if i == j then info else c.infos j;
}

unfoldable pub on_state : {W : Type 0} → (MappingState → MappingState) → ℕ → State W → State W
unfolding change
on_state f i c = record c { cache = record c.cache { mappings = change f i c.cache.mappings } }

abbrev pub string_items : List ℤ → Items
string_items [] = nil
string_items (z ∷ zs) = cons (integer z) (string_items zs)

abbrev pub shape_json : Option (List ℤ × String) → Json
shape_json none = null
shape_json (some (shape, dtype)) = array (string_items shape)

abbrev pub dtype_json : Option (List ℤ × String) → Json
dtype_json none = null
dtype_json (some (shape, dtype)) = text dtype

-- metadata or {}
abbrev pub metadata_json : Json → Json
metadata_json metadata = or_else (some metadata) (object end)

abbrev pub creation_members : Creation → Request → Members
creation_members args (size, described) = member "size" (integer size) (
    member "shape" (shape_json described) (
      member "dtype" (dtype_json described)
        (member "order" (text args.order) (member "metadata" (metadata_json args.metadata) end))))

abbrev pub object_members : String → String → Members → Members
object_members object_id token rest =
    member "object_id" (text object_id) (member "token" (text token) rest)

module _ {W : Type 0} (sys : System W) (endpoint : String) (cache_size : ℕ)
    (to_str : Json → String) where
  -- SharedObject.__init__: the state is acquired, which raises if its mapping is closed.
  unfoldable pub new_shared :
      Json → String → String → ℕ → (cache_hit : Bool) → Exec (State W) SharedObject
  unfolding acquire on_state
  new_shared info token mode i cache_hit c =
      let (r, m) = acquire (c.cache.mappings i) in
      (
        Errors.◌>>=◌ r λ done. ok (record {
          info = info;
          token = token;
          mode = mode;
          state = i;
          cache_hit = cache_hit;
          released = false;
        }),
        on_state (λ old. m) i c,
      )

  unfoldable pub object_closed : SharedObject → State W → Bool
  object_closed shared c = shared.released || (c.cache.mappings shared.state).closed

  unfoldable pub _require_open : SharedObject → Exec (State W) ℕ
  unfolding object_closed
  _require_open shared c =
      if object_closed shared c then (err other_error, c) else (ok shared.state, c)

  -- SharedObject.close
  unfoldable pub close_object : SharedObject → State W → SharedObject × State W
  unfolding release on_state
  close_object shared c =
      if shared.released
      then (shared, c)
      else (record shared { released = true }, on_state release shared.state c)

  -- Client.__init__, where a negative cache_size raises ValueError, in a process and a world.
  unfoldable pub new_client : (negative : Bool) → W → Result (State W)
  new_client true w = err other_error
  new_client false w = ok (record {
    world = w;
    conn = none;
    pid = sys.getpid w;
    is_closed = false;
    cache = empty_cache (λ i. fresh_state);
    infos = λ i. null;
    taken = [];
    closed_fds = [];
  })

  unfoldable pub cache_info : State W → CacheInfo
  cache_info c = record {
    size = length c.cache.entries;
    capacity = cache_size;
    hits = c.cache.hits;
    misses = c.cache.misses;
    evictions = c.cache.evictions;
  }

  -- A request whose response carries no descriptor to keep.
  unfoldable pub request_only : String → Members → Exec (State W) Members
  unfolding _request close_fd
  request_only op args = do
    (result, fd) ← _request sys endpoint op args
    modify (close_fd fd)
    pure result

  unfoldable pub ping : Exec (State W) Members
  unfolding request_only
  ping = request_only "ping" end

  -- `mapping` is looked up in the result before it is opened.
  unfoldable pub attach : Members × Option ℕ → (mode : String) → Exec (State W) (ℕ × Json)
  unfolding member_of _open_mapping new_state
  attach (result, fd) mode = do
    mapping ← lift (item sys endpoint (member_of "mapping" result))
    i ← _open_mapping sys endpoint mapping fd mode
    info ← lift (item sys endpoint (member_of "object" result))
    modify (new_state i info)
    pure (i, info)

  unfoldable pub create : Creation → Exec (State W) SharedObject
  unfolding check_creation _request member_of attach new_shared truthy
  create args = do
    request ← lift (check_creation args)
    response ← _request sys endpoint "create" (creation_members args request)
    token ← lift (item sys endpoint (member_of "token" response.0))
    attached ← attach response "write"
    new_shared attached.1 (to_str token) "write" attached.0 false

  -- self._cache_get(key), if cache
  unfoldable pub from_cache : (cache : Bool) → Key → Exec (State W) (Option ℕ)
  unfolding _cache_get
  from_cache false key c = (ok none, c)
  from_cache true key c =
      let (found, cache) = _cache_get key c.cache in (ok found, record c { cache = cache })

  unfoldable pub to_cache : (cache : Bool) → Key → ℕ → State W → State W
  unfolding _cache_put
  to_cache false key i c = c
  to_cache true key i c = record c { cache = _cache_put cache_size key i c.cache }

  unfoldable pub open_new : Key → (cache : Bool) → Exec (State W) SharedObject
  unfolding _request attach to_cache new_shared
  open_new key cache = do
    response ←
        _request sys endpoint "open"
          (object_members key.object_id key.token (member "mode" (text key.mode) end))
    attached ← attach response key.mode
    modify (to_cache cache key attached.0)
    new_shared attached.1 key.token key.mode attached.0 false

  abbrev pub open_found : Key → (cache : Bool) → Option ℕ → Exec (State W) SharedObject
  open_found key cache (some i) c = new_shared (c.infos i) key.token key.mode i true c
  open_found key cache none c = open_new key cache c

  -- Client.open
  unfoldable pub open_object : Key → (cache : Bool) → Exec (State W) SharedObject
  unfolding from_cache open_new new_shared
  open_object key cache = do
    lift (if str_eq key.mode "read" || str_eq key.mode "write" then ok tt else err other_error)
    found ← from_cache cache key
    open_found key cache found

  unfoldable pub issue_token : String → String → Json → Json → Exec (State W) String
  unfolding request_only member_of
  issue_token object_id issuer_token permissions expires_in = do
    result ← request_only "grant" (
        object_members object_id issuer_token
          (member "permissions" permissions (member "expires_in" expires_in end)))
    token ← lift (item sys endpoint (member_of "token" result))
    pure (to_str token)

  -- The server confirms with a truthy member.
  unfoldable pub confirmed : String → Members → Result (Unit {0})
  unfolding member_of truthy
  confirmed k result = if truthy_member (member_of k result) then ok tt else err protocol_error

  unfoldable pub revoke_token : String → String → String → Exec (State W) (Unit {0})
  unfolding request_only confirmed
  revoke_token object_id issuer_token target_token = do
    result ←
        request_only "revoke"
          (object_members object_id issuer_token (member "target_token" (text target_token) end))
    lift (confirmed "revoked" result)

  unfoldable pub info : String → String → Exec (State W) Members
  unfolding request_only
  info object_id token = request_only "info" (object_members object_id token end)

  -- self.clear_cache with its filters
  unfoldable pub clear : Option String → Option String → Option String → Exec (State W) ℕ
  unfolding clear_cache
  clear object_id token mode c =
      let (r, cache) = clear_cache object_id token mode c.cache in (r, record c { cache = cache })

  unfoldable pub delete : String → String → Exec (State W) (Unit {0})
  unfolding request_only confirmed clear
  delete object_id token = do
    result ← request_only "delete" (object_members object_id token end)
    lift (confirmed "deleted" result)
    clear (some object_id) none none
    pure tt

  unfoldable pub close : Exec (State W) (Unit {0})
  unfolding clear _drop_connection
  close c =
      if c.is_closed
      then (ok tt, c)
      else (do
        clear none none none
        modify (λ c. record (_drop_connection sys endpoint c) { is_closed = true }))
          c
