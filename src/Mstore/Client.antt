-- ===== src/Mstore/Client.antt =====
-- The connection of Client in mstore/client.py: _after_fork_if_needed, _ensure_connection,
-- _drop_connection, _request and _open_mapping. Sockets, mmap and processes are a parameter.
pub mod Creation
pub mod Methods
pub mod Settles
pub mod Responses
pub mod Settled
pub mod Hits
use npb.Prelude.{
  ℕ, String, Bool, true, false, Option, none, some, List, [], ◌∷◌, ◌++◌, map, str_eq, ◌==◌,
  if◌then◌else◌, ℤ,
}
use npb.Mstore.Errors
use npb.Mstore.Errors.{
  Exn, Result, ok, err, protocol_error, other_error, mstore_error, eof_error, os_error, error_of,
}
use npb.Mstore.Exec.{Exec, raise, lift, ◌>>=◌, ◌>>◌}
use npb.Mstore.Json.{Json, Members, text, array, object, end}
use npb.Mstore.Cache.{Cache, Mappings, uncache}
use npb.Mstore.Server.{member_of, truthy, or_else}

-- What the client calls, on the state of the world: os.getpid(), connect_control, a connection's methods, mmap,
-- os.name == "nt", and int(v). Connections and mappings are numbers.
pub record System (W : Type 0) : Type 0 where
  pub getpid : W → ℕ
  pub connect_control : String → Exec W ℕ
  pub send : ℕ → String → Members → Exec W (Unit {0})
  pub recv : ℕ → Exec W (Members × Option ℕ)
  pub close : ℕ → W → W
  pub mmap : Option ℕ → ℤ → Option String → (read_only : Bool) → Exec W ℕ
  pub is_windows : Bool
  pub to_int : Json → Result ℤ

-- The client. `taken` lists the descriptors that came with responses, and `closed_fds` those that os.close
-- was called on, each in order. `infos` has the info of each mapping's state.
pub record State (W : Type 0) : Type 0 where
  pub world : W
  pub conn : Option ℕ
  pub pid : ℕ
  pub is_closed : Bool
  pub cache : Cache
  pub infos : ℕ → Json
  pub taken : List ℕ
  pub closed_fds : List ℕ

abbrev pub in_world : {W A : Type 0} → Exec W A → Exec (State W) A
in_world m c = ((m c.world).0, record c { world = (m c.world).1 })

-- if fd is not None: os.close(fd)
unfoldable pub close_fd : {W : Type 0} → Option ℕ → State W → State W
close_fd none c = c
close_fd (some fd) c = record c { closed_fds = c.closed_fds ++ (fd ∷ []) }

unfoldable pub take_fd : {W : Type 0} → Option ℕ → State W → State W
take_fd none c = c
take_fd (some fd) c = record c { taken = c.taken ++ (fd ∷ []) }

-- except (EOFError, OSError, ConnectionError, ProtocolError)
unfoldable pub is_lost : Exn → Bool
is_lost eof_error = true
is_lost os_error = true
is_lost protocol_error = true
is_lost _ = false

-- The exception of a response's error: `error = response.get("error") or {}`, and its type in ERROR_TYPES.
-- A list has no get, and a list or a dict is no key.
unfoldable pub type_of_error : Json → Exn
type_of_error (text s) = error_of s
type_of_error (array vs) = other_error
type_of_error (object ms) = other_error
type_of_error v = mstore_error

abbrev pub or_internal : Option Json → Json
or_internal (some v) = v
or_internal none = text "internal_error"

unfoldable pub error_in : Json → Exn
unfolding type_of_error member_of
error_in (object error) = type_of_error (or_internal (member_of "type" error))
error_in v = other_error

abbrev pub truthy_member : Option Json → Bool
truthy_member none = false
truthy_member (some v) = truthy v

-- The states of an inherited cache.
abbrev pub states : Cache → List ℕ
states cache = map (λ e. e.1) cache.entries

abbrev pub empty_cache : Mappings → Cache
empty_cache mappings = record {
  entries = [];
  mappings = mappings;
  hits = 0;
  misses = 0;
  evictions = 0;
}

module _ {W : Type 0} (sys : System W) (endpoint : String) where
  abbrev pub close_conn : Option ℕ → W → W
  close_conn none w = w
  close_conn (some conn) w = sys.close conn w

  unfoldable pub _after_fork_if_needed : State W → State W
  unfolding uncache
  _after_fork_if_needed c = if sys.getpid c.world == c.pid then c else record c {
    world = close_conn c.conn c.world;
    conn = none;
    cache = empty_cache (uncache (states c.cache) c.cache.mappings);
    pid = sys.getpid c.world;
    is_closed = false;
  }

  abbrev pub connected : Result ℕ × State W → Result ℕ × State W
  connected (ok conn, c) = (ok conn, record c { conn = some conn })
  connected (err exc, c) = (err exc, c)

  abbrev pub existing : Option ℕ → Exec (State W) ℕ
  existing (some conn) c = (ok conn, c)
  existing none c = connected (in_world (sys.connect_control endpoint) c)

  unfoldable pub _ensure_connection : Exec (State W) ℕ
  unfolding _after_fork_if_needed
  _ensure_connection c =
      let c' = _after_fork_if_needed c in
      if c'.is_closed then (err other_error, c') else existing c'.conn c'

  unfoldable pub _drop_connection : State W → State W
  _drop_connection c = record c { world = close_conn c.conn c.world; conn = none }

  -- The `try` around a call on the connection.
  abbrev pub or_drop : {A : Type 0} → Result A × State W → Result A × State W
  or_drop (ok a, c) = (ok a, c)
  or_drop (err exc, c) =
      if is_lost exc then (err protocol_error, _drop_connection c) else (err exc, c)

  abbrev pub got : Result (Members × Option ℕ) × State W → Result (Members × Option ℕ) × State W
  got (ok (response, fd), c) = (ok (response, fd), take_fd fd c)
  got (err exc, c) = (err exc, c)

  unfoldable pub exchange : ℕ → String → Members → Exec (State W) (Members × Option ℕ)
  unfolding _drop_connection is_lost take_fd
  exchange conn op args = do
    (λ c. or_drop (in_world (sys.send conn op args) c))
    (λ c. got (or_drop (in_world (sys.recv conn) c)))

  -- `result = response.get("result")`, which must be a dict
  abbrev pub result_of : Option Json → Option ℕ → Exec (State W) (Members × Option ℕ)
  result_of (some (object result)) fd c = (ok (result, fd), c)
  result_of _ fd c = (err protocol_error, close_fd fd c)

  -- What _request does with a response.
  unfoldable pub check_response : Members × Option ℕ → Exec (State W) (Members × Option ℕ)
  unfolding close_fd error_in member_of truthy
  check_response (response, fd) c =
      if truthy_member (member_of "ok" response)
      then result_of (member_of "result" response) fd c
      else (err (error_in (or_else (member_of "error" response) (object end))), close_fd fd c)

  unfoldable pub _request : String → Members → Exec (State W) (Members × Option ℕ)
  unfolding _ensure_connection exchange check_response
  _request op args = do
    conn ← _ensure_connection
    response ← exchange conn op args
    check_response response

  -- d[k]
  abbrev pub item : Option Json → Result Json
  item (some v) = ok v
  item none = err other_error

  abbrev pub is_text : Option Json → String → Bool
  is_text (some (text s)) t = str_eq s t
  is_text _ t = false

  -- The `finally` of a memfd mapping.
  abbrev pub finally_close : ℕ → Result ℕ × State W → Result ℕ × State W
  finally_close fd (r, c) = (r, close_fd (some fd) c)

  abbrev pub map_memfd : Option ℕ → ℤ → Bool → Exec (State W) ℕ
  map_memfd none size read_only c = (err protocol_error, c)
  map_memfd (some fd) size read_only c =
      finally_close fd (in_world (sys.mmap (some fd) size none read_only) c)

  abbrev pub map_named : Option Json → ℤ → Bool → Exec (State W) ℕ
  map_named (some (text name)) size read_only =
      if str_eq name ""
      then raise protocol_error
      else in_world (sys.mmap none size (some name) read_only)
  map_named (some v) size read_only = if truthy v then raise other_error else raise protocol_error
  map_named none size read_only = raise protocol_error

  abbrev pub map_sized : Members → Option ℕ → Bool → ℤ → Exec (State W) ℕ
  map_sized mapping fd read_only size c =
      if is_text (member_of "backend" mapping) "memfd"
      then map_memfd fd size read_only c
      else if is_text (member_of "backend" mapping) "windows_named"
      then (if sys.is_windows
          then map_named (member_of "name" mapping) size read_only c
          else (err protocol_error, c))
      else (err protocol_error, close_fd fd c)

  unfoldable pub _open_mapping : Json → Option ℕ → (mode : String) → Exec (State W) ℕ
  unfolding member_of close_fd truthy
  _open_mapping (object mapping) fd mode = do
    size ← lift (Errors.◌>>=◌ (item (member_of "size" mapping)) sys.to_int)
    map_sized mapping fd (str_eq mode "read") size
  _open_mapping v fd mode = raise other_error
