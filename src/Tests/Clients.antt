-- ===== src/Tests/Clients.antt =====
-- A client whose server answers every request with a mapping and the descriptor 5.
use npb.Prelude.{ℕ, String, ◌≡◌, refl, true, false, none, some, [], pos}
use npb.Mstore.Errors.{ok}
use npb.Mstore.Json.{Json, Members, null, boolean, integer, text, object, end, member}
use npb.Mstore.Cache.{
  Key, acquire, change, lookup, remove, evict, set_cached, _maybe_close_locked, _cache_get,
  _cache_put,
}
use npb.Mstore.Server.{member_of, truthy}
use npb.Mstore.Client.{
  System, State, close_fd, take_fd, _after_fork_if_needed, _ensure_connection, exchange,
  check_response, _request, _open_mapping,
}
use npb.Mstore.Client.Methods.{
  SharedObject, open_object, from_cache, open_new, attach, new_state, to_cache, new_shared,
  on_state, fresh_state,
}
use npb.Mstore.Client.Hits.{open_object-open_object}

abbrev mapping : Members
mapping = member "backend" (text "memfd") (member "size" (integer (pos 4)) end)

abbrev response : Members
response =
    member "ok" (boolean true)
      (member "result" (object (member "mapping" (object mapping) (member "object" null end))) end)

-- The world is the process id. Each mapping is mapping 0.
abbrev system : System ℕ
system = record {
  getpid = λ w. w;
  connect_control = λ endpoint w. (ok 3, w);
  send = λ conn op args w. (ok tt, w);
  recv = λ conn w. (ok (response, some 5), w);
  close = λ conn w. w;
  mmap = λ fd size name read_only w. (ok 0, w);
  is_windows = false;
  to_int = λ v. ok (pos 4);
}

abbrev new_client : State ℕ
new_client = record {
  world = 8;
  conn = none;
  pid = 8;
  is_closed = false;
  cache = record { entries = []; mappings = λ i. fresh_state; hits = 0; misses = 0; evictions = 0 };
  infos = λ i. null;
  taken = [];
  closed_fds = [];
}

abbrev str_of : Json → String
str_of v = "?"

abbrev key : Key
key = record { object_id = "image"; token = "t"; mode = "read" }

abbrev opened : SharedObject
opened = record {
  info = null;
  token = "t";
  mode = "read";
  state = 0;
  cache_hit = false;
  released = false;
}

-- After the first open, in a world where it is another process.
abbrev left_behind : State ℕ
left_behind = (open_object system "unix:///tmp/mstore.sock" 4 str_of key true new_client).1

open_object-open_object_example :
    (again : SharedObject) × ((e : State ℕ) × ((open_object system "unix:///tmp/mstore.sock" 4
            str_of key true
            (record left_behind { world = 9 })
          ≡ (ok again, e))
        × ((again.state ≡ 0)
            × ((again.cache_hit ≡ true) × ((e.world ≡ 9) × (e.conn ≡ left_behind.conn))))))
unfolding open_object from_cache _cache_get lookup open_new _request _ensure_connection
    _after_fork_if_needed exchange take_fd check_response member_of truthy attach _open_mapping
    close_fd new_state to_cache _cache_put evict remove change set_cached _maybe_close_locked
    new_shared acquire on_state
open_object-open_object_example =
    open_object-open_object system "unix:///tmp/mstore.sock" 4 str_of key new_client left_behind
      (record left_behind { world = 9 }) opened refl refl refl
