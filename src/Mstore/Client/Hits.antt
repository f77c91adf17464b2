-- ===== src/Mstore/Client/Hits.antt =====
-- A second Client.open in mstore/client.py of what the cache holds asks nobody.
use mathlib.Core.Path.{subst}
use npb.Prelude.{
  ℕ, ◌+◌, String, ◌≡◌, refl, sym, ap, ◌∙◌, inl, inr, Bool, true, false, ◌||◌, Option, none, some,
  [], ◌∷◌, ◌++◌, str_eq, ◌==◌, if◌then◌else◌, ==_iff, Bool-cases,
}
use npb.Mstore.Errors.{Result, ok, err, other_error, >>=-eq-ok}
use npb.Mstore.Exec.{lift, bind-ok, bind-eq-ok}
use npb.Mstore.Json.{Json, text, member, end}
use npb.Mstore.Cache.{
  MappingState, Cache, Key, acquire, change, lookup, remove, get_state, _cache_get, _cache_put,
}
use npb.Mstore.Cache.Lookup.{lookup-remove, lookup-last, lookup-_cache_put}
use npb.Mstore.Client.{System, State, _request}
use npb.Mstore.Client.Methods.{
  SharedObject, on_state, new_shared, from_cache, to_cache, open_new, open_found, open_object,
  attach, object_members,
}

-- The cache has an open mapping for a key.
pub record IsCached (key : Key) (i : ℕ) (cache : Cache) : Type 0 where
  pub found : lookup key cache.entries ≡ some i
  pub is_open : (cache.mappings i).closed ≡ false

abbrev known_mode : Key → Result (Unit {0})
known_mode key =
    if str_eq key.mode "read" || str_eq key.mode "write" then ok tt else err other_error

acquire-ok :
    (m : MappingState) → (acquire m).0 ≡ ok tt → (m.closed ≡ false) × ((acquire m).1.closed ≡ false)
unfolding acquire
acquire-ok m h = elim (Bool-cases m.closed) [
  | inl e ↦ let failed : err other_error ≡ ok tt = rw e at h in cc
  | inr e ↦ (e, rw e refl)
]

acquire-open : (m : MappingState) → m.closed ≡ false → (acquire m).0 ≡ ok tt
unfolding acquire
acquire-open m h = rw h refl

change-same :
    (f : MappingState → MappingState) (i : ℕ) (ms : ℕ → MappingState) → change f i ms i ≡ f (ms i)
unfolding change
change-same f i ms = rw ((==_iff i i).1 refl) refl

module _ {W : Type 0} (sys : System W) (endpoint : String) (cache_size : ℕ)
    (to_str : Json → String) where
  new_shared-ok :
      (info : Json) (token mode : String) (i : ℕ) (hit : Bool) (u t : State W) (obj : SharedObject)
      → new_shared sys endpoint cache_size to_str info token mode i hit u ≡ (ok obj, t)
      → (obj.state ≡ i)
        × (((t.cache.mappings i).closed ≡ false) × (t.cache.entries ≡ u.cache.entries))
  unfolding new_shared on_state
  new_shared-ok info token mode i hit u t obj h =
      let m = u.cache.mappings i in
      let (done, (acquired, made)) = >>=-eq-ok (acquire m).0 (ap (λ r. r.0) h) in
      let (was, now) = acquire-ok m acquired in
      let after = ap (λ r. r.1) h in
      let opened : (change (λ old. (acquire m).1) i u.cache.mappings i).closed ≡ false =
        ap (λ x. x.closed) (change-same (λ old. (acquire m).1) i u.cache.mappings) ∙ now in
      (
        cc,
        (
          ap (λ x. (x.cache.mappings i).closed) (sym after) ∙ opened,
          ap (λ x. x.cache.entries) (sym after),
        ),
      )

  -- What open_found returns is cached, where a new mapping is put in the cache.
  open_found-IsCached :
      (key : Key) (found : Option ℕ) (u t : State W) (obj : SharedObject)
      → (cache_size == 0) ≡ false
      → ((i : ℕ) → found ≡ some i → lookup key u.cache.entries ≡ some i)
      → open_found sys endpoint cache_size to_str key true found u ≡ (ok obj, t)
      → IsCached key obj.state t.cache
  unfolding open_new to_cache
  open_found-IsCached key (some i) u t obj room known h =
      let (same, (opened, kept)) = new_shared-ok (u.infos i) key.token key.mode i true u t obj h in
      record {
        found = ap (lookup key) kept ∙ known i refl ∙ ap some (sym same);
        is_open = rw same opened;
      }
  open_found-IsCached key none u t obj room known h =
      let (response, (u1, (_, h1))) =
        bind-eq-ok
          (_request sys endpoint "open"
            (object_members key.object_id key.token (member "mode" (text key.mode) end)))
          _ u h in
      let (attached, (u2, (_, h2))) =
        bind-eq-ok (attach sys endpoint cache_size to_str response key.mode) _ u1 h1 in
      let i = attached.0 in
      let put = record u2 { cache = _cache_put cache_size key i u2.cache } in
      let (same, (opened, kept)) =
        new_shared-ok attached.1 key.token key.mode i false put t obj h2 in
      record {
        found =
            ap (lookup key) kept
            ∙ lookup-_cache_put cache_size key i u2.cache room
            ∙ ap some (sym same);
        is_open = rw same opened;
      }

  -- _cache_get of what is cached.
  _cache_get-found :
      (key : Key) (found : Option ℕ) (i : ℕ) (c d : Cache)
      → get_state key found c ≡ (some i, d)
      → lookup key d.entries ≡ some i
  unfolding lookup
  _cache_get-found key none i c d h = cc
  _cache_get-found key (some j) i c d h = elim (Bool-cases (c.mappings j).closed) [
    | inl e ↦ let failed : none ≡ some i = ap (λ r. r.0) (rw e at h) in cc
    | inr e ↦
        let moved = rw e at h in
        let same : j ≡ i = cc in
        sym (ap (λ r. lookup key r.1.entries) moved)
        ∙ lookup-last key j (remove key c.entries) (lookup-remove key c.entries)
        ∙ ap some same
  ]

  from_cache-known :
      (key : Key) (c u : State W) (found : Option ℕ)
      → from_cache sys endpoint cache_size to_str true key c ≡ (ok found, u)
      → (i : ℕ) → found ≡ some i
      → lookup key u.cache.entries ≡ some i
  unfolding from_cache _cache_get
  from_cache-known key c u found h i e =
      let r = get_state key (lookup key c.cache.entries) c.cache in
      let known : r.0 ≡ some i = cc in
      _cache_get-found key (lookup key c.cache.entries) i c.cache u.cache
        (ap (λ x. (x, r.1)) known ∙ ap (λ x. (some i, x.1.cache)) h)

  open_object-IsCached :
      (key : Key) (c t : State W) (obj : SharedObject)
      → (cache_size == 0) ≡ false
      → open_object sys endpoint cache_size to_str key true c ≡ (ok obj, t)
      → IsCached key obj.state t.cache × (known_mode key ≡ ok tt)
  unfolding open_object
  open_object-IsCached key c t obj room h =
      let (done, (u, (mode, h1))) = bind-eq-ok (lift (known_mode key)) _ c h in
      let (found, (v, (got, h2))) =
        bind-eq-ok (from_cache sys endpoint cache_size to_str true key)
          (open_found sys endpoint cache_size to_str key true) u h1 in
      (
        open_found-IsCached key found v t obj room (from_cache-known key u v found got) h2,
        ap (λ r. r.0) mode,
      )

  new_shared-open :
      (info : Json) (token mode : String) (i : ℕ) (hit : Bool) (u : State W)
      → (u.cache.mappings i).closed ≡ false
      → new_shared sys endpoint cache_size to_str info token mode i hit u ≡ (
        ok (record {
          info = info;
          token = token;
          mode = mode;
          state = i;
          cache_hit = hit;
          released = false;
        }),
        on_state (λ old. (acquire (u.cache.mappings i)).1) i u,
      )
  unfolding new_shared
  new_shared-open info token mode i hit u is_open =
      rw (acquire-open (u.cache.mappings i) is_open) refl

  abbrev moved_last : Key → ℕ → State W → State W
  moved_last key i d = record d {
    cache = record d.cache {
      entries = remove key d.cache.entries ++ (key, i) ∷ [];
      hits = d.cache.hits + 1;
    };
  }

  from_cache-hit :
      (key : Key) (i : ℕ) (d : State W)
      → IsCached key i d.cache
      → from_cache sys endpoint cache_size to_str true key d ≡ (ok (some i), moved_last key i d)
  unfolding from_cache _cache_get
  from_cache-hit key i d cached = rw (cached.found, cached.is_open) refl

  open_object-hit :
      (key : Key) (i : ℕ) (d : State W)
      → known_mode key ≡ ok tt
      → IsCached key i d.cache
      → (again : SharedObject) × ((e : State W) × ((open_object sys endpoint cache_size to_str key
                true d
              ≡ (ok again, e))
            × ((again.state ≡ i)
                × ((again.cache_hit ≡ true) × ((e.world ≡ d.world) × (e.conn ≡ d.conn))))))
  unfolding open_object on_state
  open_object-hit key i d mode cached =
      let u = moved_last key i d in
      (
        record {
          info = d.infos i;
          token = key.token;
          mode = key.mode;
          state = i;
          cache_hit = true;
          released = false;
        },
        (
          on_state (λ old. (acquire (u.cache.mappings i)).1) i u,
          (
            bind-ok (lift (known_mode key)) _ d (ap (λ r. (r, d)) mode)
                ∙ bind-ok (from_cache sys endpoint cache_size to_str true key)
                    (open_found sys endpoint cache_size to_str key true) d
                    (from_cache-hit key i d cached)
                ∙ new_shared-open (d.infos i) key.token key.mode i true u cached.is_open,
            (refl, (refl, (refl, refl))),
          ),
        ),
      )

  -- Once open(…, cache=True) has returned, another such call, with the cache as it was left, returns a lease
  -- on the same mapping and asks nobody: the world and the connection stay as they are, whatever happened to
  -- them meanwhile (a revoked token, a deleted object, a server that is gone). The cache has a size but 0.
  pub open_object-open_object :
      (key : Key) (c t d : State W) (obj : SharedObject)
      → (cache_size == 0) ≡ false
      → open_object sys endpoint cache_size to_str key true c ≡ (ok obj, t)
      → d.cache ≡ t.cache
      → (again : SharedObject) × ((e : State W) × ((open_object sys endpoint cache_size to_str key
                true d
              ≡ (ok again, e))
            × ((again.state ≡ obj.state)
                × ((again.cache_hit ≡ true) × ((e.world ≡ d.world) × (e.conn ≡ d.conn))))))
  open_object-open_object key c t d obj room h same =
      let (cached, mode) = open_object-IsCached key c t obj room h in
      open_object-hit key obj.state d mode (subst (λ x. IsCached key obj.state x) (sym same) cached)
