-- ===== src/Mstore/Cache/Lookup.antt =====
-- The mapping cache of mstore/client.py: its size, and what it finds.
use npb.Prelude.{
  ℕ, suc, ◌≤◌, ◌≡◌, refl, inl, inr, true, false, none, some, List, [], ◌∷◌, ◌++◌, arith, eq_iff,
  ltb, ◌==◌, Bool-cases, length,
}
use npb.Mstore.Cache.{Key, Cache, same_key, lookup, remove, evict, _cache_put}

evict-length :
    (cache_size : ℕ) (es : List (Key × ℕ)) (c : Cache)
    → length (evict cache_size es c).entries ≤ cache_size
unfolding evict
evict-length cache_size [] c = omega arith
evict-length cache_size ((k, i) ∷ es) c =
    elim (Bool-cases (ltb cache_size (length ((k, i) ∷ es)))) [
      | inl e ↦ rw e (evict-length cache_size es _)
      | inr e ↦ rw e (ground arith)
    ]

-- The cache never holds more than cache_size mappings after _cache_put, if it did not before.
pub _cache_put-length :
    (cache_size : ℕ) (key : Key) (state : ℕ) (c : Cache)
    → length c.entries ≤ cache_size
    → length (_cache_put cache_size key state c).entries ≤ cache_size
unfolding _cache_put
_cache_put-length cache_size key state c h = elim (Bool-cases (cache_size == 0)) [
  | inl e ↦ rw e h
  | inr e ↦ rw e (evict-length cache_size _ _)
]

same_key_refl : (k : Key) → same_key k k ≡ true
unfolding same_key
same_key_refl k =
    rw
      (
        (eq_iff k.object_id k.object_id).1 refl,
        (eq_iff k.token k.token).1 refl,
        (eq_iff k.mode k.mode).1 refl,
      )
      refl

pub lookup-remove : (key : Key) (es : List (Key × ℕ)) → lookup key (remove key es) ≡ none
unfolding lookup remove
lookup-remove key [] = refl
lookup-remove key ((k, i) ∷ es) = elim (Bool-cases (same_key k key)) [
  | inl e ↦ rw e (lookup-remove key es)
  | inr e ↦ rw (e, e) (lookup-remove key es)
]

pub lookup-last :
    (key : Key) (i : ℕ) (es : List (Key × ℕ))
    → lookup key es ≡ none
    → lookup key (es ++ (key, i) ∷ []) ≡ some i
unfolding lookup
lookup-last key i [] h = rw (same_key_refl key) refl
lookup-last key i ((k, j) ∷ es) h = elim (Bool-cases (same_key k key)) [
  | inl e ↦ let found : some j ≡ none = rw e at h in cc
  | inr e ↦ rw e (lookup-last key i es (rw e at h))
]

evict-last :
    (cache_size : ℕ) (key : Key) (i : ℕ) (es : List (Key × ℕ)) (c : Cache)
    → (cache_size == 0) ≡ false
    → lookup key es ≡ none
    → lookup key (evict cache_size (es ++ (key, i) ∷ []) c).entries ≡ some i
unfolding evict lookup
evict-last cache_size key i [] c some_room h =
    let fits : ltb cache_size 1 ≡ false = ground arith in rw (fits, same_key_refl key) refl
evict-last cache_size key i ((k, j) ∷ es) c some_room h = elim (Bool-cases (same_key k key)) [
  | inl e ↦ let found : some j ≡ none = rw e at h in cc
  | inr e ↦ elim (Bool-cases (ltb cache_size (suc (length (es ++ (key, i) ∷ []))))) [
    | inl full ↦ rw full (evict-last cache_size key i es _ some_room (rw e at h))
    | inr fits ↦ rw (fits, e) (lookup-last key i es (rw e at h))
  ]
]

-- The mapping that was put last is the one that a cache of any size but 0 has for its key, whatever
-- was evicted for it.
pub lookup-_cache_put :
    (cache_size : ℕ) (key : Key) (state : ℕ) (c : Cache)
    → (cache_size == 0) ≡ false
    → lookup key (_cache_put cache_size key state c).entries ≡ some state
unfolding _cache_put
lookup-_cache_put cache_size key state c some_room = rw some_room (
    evict-last cache_size key state (remove key c.entries) _ some_room
      (lookup-remove key c.entries))
