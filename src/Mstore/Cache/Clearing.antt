-- ===== src/Mstore/Cache/Clearing.antt =====
-- What Client.clear_cache of mstore/client.py leaves in the cache.
use npb.Prelude.{
  ℕ, ◌+◌, String, ◌≡◌, refl, sym, ap, ◌∙◌, ◌↔◌, ◌⊎◌, inl, inr, Bool, true, false, Option, none,
  some, List, [], ◌∷◌, arith, eq_iff, ◌==◌, if◌then◌else◌, ==_iff, Bool-cases, length,
}
use npb.Mstore.Errors.{ok}
use npb.Mstore.Cache.{
  Key, Cache, MappingState, Mappings, same_key, lookup, passes, matches, kept, dropped, uncache,
  change, set_cached, _maybe_close_locked, is_mode, clear_cache,
}

same_key-eq : (k j : Key) → same_key k j ≡ true → k ≡ j
unfolding same_key
same_key-eq k j h = λ i. record {
  object_id = (eq_iff k.object_id j.object_id).0 (ground arith) i;
  token = (eq_iff k.token j.token).0 (ground arith) i;
  mode = (eq_iff k.mode j.mode).0 (ground arith) i;
}

lookup-kept :
    (drops : Key → Bool) (key : Key) (es : List (Key × ℕ))
    → lookup key (kept drops es) ≡ (if drops key then none else lookup key es)
unfolding lookup kept
lookup-kept drops key [] = ground arith
lookup-kept drops key ((k, i) ∷ es) = elim (Bool-cases (same_key k key)) [
  | inl e ↦
      let same : drops k ≡ drops key = ap drops (same_key-eq k key e) in
      elim (Bool-cases (drops key)) [
        | inl d ↦ rw (same, d) (lookup-kept drops key es ∙ rw d refl)
        | inr d ↦ rw (same, d, e) refl
      ]
  | inr e ↦ elim (Bool-cases (drops k)) [
    | inl d ↦ rw (d, e) (lookup-kept drops key es)
    | inr d ↦ rw (d, e) (lookup-kept drops key es)
  ]
]

length-dropped :
    (drops : Key → Bool) (es : List (Key × ℕ))
    → length (dropped drops es) + length (kept drops es) ≡ length es
unfolding dropped kept
length-dropped drops [] = refl
length-dropped drops ((k, i) ∷ es) = elim (Bool-cases (drops k)) [
  | inl d ↦ let rest = length-dropped drops es in rw d (omega arith)
  | inr d ↦ let rest = length-dropped drops es in rw d (omega arith)
]

-- A key that the filters select: an absent one selects every key.
pub record IsSelected (object_id token mode : Option String) (k : Key) : Type 0 where
  pub object : (s : String) → object_id ≡ some s → k.object_id ≡ s
  pub by_token : (s : String) → token ≡ some s → k.token ≡ s
  pub by_mode : (s : String) → mode ≡ some s → k.mode ≡ s

passes_iff :
    (t : Option String) (s : String) → (passes t s ≡ true) ↔ ((u : String) → t ≡ some u → s ≡ u)
passes_iff none s = (λ e u same. let never : none ≡ some u = same in cc, λ h. refl)
passes_iff (some t) s =
    (λ e u same. let path : t ≡ u = cc in (eq_iff s t).0 e ∙ path, λ h. (eq_iff s t).1 (h t refl))

matches_iff :
    (object_id token mode : Option String) (k : Key)
    → (matches object_id token mode k ≡ true) ↔ IsSelected object_id token mode k
unfolding matches
matches_iff object_id token mode k =
    let (o, o') = passes_iff object_id k.object_id in
    let (t, t') = passes_iff token k.token in
    let (m, m') = passes_iff mode k.mode in
    (
      λ e. record {
        object = o (ground arith);
        by_token = t (ground arith);
        by_mode = m (ground arith);
      },
      λ h. rw (o' h.object, t' h.by_token, m' h.by_mode) refl,
    )

-- That an entry of the cache with such a key has a mapping.
abbrev pub Has : (Key → Type 0) → ℕ → List (Key × ℕ) → Type 0
Has P i [] = ⊥
Has P i ((k, j) ∷ es) = (P k × (j ≡ i)) ⊎ Has P i es

set_cached-uncached : (m : MappingState) → (set_cached false m).cached ≡ false
unfolding set_cached _maybe_close_locked
set_cached-uncached m = ground arith

change_self : (f : MappingState → MappingState) (i : ℕ) (ms : Mappings) → change f i ms i ≡ f (ms i)
unfolding change
change_self f i ms = rw ((==_iff i i).1 refl) refl

change_ne :
    (f : MappingState → MappingState) (i j : ℕ) (ms : Mappings) → ¬ (i ≡ j) → change f i ms j ≡ ms j
unfolding change
change_ne f i j ms apart = elim (Bool-cases (i == j)) [
  | inl same ↦ absurd (apart ((==_iff i j).0 same))
  | inr other ↦ rw other refl
]

change-uncached :
    (i j : ℕ) (ms : Mappings)
    → (ms j).cached ≡ false
    → (change (set_cached false) i ms j).cached ≡ false
unfolding change
change-uncached i j ms h = elim (Bool-cases (i == j)) [
  | inl same ↦ rw same (set_cached-uncached (ms j))
  | inr other ↦ rw other h
]

uncache-uncached :
    (is : List ℕ) (j : ℕ) (ms : Mappings) → (ms j).cached ≡ false → (uncache is ms j).cached ≡ false
unfolding uncache
uncache-uncached [] j ms h = h
uncache-uncached (i ∷ is) j ms h =
    uncache-uncached is j (change (set_cached false) i ms) (change-uncached i j ms h)

module _ (drops : Key → Bool) (P : Key → Type 0) (means : (k : Key) → (drops k ≡ true) ↔ P k) where
  uncache-dropped :
      (i : ℕ) (es : List (Key × ℕ)) (ms : Mappings)
      → Has P i es
      → (uncache (dropped drops es) ms i).cached ≡ false
  unfolding uncache dropped
  uncache-dropped i [] ms h = absurd h
  uncache-dropped i ((k, j) ∷ es) ms (inl (selected, same)) =
      let now : (change (set_cached false) j ms i).cached ≡ false =
        rw (sym same)
          (ap (λ m. m.cached) (change_self (set_cached false) j ms) ∙ set_cached-uncached (ms j)) in
      rw ((means k).1 selected)
        (uncache-uncached (dropped drops es) i (change (set_cached false) j ms) now)
  uncache-dropped i ((k, j) ∷ es) ms (inr later) = elim (Bool-cases (drops k)) [
    | inl goes ↦ rw goes (uncache-dropped i es (change (set_cached false) j ms) later)
    | inr stays ↦ rw stays (uncache-dropped i es ms later)
  ]

  uncache-kept :
      (i : ℕ) (es : List (Key × ℕ)) (ms : Mappings)
      → ¬ Has P i es
      → uncache (dropped drops es) ms i ≡ ms i
  unfolding uncache dropped
  uncache-kept i [] ms none_there = refl
  uncache-kept i ((k, j) ∷ es) ms none_there = elim (Bool-cases (drops k)) [
    | inl goes ↦
        let apart : ¬ (j ≡ i) = λ same. none_there (inl ((means k).0 goes, same)) in
        rw goes (
          uncache-kept i es (change (set_cached false) j ms) (λ h. none_there (inr h))
          ∙ change_ne (set_cached false) j i ms apart)
    | inr stays ↦ rw stays (uncache-kept i es ms (λ h. none_there (inr h)))
  ]

-- What clear_cache with these filters makes of a cache.
pub record IsCleared (object_id token mode : Option String) (n : ℕ) (c d : Cache) : Type 0 where
  pub counted : n + length d.entries ≡ length c.entries
  pub gone : (k : Key) → IsSelected object_id token mode k → lookup k d.entries ≡ none
  pub stays :
      (k : Key) → ¬ IsSelected object_id token mode k → lookup k d.entries ≡ lookup k c.entries
  pub uncached :
      (i : ℕ) → Has (IsSelected object_id token mode) i c.entries → (d.mappings i).cached ≡ false
  pub untouched :
      (i : ℕ) → ¬ Has (IsSelected object_id token mode) i c.entries → d.mappings i ≡ c.mappings i

-- Where clear_cache returns: a key is found no longer if it has the object, the token and the mode that were asked
-- for, as far as they were, each other key finds what it found, and the count is that of the entries that went;
-- the mapping of an entry that went is not marked as cached, and a mapping that no entry that went has is as it
-- was.
pub lookup-clear_cache :
    (object_id token mode : Option String) (c : Cache)
    → is_mode mode ≡ true
    → (n : ℕ) × (((clear_cache object_id token mode c).0 ≡ ok n)
        × IsCleared object_id token mode n c (clear_cache object_id token mode c).1)
unfolding clear_cache
lookup-clear_cache object_id token mode c h =
    let drops = matches object_id token mode in
    let P = IsSelected object_id token mode in
    let means = matches_iff object_id token mode in
    (
      length (dropped drops c.entries),
      rw h (
        refl,
        record {
          counted = length-dropped drops c.entries;
          gone = λ k selected. lookup-kept drops k c.entries ∙ rw ((means k).1 selected) refl;
          stays = λ k others. lookup-kept drops k c.entries ∙ elim (Bool-cases (drops k)) [
            | inl goes ↦ absurd (others ((means k).0 goes))
            | inr kept_there ↦ rw kept_there refl
          ];
          uncached = λ i has. uncache-dropped drops P means i c.entries c.mappings has;
          untouched = λ i lacks. uncache-kept drops P means i c.entries c.mappings lacks;
        },
      ),
    )
