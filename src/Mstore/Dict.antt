-- ===== src/Mstore/Dict.antt =====
-- Python dicts with text keys, in insertion order.
use mathlib.Core.Path.{subst}
use npb.Prelude.{
  String, ◌≡◌, refl, ap, inl, inr, Bool, true, not, Option, none, some, List, [], ◌∷◌, arith,
  str_eq, eq_iff, if◌then◌else◌, Bool-cases,
}

abbrev pub Dict {ℓ} : Type ℓ → Type ℓ
Dict V = List (String × V)

module _ {ℓ} {V : Type ℓ} where
  -- d.get(k)
  unfoldable pub get : String → Dict V → Option V
  get k [] = none
  get k ((j, v) ∷ d) = if str_eq j k then some v else get k d

  -- d[k] = v
  unfoldable pub put : String → V → Dict V → Dict V
  put k v [] = (k, v) ∷ []
  put k v ((j, w) ∷ d) = if str_eq j k then (k, v) ∷ d else (j, w) ∷ put k v d

  -- d.pop(k, None) for each key whose value fails the test `keep`
  unfoldable pub retain : (String → V → Bool) → Dict V → Dict V
  retain keep [] = []
  retain keep ((j, v) ∷ d) = let rest = retain keep d in if keep j v then (j, v) ∷ rest else rest

  -- d.pop(k, None)
  unfoldable pub pop : String → Dict V → Dict V
  unfolding retain
  pop k d = retain (λ j v. not (str_eq j k)) d

  pub get-put :
      (k j : String) (v : V) (d : Dict V)
      → get j (put k v d) ≡ (if str_eq k j then some v else get j d)
  unfolding get put
  get-put k j v [] = refl
  get-put k j v ((i, w) ∷ d) = ground (arith, eq_iff k j, eq_iff i k, eq_iff i j, get-put k j v d)

  pub get-pop :
      (k j : String) (d : Dict V) → get j (pop k d) ≡ (if str_eq k j then none else get j d)
  unfolding get pop
  get-pop k j [] = ground arith
  get-pop k j ((i, w) ∷ d) = ground (arith, eq_iff k j, eq_iff i k, eq_iff i j, get-pop k j d)

-- What holds of every entry.
module _ {ℓ} {V : Type ℓ} where
  abbrev pub AllEntries {κ} : (String → V → Type κ) → Dict V → Type κ
  AllEntries P [] = Unit
  AllEntries P ((k, v) ∷ d) = P k v × AllEntries P d

  pub AllEntries-get {κ} :
      (P : String → V → Type κ) (k : String) (d : Dict V) {v : V}
      → AllEntries P d
      → get k d ≡ some v
      → P k v
  unfolding get
  AllEntries-get P k [] all h = cc
  AllEntries-get P k ((j, w) ∷ d) {v} (here, rest) h = elim (Bool-cases (str_eq j k)) [
    | inl e ↦
        let same : j ≡ k = (eq_iff j k).0 e in
        let found : w ≡ v = ground (arith, e) in subst (λ t. P t v) same (subst (P j) found here)
    | inr e ↦ AllEntries-get P k d rest (rw e at h)
  ]

  pub AllEntries-put {κ} :
      (P : String → V → Type κ) (k : String) (v : V) (d : Dict V)
      → AllEntries P d
      → P k v
      → AllEntries P (put k v d)
  unfolding put
  AllEntries-put P k v [] all h = (h, tt)
  AllEntries-put P k v ((j, w) ∷ d) (here, rest) h = elim (Bool-cases (str_eq j k)) [
    | inl e ↦ rw e (h, rest)
    | inr e ↦ rw e (here, AllEntries-put P k v d rest h)
  ]

  pub AllEntries-retain {κ} :
      (P : String → V → Type κ) (keep : String → V → Bool) (d : Dict V)
      → AllEntries P d
      → AllEntries (λ k v. P k v × (keep k v ≡ true)) (retain keep d)
  unfolding retain
  AllEntries-retain P keep [] all = tt
  AllEntries-retain P keep ((j, w) ∷ d) (here, rest) = elim (Bool-cases (keep j w)) [
    | inl e ↦ rw e ((here, e), AllEntries-retain P keep d rest)
    | inr e ↦ rw e (AllEntries-retain P keep d rest)
  ]

  pub AllEntries-map {κ ι} :
      {P : String → V → Type κ} {Q : String → V → Type ι}
      → ((k : String) (v : V) → P k v → Q k v)
      → (d : Dict V) → AllEntries P d
      → AllEntries Q d
  AllEntries-map f [] all = tt
  AllEntries-map f ((k, v) ∷ d) (here, rest) = (f k v here, AllEntries-map f d rest)

  -- An entry that passes the test stays.
  pub get-retain :
      (keep : String → V → Bool) (k : String) (d : Dict V) {v : V}
      → get k d ≡ some v
      → keep k v ≡ true
      → get k (retain keep d) ≡ some v
  unfolding get retain
  get-retain keep k [] h kept = cc
  get-retain keep k ((j, w) ∷ d) {v} h kept = elim (Bool-cases (str_eq j k)) [
    | inl e ↦
        let same : j ≡ k = (eq_iff j k).0 e in
        let found : w ≡ v = ground (arith, e) in
        let stays : keep j w ≡ true = rw (same, found) kept in rw (stays, e) (ap some found)
    | inr e ↦
        let later = get-retain keep k d {v = v} (rw e at h) kept in
        elim (Bool-cases (keep j w)) [ inl stays ↦ rw (stays, e) later | inr goes ↦ rw goes later ]
  ]
