-- ===== src/Vineyard/Reuse.antt =====
-- VineyardStore of src/npb/_vineyard.py hands out the reference of an array that it resolved.
use npb.Prelude.{
  ◌≡◌, refl, sym, ap, ◌∙◌, inl, inr, true, false, some, List, [], ◌∷◌, arith, str_eq, eq_iff,
  if◌then◌else◌, ==_iff, Bool-cases, list_eq_refl, list_eq_iff,
}
use npb.Errors.{Result, ok, err, blob_store_error}
use npb.Exec.{lift, bind-eq-ok}
use npb.Value.{BlobRef}
use npb.Externals.{Externals, IsPlain}
use npb.Codec.Manifest.{validate_ndarray}
use npb.Vineyard.{
  Placed, an_array, Client, Numpy, Config, ArrayKey, key_eq, _key, Store, find, insert,
  _validate_array, _try_reuse_resolved, _register_resolved, put_array, resolve, get_array, kind,
  on_client,
}

pub key_eq_refl : (k : ArrayKey) → key_eq k k ≡ true
unfolding key_eq
key_eq_refl k =
    rw
      (
        (==_iff k.address k.address).1 refl,
        (==_iff k.size k.size).1 refl,
        (eq_iff k.dtype k.dtype).1 refl,
        list_eq_refl k.shape,
      )
      refl

key_eq-eq : (k j : ArrayKey) → key_eq k j ≡ true → k ≡ j
unfolding key_eq
key_eq-eq k j h = λ i. record {
  address = (==_iff k.address j.address).0 (ground arith) i;
  size = (==_iff k.size j.size).0 (ground arith) i;
  dtype = (eq_iff k.dtype j.dtype).0 (ground arith) i;
  shape = (list_eq_iff k.shape j.shape).0 (ground arith) i;
}

find-insert :
    (k : ArrayKey) (r : BlobRef) (d : List (ArrayKey × BlobRef)) → find k (insert k r d) ≡ some r
unfolding find insert
find-insert k r [] = rw (key_eq_refl k) refl
find-insert k r ((j, q) ∷ d) = elim (Bool-cases (key_eq j k)) [
  | inl e ↦ rw (e, key_eq_refl k) refl
  | inr e ↦ rw (e, e) (find-insert k r d)
]

find-insert_ne :
    (k j : ArrayKey) (r : BlobRef) (d : List (ArrayKey × BlobRef))
    → key_eq j k ≡ false
    → find k (insert j r d) ≡ find k d
unfolding find insert
find-insert_ne k j r [] h = rw h refl
find-insert_ne k j r ((i, q) ∷ d) h = elim (Bool-cases (key_eq i j)) [
  | inl same ↦
      let other : key_eq i k ≡ false = rw (key_eq-eq i j same) h in rw (same, h, other) refl
  | inr apart ↦ elim (Bool-cases (key_eq i k)) [
    | inl found ↦ rw (apart, found) refl
    | inr further ↦ rw (apart, further) (find-insert_ne k j r d h)
  ]
]

registered-find :
    {C : Type 0} (ref : BlobRef) (q p : Placed) (s t : Store C)
    → ◌≡◌ {A = Result Placed × Store C}
        (ok q, record s { resolved_refs = insert (_key q) ref s.resolved_refs })
        (ok p, t)
    → find (_key p) t.resolved_refs ≡ some ref
registered-find ref q p s t h =
    let same : q ≡ p = cc (ap (λ r. r.0) h) in
    ap (λ x. find (_key x) t.resolved_refs) (sym same)
    ∙ ap (λ r. find (_key q) r.1.resolved_refs) (sym h)
    ∙ find-insert (_key q) ref s.resolved_refs

pub _validate_array-ok : (p : Placed) → IsPlain p.array.dtype → _validate_array (an_array p) ≡ ok p
unfolding _validate_array validate_ndarray
_validate_array-ok p plain = rw (plain.no_objects, plain.no_fields) refl

module _ {C : Type 0} (vineyard : Client C) (np : Numpy) (ext : Externals) (config : Config) where
  get_array-registers :
      (ref : BlobRef) (s s' : Store C) (p : Placed)
      → get_array vineyard np ext config ref s ≡ (ok p, s')
      → find (_key p) s'.resolved_refs ≡ some ref
  unfolding get_array _register_resolved
  get_array-registers ref s s' p h =
      let (_, (s1, (_, h1))) =
        bind-eq-ok (lift (if str_eq ref.store kind then ok tt else err blob_store_error)) _ s h in
      let (value, (s2, (_, h2))) = bind-eq-ok (on_client (vineyard.get ref.object_id)) _ s1 h1 in
      let (q, (s3, (_, h3))) =
        bind-eq-ok (lift (resolve vineyard np ext config value ref)) _ s2 h2 in
      registered-find ref q p s3 s' h3

  -- Further calls of get_array, each of which returned an array with another key than this one's.
  abbrev pub OtherReads : Placed → List (BlobRef × Placed) → Store C → Store C → Type 0
  OtherReads p [] s t = s ≡ t
  OtherReads p ((ref, q) ∷ reads) s t =
      (key_eq (_key q) (_key p) ≡ false)
      × ((u : Store C) × ((get_array vineyard np ext config ref s ≡ (ok q, u))
            × OtherReads p reads u t))

  get_array-keeps :
      (ref : BlobRef) (q p : Placed) (s u : Store C)
      → key_eq (_key q) (_key p) ≡ false
      → get_array vineyard np ext config ref s ≡ (ok q, u)
      → find (_key p) u.resolved_refs ≡ find (_key p) s.resolved_refs
  unfolding get_array _register_resolved
  get_array-keeps ref q p s u other h =
      let (_, (s1, (e1, h1))) =
        bind-eq-ok (lift (if str_eq ref.store kind then ok tt else err blob_store_error)) _ s h in
      let (value, (s2, (e2, h2))) = bind-eq-ok (on_client (vineyard.get ref.object_id)) _ s1 h1 in
      let (found, (s3, (e3, h3))) =
        bind-eq-ok (lift (resolve vineyard np ext config value ref)) _ s2 h2 in
      let refs : Result Placed × Store C → List (ArrayKey × BlobRef) = λ r. r.1.resolved_refs in
      let same : found ≡ q = cc (ap (λ r. r.0) h3) in
      let apart : key_eq (_key found) (_key p) ≡ false = rw same other in
      ap (find (_key p)) (sym (ap refs h3))
      ∙ find-insert_ne (_key p) (_key found) ref s3.resolved_refs apart
      ∙ ap (λ x. find (_key p) x)
          (sym (ap (λ r. r.1.resolved_refs) e3)
            ∙ sym (ap (λ r. r.1.resolved_refs) e2)
            ∙ sym (ap (λ r. r.1.resolved_refs) e1))

  OtherReads-find :
      (p : Placed) (reads : List (BlobRef × Placed)) (s t : Store C)
      → OtherReads p reads s t
      → find (_key p) t.resolved_refs ≡ find (_key p) s.resolved_refs
  OtherReads-find p [] s t h = ap (λ x. find (_key p) x.resolved_refs) (sym h)
  OtherReads-find p ((ref, q) ∷ reads) s t (other, (u, (read, later))) =
      OtherReads-find p reads u t later ∙ get_array-keeps ref q p s u other read

  -- The array that get_array returned for a reference, after any further calls of get_array that returned arrays
  -- of another address, size, dtype or shape: put_array of it returns that reference, and neither calls the client
  -- nor changes what the store resolved.
  pub put_array-get_array :
      (ref : BlobRef) (s s' t : Store C) (p : Placed) (reads : List (BlobRef × Placed))
      → get_array vineyard np ext config ref s ≡ (ok p, s')
      → OtherReads p reads s' t
      → IsPlain p.array.dtype
      → put_array vineyard np ext config (an_array p) t ≡ (ok ref, t)
  unfolding put_array _try_reuse_resolved
  put_array-get_array ref s s' t p reads h later plain =
      let found : find (_key p) t.resolved_refs ≡ some ref =
        OtherReads-find p reads s' t later ∙ get_array-registers ref s s' p h in
      rw (_validate_array-ok p plain, found) refl
