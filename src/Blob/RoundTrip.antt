-- ===== src/Blob/RoundTrip.antt =====
-- A reference of src/npb/_blob.py and its manifest.
use mathlib.Core.Path.{subst}
use npb.Prelude.{
  ℕ, ◌*◌, ◌≡◌, refl, ap, ◌≢◌, true, false, List, [], ◌∷◌, map, arith, str_eq, eq_iff, ℤ, pos,
  negsuc, pos_part, is_negative,
}
use npb.Errors.{ok, reraise, >>=-eq-ok}
use npb.Value.{Value, BlobRef, Dtype, dict, text, get, of_ints, to_list, product}
use npb.Externals.{Externals, to_int, to_str, iterate, to_ints}
use npb.Blob.{
  to_manifest, manifest_fields, from_manifest, read_ref, check_ref, item_at, any_negative, equal_ℤ,
}

-- A reference that names its store and its object, at a place, of a known plain dtype, whose size is
-- that of its shape.
pub record IsBlobRef (ext : Externals) (r : BlobRef) : Type 0 where
  pub at : ℕ
  pub dims : List ℕ
  pub element : Dtype
  pub store_named : r.store ≢ ""
  pub object_named : r.object_id ≢ ""
  pub offset_eq : r.offset ≡ pos at
  pub shape_eq : r.shape ≡ map pos dims
  pub dtype_known : ext.dtype_of (text r.dtype) ≡ ok element
  pub no_objects : element.hasobject ≡ false
  pub no_fields : element.structured ≡ false
  pub nbytes_eq : r.nbytes ≡ pos (element.itemsize * product dims)

pub to_ints-of_ints : (ext : Externals) (zs : List ℤ) → to_ints ext (to_list (of_ints zs)) ≡ ok zs
unfolding to_ints to_int to_list of_ints
to_ints-of_ints ext [] = refl
to_ints-of_ints ext (z ∷ zs) = rw (to_ints-of_ints ext zs)

pub pos_part-pos : (ns : List ℕ) → map pos_part (map pos ns) ≡ ns
pos_part-pos [] = refl
pos_part-pos (n ∷ ns) = ap (λ t. n ∷ t) (pos_part-pos ns)

pub any_negative-pos : (ns : List ℕ) → any_negative (map pos ns) ≡ false
unfolding any_negative
any_negative-pos [] = refl
any_negative-pos (n ∷ ns) = any_negative-pos ns

all_pos : (zs : List ℤ) → any_negative zs ≡ false → zs ≡ map pos (map pos_part zs)
unfolding any_negative
all_pos [] h = refl
all_pos (pos n ∷ zs) h = ap (λ t. pos n ∷ t) (all_pos zs h)
all_pos (negsuc n ∷ zs) h = cc

pub read_ref-manifest_fields :
    (ext : Externals) (r : BlobRef) → read_ref ext (manifest_fields r) ≡ ok r
unfolding manifest_fields read_ref item_at get to_str to_int iterate
read_ref-manifest_fields ext r = rw (to_ints-of_ints ext r.shape)

check_ref-ok : (ext : Externals) (r : BlobRef) → IsBlobRef ext r → check_ref ext r ≡ ok r
unfolding check_ref equal_ℤ
check_ref-ok ext r v =
    ground (
      arith,
      eq_iff r.store "",
      eq_iff r.object_id "",
      any_negative-pos v.dims,
      pos_part-pos v.dims,
    )

-- A well-formed reference is read back from its manifest as it was.
pub from_manifest-to_manifest :
    (ext : Externals) (r : BlobRef) → IsBlobRef ext r → from_manifest ext (to_manifest r) ≡ ok r
unfolding from_manifest reraise
from_manifest-to_manifest ext r v = rw (read_ref-manifest_fields ext r) (check_ref-ok ext r v)

-- The tests that a checked reference has passed.
check_ref_passed :
    (ext : Externals) (s r : BlobRef)
    → check_ref ext s ≡ ok r
    → (d : Dtype) × (ext.dtype_of (text s.dtype) ≡ ok d)
      × (s ≡ r)
      × (str_eq s.store "" ≡ false)
      × (str_eq s.object_id "" ≡ false)
      × (is_negative s.offset ≡ false)
      × (any_negative s.shape ≡ false)
      × (d.hasobject ≡ false)
      × (d.structured ≡ false)
      × (equal_ℤ (d.itemsize * product (map pos_part s.shape)) s.nbytes ≡ true)
unfolding check_ref
check_ref_passed ext s r e = ground arith

pos-pos_part : (z : ℤ) → is_negative z ≡ false → z ≡ pos (pos_part z)
pos-pos_part (pos n) h = refl
pos-pos_part (negsuc n) h = cc

equal_ℤ-eq : (n : ℕ) (z : ℤ) → equal_ℤ n z ≡ true → z ≡ pos n
unfolding equal_ℤ
equal_ℤ-eq n (pos m) h = ground arith
equal_ℤ-eq n (negsuc m) h = cc

check_ref-IsBlobRef :
    (ext : Externals) (s : BlobRef) {r : BlobRef}
    → check_ref ext s ≡ ok r
    → IsBlobRef ext s × (s ≡ r)
check_ref-IsBlobRef ext s {r} e =
    let (d, known, same, store, object, offset, shape, objects, fields, size) =
      check_ref_passed ext s r e in
    (
      record {
        at = pos_part s.offset;
        dims = map pos_part s.shape;
        element = d;
        store_named = λ p. cc ((eq_iff s.store "").1 p, store);
        object_named = λ p. cc ((eq_iff s.object_id "").1 p, object);
        offset_eq = pos-pos_part s.offset offset;
        shape_eq = all_pos s.shape shape;
        dtype_known = known;
        no_objects = objects;
        no_fields = fields;
        nbytes_eq = equal_ℤ-eq _ s.nbytes size;
      },
      same,
    )

-- Whatever from_manifest reads from untrusted data is a well-formed reference.
pub from_manifest-IsBlobRef :
    (ext : Externals) (v : Value) (r : BlobRef) → from_manifest ext v ≡ ok r → IsBlobRef ext r
unfolding from_manifest
from_manifest-IsBlobRef ext (dict fs) r e =
    let (s, _, checked) = >>=-eq-ok _ (check_ref ext) e in
    let (valid, same) = check_ref-IsBlobRef ext s checked in subst (IsBlobRef ext) same valid
from_manifest-IsBlobRef ext v r e = cc
