-- ===== src/Vineyard/RoundTrip.antt =====
-- get_array of src/npb/_vineyard.py gives back what put_array stored.
use npb.Prelude.{
  ℕ, ◌+◌, String, ◌≡◌, refl, ap, ◌≢◌, Bool, true, false, none, [], map, arith, str_eq, eq_iff, ltb,
  ◌==◌, ==_iff, pos,
}
use npb.Errors.{ok}
use npb.Value.{NdArray, BlobRef, nbytes}
use npb.Externals.{Externals, IsArray}
use npb.Blob.RoundTrip.{IsBlobRef}
use npb.Vineyard.{
  Placed, Object, an_array, Client, Numpy, Config, _key, Store, find, insert, _try_reuse_resolved,
  _register_resolved, _ref_for_object, put_new, put_array, resolve, view_of, get_array, kind,
  read_only, exceeds, floor_div, is_nat, same_dtype,
}
use npb.Vineyard.Reuse.{_validate_array-ok}

-- An array as the client gives it.
abbrev pub in_memory : ℕ → Bool → NdArray → Placed
in_memory address writeable a = record {
  address = address;
  array = record a { writeable = writeable };
}

-- What the documentation of numpy and vineyard promises.
pub record Documented {C : Type 0} (vineyard : Client C) (np : Numpy) : Type 0 where
  -- ascontiguousarray keeps an array of one dimension at least, in C order
  pub ascontiguous_keeps :
      (p : Placed) → p.array.shape ≢ [] → np.ascontiguous p ≡ record p.array { c_contiguous = true }
  -- reshape to the shape that a contiguous array has is that array
  pub reshape_same :
      (p : Placed) → p.array.c_contiguous ≡ true → np.reshape p (map pos p.array.shape) ≡ ok p
  -- get gives a contiguous array with what was put
  pub get_put :
      (a : NdArray) (persisted : Bool) (c c' : C) (id : String)
      → a.c_contiguous ≡ true
      → vineyard.put a persisted c ≡ (ok id, c')
      → (id ≢ "")
        × ((address : ℕ) × ((writeable : Bool) × ((c'' : C) × (vineyard.get id c'
                  ≡ (ok (an_array (in_memory address writeable a)), c'')))))

abbrev pub stored_form : NdArray → NdArray
stored_form a = record a { c_contiguous = true; writeable = false }

_ref_for_object-IsBlobRef :
    (ext : Externals) (id : String) (a : NdArray)
    → id ≢ ""
    → IsArray ext a
    → IsBlobRef ext (_ref_for_object id a)
unfolding _ref_for_object
_ref_for_object-IsBlobRef ext id a named valid = record {
  at = 0;
  dims = a.shape;
  element = a.dtype;
  store_named = λ p. cc;
  object_named = named;
  offset_eq = refl;
  shape_eq = refl;
  dtype_known = valid.known;
  no_objects = valid.plain.no_objects;
  no_fields = valid.plain.no_fields;
  nbytes_eq = ap pos (omega (arith, valid.filled));
}

module _ {C : Type 0} (vineyard : Client C) (np : Numpy) (ext : Externals) (config : Config)
    (doc : Documented vineyard np) where
  resolve-stored :
      (id : String) (b : NdArray) (address : ℕ) (w : Bool)
      → IsArray ext b
      → let a = record b { c_contiguous = true } in
        resolve vineyard np ext config (an_array (in_memory address w a)) (_ref_for_object id a)
        ≡ ok (read_only (in_memory address w a))
  unfolding resolve view_of _ref_for_object exceeds floor_div is_nat same_dtype
  resolve-stored id b address w valid =
      let a : NdArray = record b { c_contiguous = true } in
      let fits : ltb (nbytes a) (0 + nbytes a) ≡ false = ground arith in
      let sized : (a.dtype.itemsize == 0) ≡ false = ground (arith, valid.plain.sized) in
      let size = (==_iff (nbytes a) (nbytes a)).1 refl in
      let dtype = (eq_iff a.dtype.name a.dtype.name).1 refl in
      let item = (==_iff a.dtype.itemsize a.dtype.itemsize).1 refl in
      rw
        (fits, valid.known, sized, size, dtype, item, doc.reshape_same (in_memory address w a) refl)
        refl

  get_array-found :
      (ref : BlobRef) (s : Store C) (c : C) (value : Object) (q : Placed)
      → str_eq ref.store kind ≡ true
      → vineyard.get ref.object_id s.client ≡ (ok value, c)
      → resolve vineyard np ext config value ref ≡ ok q
      → get_array vineyard np ext config ref s
        ≡ (ok q, record { client = c; resolved_refs = insert (_key q) ref s.resolved_refs })
  unfolding get_array _register_resolved
  get_array-found ref s c value q ours got resolved = rw (ours, got, resolved) refl

  -- An array of one dimension at least that the store has not resolved: where the client's put
  -- succeeds, put_array returns a well-formed reference, and get_array of it returns the array's
  -- bytes in C order with its dtype and shape, read-only.
  pub get_array-put_array :
      (p : Placed) (s : Store C) (c : C) (id : String)
      → IsArray ext p.array
      → p.array.shape ≢ []
      → find (_key p) s.resolved_refs ≡ none
      → vineyard.put (record p.array { c_contiguous = true }) config.persist_on_put s.client
        ≡ (ok id, c)
      → (ref : BlobRef) × ((t : Store C) × ((q : Placed) × ((u : Store C) × ((put_array vineyard np
                    ext config
                    (an_array p)
                    s
                  ≡ (ok ref, t))
                × (IsBlobRef ext ref
                    × ((get_array vineyard np ext config ref t ≡ (ok q, u))
                        × (q.array ≡ stored_form p.array)))))))
  unfolding put_array put_new _try_reuse_resolved _ref_for_object
  get_array-put_array p s c id valid dims fresh put =
      let a : NdArray = record p.array { c_contiguous = true } in
      let valid' : IsArray ext a = record {
        plain = valid.plain;
        known = valid.known;
        filled = valid.filled;
      } in
      let (named, (address, (w, (c', got)))) =
        doc.get_put a config.persist_on_put s.client c id refl put in
      let ref = _ref_for_object id a in
      let q = read_only (in_memory address w a) in
      let t : Store C = record s { client = c } in
      let ours : str_eq ref.store kind ≡ true = (eq_iff kind kind).1 refl in
      (
        ref,
        (
          t,
          (
            q,
            (
              record { client = c'; resolved_refs = insert (_key q) ref s.resolved_refs },
              (
                rw (_validate_array-ok p valid.plain, fresh, doc.ascontiguous_keeps p dims, put)
                    refl,
                (
                  _ref_for_object-IsBlobRef ext id a named valid',
                  (
                    get_array-found ref t c' (an_array (in_memory address w a)) q ours got
                        (resolve-stored id p.array address w valid),
                    refl,
                  ),
                ),
              ),
            ),
          ),
        ),
      )
