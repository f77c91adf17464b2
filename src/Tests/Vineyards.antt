-- ===== src/Tests/Vineyards.antt =====
-- A Vineyard client that keeps what it is given in a list, and numpy on C-ordered arrays: Documented of
-- Vineyard/RoundTrip can hold. The theorems on VineyardStore at a small array.
use mathlib.Core.Path.{subst}
use Prim.Native.Char.{nul}
use npb.Prelude.{
  String, ◌≡◌, refl, sym, ap, ◌≢◌, true, List, [], ◌∷◌, arith, str_eq, eq_iff, if◌then◌else◌, pos,
}
use npb.Errors.{Result, ok, err, value_error, blob_store_error}
use npb.Value.{NdArray, BlobRef, product}
use npb.Externals.{IsArray}
use npb.Blob.RoundTrip.{IsBlobRef}
use npb.Vineyard.{
  key_eq, Placed, Object, an_array, Client, Numpy, Config, Store, _key, find, _ref_for_object,
  put_array, get_array, resolve, read_only,
}
use npb.Vineyard.Reuse.{put_array-get_array}
use npb.Vineyard.RoundTrip.{in_memory, Documented, stored_form, get_array-put_array}
use npb.Tests.Documented.{sample_externals}
use npb.Tests.Sample.{pixels}

abbrev Objects : Type 0
Objects = List (String × NdArray)

-- Ids of one character more for each object.
new_id : Objects → String
new_id [] = "o"
new_id ((j, a) ∷ c) = String.◌∷◌ nul j

new_id-≢ : (c : Objects) → new_id c ≢ ""
unfolding new_id
new_id-≢ [] = λ p. cc
new_id-≢ ((j, a) ∷ c) = λ p. cc

-- What is read is at address 5.
get_object : String → Objects → Result Object
get_object id [] = err blob_store_error
get_object id ((j, a) ∷ c) =
    if str_eq j id then ok (an_array (in_memory 5 true a)) else get_object id c

list_client : Client Objects
unfolding new_id get_object
list_client = record {
  put = λ a persisted c. (ok (new_id c), (new_id c, a) ∷ c);
  get = λ id c. (get_object id c, c);
  exists = λ id c. (ok true, c);
  persist = λ id c. (ok tt, c);
  release_object = λ id c. (ok tt, c);
  delete = λ id c. (ok tt, []);
}

sample_numpy : Numpy
sample_numpy = record {
  ascontiguous = λ p. record p.array { c_contiguous = true };
  reshape = λ p shape. ok p;
  from_bytes = λ p d count offset shape. err value_error;
}

sample_numpy-Documented : Documented list_client sample_numpy
unfolding list_client sample_numpy
sample_numpy-Documented = record {
  ascontiguous_keeps = λ p dims. refl;
  reshape_same = λ p contiguous. refl;
  get_put = λ a persisted c c' id contiguous e.
      let named : new_id c ≡ id = cc in
      let stored : (new_id c, a) ∷ c ≡ c' = ap (λ r. r.1) e in
      (
        subst (λ i. i ≢ "") named (new_id-≢ c),
        (5, (true, (c', rw (sym stored, sym named, (eq_iff (new_id c) (new_id c)).1 refl) refl))),
      );
}

abbrev empty_store : Store Objects
empty_store = record { client = []; resolved_refs = [] }

abbrev config : Config
config = record { persist_on_put = true; copy_concurrency = pos 1 }

abbrev three : Placed
three = record { address = 40; array = pixels }

three-IsArray : IsArray sample_externals pixels
unfolding sample_externals product
three-IsArray = record {
  plain = record { no_objects = refl; no_fields = refl; sized = omega arith };
  known = refl;
  filled = refl;
}

get_array-put_array_example :
    (ref : BlobRef) × ((t : Store Objects) × ((q : Placed) × ((u : Store Objects) × ((put_array
                list_client sample_numpy sample_externals config
                (an_array three)
                empty_store
              ≡ (ok ref, t))
            × (IsBlobRef sample_externals ref
                × ((get_array list_client sample_numpy sample_externals config ref t ≡ (ok q, u))
                    × (q.array ≡ stored_form pixels)))))))
unfolding find list_client
get_array-put_array_example =
    get_array-put_array list_client sample_numpy sample_externals config sample_numpy-Documented
      three empty_store ((new_id [], record pixels { c_contiguous = true }) ∷ []) (new_id [])
      three-IsArray (λ p. cc) refl refl

-- The objects "o" and "p", read one after the other.
abbrev five : NdArray
five = record pixels { shape = 5 ∷ []; content = 1 ∷ 2 ∷ 3 ∷ 4 ∷ 5 ∷ [] }

abbrev first_ref : BlobRef
unfolding _ref_for_object
first_ref = _ref_for_object "o" pixels

abbrev second_ref : BlobRef
unfolding _ref_for_object
second_ref = _ref_for_object "p" five

abbrev found : Placed
found = read_only (in_memory 5 true pixels)

abbrev found_next : Placed
found_next = read_only (in_memory 5 true five)

abbrev two_objects : Store Objects
two_objects = record { client = ("o", pixels) ∷ ("p", five) ∷ []; resolved_refs = [] }

abbrev after_read : Store Objects
after_read = record two_objects { resolved_refs = (_key found, first_ref) ∷ [] }

abbrev after_both : Store Objects
after_both = record two_objects {
  resolved_refs = (_key found, first_ref) ∷ (_key found_next, second_ref) ∷ [];
}

put_array-get_array_example :
    put_array list_client sample_numpy sample_externals config (an_array found) after_both
    ≡ (ok first_ref, after_both)
unfolding get_array list_client sample_numpy sample_externals resolve first_ref second_ref key_eq
put_array-get_array_example =
    put_array-get_array list_client sample_numpy sample_externals config first_ref two_objects
      after_read after_both found ((second_ref, found_next) ∷ []) refl
      (refl, (after_both, (refl, refl))) three-IsArray.plain
