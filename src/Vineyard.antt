-- ===== src/Vineyard.antt =====
-- The class VineyardStore of src/npb/_vineyard.py. The Vineyard client is a parameter, and so is
-- what numpy does to an array. An array has an address here, since the store looks at it.
pub mod Reuse
pub mod RoundTrip
use npb.Prelude.{
  ℕ, suc, ◌+◌, ◌/◌, String, Bool, true, false, not, ◌&&◌, ◌||◌, Option, none, some, List, [], ◌∷◌,
  map, str_eq, ltb, ◌==◌, if◌then◌else◌, ℤ, pos, negsuc, pos_part, is_negative, list_eq,
}
use npb.Errors
use npb.Errors.{Result, ok, err, type_error, value_error, blob_store_error, other_error}
use npb.Exec.{Exec, pure, lift, ◌>>=◌, ◌>>◌}
use npb.Value.{Dtype, NdArray, BlobRef, text, nbytes}
use npb.Externals.{Externals}
use npb.Codec.Manifest.{validate_ndarray}

-- An array in memory: array.__array_interface__["data"][0], and the array.
pub record Placed : Type 0 where
  pub address : ℕ
  pub array : NdArray

-- The argument of put_array, and what client.get returns: an ndarray, or anything else.
pub data Object : Type 0 where
  an_array : Placed → Object
  another : Object

-- vineyard's client, on its own state, and vineyard.ObjectID(text) and repr(object_id), here one type
-- of ids: the texts that repr makes.
pub record Client (C : Type 0) : Type 0 where
  pub put : NdArray → Bool → Exec C String
  pub get : String → Exec C Object
  pub exists : String → Exec C Bool
  pub persist : String → Exec C (Unit {0})
  pub release_object : String → Exec C (Unit {0})
  pub delete : String → Exec C (Unit {0})

-- numpy: ascontiguousarray, x.reshape(shape), and frombuffer(x.view(uint8).reshape(-1), dtype=…,
-- count=…, offset=…).reshape(shape)
pub record Numpy : Type 0 where
  pub ascontiguous : Placed → NdArray
  pub reshape : Placed → List ℤ → Result Placed
  pub from_bytes : Placed → Dtype → ℤ → ℤ → List ℤ → Result Placed

pub record Config : Type 0 where
  pub persist_on_put : Bool
  pub copy_concurrency : ℤ

-- VineyardStore.__init__
unfoldable pub configure : (is_ipc : Bool) → Bool → ℤ → Result Config
configure is_ipc persist_on_put copy_concurrency =
    if not is_ipc
    then err value_error
    else if is_negative copy_concurrency || pos_part copy_concurrency == 0
    then err value_error
    else ok (record { persist_on_put = persist_on_put; copy_concurrency = copy_concurrency })

-- What _key makes of an array.
pub record ArrayKey : Type 0 where
  pub address : ℕ
  pub size : ℕ
  pub dtype : String
  pub shape : List ℕ

unfoldable pub key_eq : ArrayKey → ArrayKey → Bool
key_eq k j =
    k.address == j.address && k.size == j.size && str_eq k.dtype j.dtype && list_eq k.shape j.shape

abbrev pub _key : Placed → ArrayKey
_key p = record {
  address = p.address;
  size = nbytes p.array;
  dtype = p.array.dtype.name;
  shape = p.array.shape;
}

pub record Store (C : Type 0) : Type 0 where
  pub client : C
  pub resolved_refs : List (ArrayKey × BlobRef)

abbrev pub kind : String
kind = "vineyard"

unfoldable pub _validate_array : Object → Result Placed
unfolding validate_ndarray
_validate_array another = err type_error
_validate_array (an_array p) = elim (validate_ndarray p.array) [ err e ↦ err e | ok done ↦ ok p ]

unfoldable pub _ref_for_object : String → NdArray → BlobRef
_ref_for_object object_id a = record {
  store = kind;
  object_id = object_id;
  offset = pos 0;
  nbytes = pos (nbytes a);
  dtype = a.dtype.name;
  shape = map pos a.shape;
}

-- self._resolved_refs.get(key)
unfoldable pub find : ArrayKey → List (ArrayKey × BlobRef) → Option BlobRef
unfolding key_eq
find k [] = none
find k ((j, r) ∷ d) = if key_eq j k then some r else find k d

-- self._resolved_refs[key] = ref
unfoldable pub insert : ArrayKey → BlobRef → List (ArrayKey × BlobRef) → List (ArrayKey × BlobRef)
unfolding key_eq
insert k r [] = (k, r) ∷ []
insert k r ((j, q) ∷ d) = if key_eq j k then (k, r) ∷ d else (j, q) ∷ insert k r d

unfoldable pub same_dtype : Dtype → Dtype → Bool
same_dtype d e = str_eq d.name e.name && d.itemsize == e.itemsize

-- ref.offset < 0 or ref.offset + ref.nbytes > raw_nbytes
unfoldable pub exceeds : ℤ → ℤ → ℕ → Bool
exceeds (negsuc n) size raw = true
exceeds (pos n) (pos m) raw = ltb raw (n + m)
exceeds (pos n) (negsuc m) raw = ltb (raw + suc m) n

-- size // n, which rounds down and raises on zero
unfoldable pub floor_div : ℤ → ℕ → Result ℤ
floor_div (pos m) n = if n == 0 then err other_error else ok (pos (m / n))
floor_div (negsuc m) n = if n == 0 then err other_error else ok (negsuc (m / n))

unfoldable pub is_nat : ℤ → ℕ → Bool
is_nat (pos m) n = m == n
is_nat (negsuc m) n = false

-- array.setflags(write=False)
abbrev pub read_only : Placed → Placed
read_only p = record { address = p.address; array = record p.array { writeable = false } }

-- A call of the client.
abbrev pub on_client : {C A : Type 0} → Exec C A → Exec (Store C) A
on_client m s = ((m s.client).0, record s { client = (m s.client).1 })

module _ {C : Type 0} (vineyard : Client C) (np : Numpy) (ext : Externals) (config : Config) where
  unfoldable pub _register_resolved : Placed → BlobRef → Exec (Store C) (Unit {0})
  unfolding insert
  _register_resolved p ref s =
      (ok tt, record s { resolved_refs = insert (_key p) ref s.resolved_refs })

  unfoldable pub _try_reuse_resolved : Placed → Store C → Option BlobRef
  unfolding find
  _try_reuse_resolved p s = find (_key p) s.resolved_refs

  -- put_array where no array of the key was resolved
  unfoldable pub put_new : Placed → Exec (Store C) BlobRef
  unfolding _ref_for_object
  put_new p = do
    let arr = np.ascontiguous p
    object_id ← on_client (vineyard.put arr config.persist_on_put)
    pure (_ref_for_object object_id arr)

  abbrev pub reuse : Placed → Option BlobRef → Exec (Store C) BlobRef
  reuse p (some existing) = pure existing
  reuse p none = put_new p

  unfoldable pub put_array : Object → Exec (Store C) BlobRef
  unfolding _validate_array _try_reuse_resolved put_new
  put_array array = do
    p ← lift (_validate_array array)
    existing ← (λ s. (ok (_try_reuse_resolved p s), s))
    reuse p existing

  -- The array is read as it stands, or through its bytes.
  unfoldable pub view_of : Placed → BlobRef → Dtype → ℤ → Result Placed
  unfolding is_nat same_dtype
  view_of value ref dtype count =
      if is_nat ref.offset 0
        && is_nat ref.nbytes (nbytes value.array)
        && same_dtype value.array.dtype dtype
      then np.reshape value ref.shape
      else np.from_bytes value dtype count ref.offset ref.shape

  -- The tests of get_array on what the client gave, and the view that it makes.
  unfoldable pub resolve : Object → BlobRef → Result Placed
  unfolding exceeds floor_div view_of
  resolve another ref = err blob_store_error
  resolve (an_array value) ref =
      if not value.array.c_contiguous
      then err blob_store_error
      else if exceeds ref.offset ref.nbytes (nbytes value.array)
      then err blob_store_error
      else Errors.◌>>=◌ (ext.dtype_of (text ref.dtype)) λ dtype.
        Errors.◌>>=◌ (floor_div ref.nbytes dtype.itemsize)
          λ count. Errors.◌>>=◌ (view_of value ref dtype count) λ array. ok (read_only array)

  unfoldable pub get_array : BlobRef → Exec (Store C) Placed
  unfolding resolve _register_resolved
  get_array ref = do
    lift (if str_eq ref.store kind then ok tt else err blob_store_error)
    value ← on_client (vineyard.get ref.object_id)
    array ← lift (resolve value ref)
    _register_resolved array ref
    pure array

  unfoldable pub exists : BlobRef → Exec (Store C) Bool
  exists ref = on_client (vineyard.exists ref.object_id)

  unfoldable pub persist : BlobRef → Exec (Store C) (Unit {0})
  persist ref = on_client (vineyard.persist ref.object_id)

  unfoldable pub release : BlobRef → Exec (Store C) (Unit {0})
  release ref = on_client (vineyard.release_object ref.object_id)

  unfoldable pub delete : BlobRef → Exec (Store C) (Unit {0})
  delete ref = on_client (vineyard.delete ref.object_id)
