-- ===== src/Value.antt =====
-- The Python values that the codec walks: what pydantic's model_dump returns and what from_json
-- reads. A float is its 64-bit pattern; `opaque` is any other object (a datetime, a NumPy scalar).
pub mod Dicts
use npb.Prelude.{
  ℕ, ◌*◌, String, Bool, Option, none, some, List, [], ◌∷◌, str_eq, if◌then◌else◌, length, ℤ, pos,
}

-- What the source reads of a numpy dtype. `name` is `dtype.str`.
pub record Dtype : Type 0 where
  pub name : String
  pub itemsize : ℕ
  pub hasobject : Bool
  pub structured : Bool

-- What the source reads of a numpy.ndarray. `content` holds its elements' bytes in C order,
-- whatever its strides are.
pub record NdArray : Type 0 where
  pub dtype : Dtype
  pub shape : List ℕ
  pub c_contiguous : Bool
  pub writeable : Bool
  pub content : List ℕ

unfoldable pub product : List ℕ → ℕ
product [] = 1
product (n ∷ ns) = n * product ns

abbrev pub nbytes : NdArray → ℕ
nbytes a = length a.content

abbrev pub ndim : NdArray → ℕ
ndim a = length a.shape

-- src/npb/_blob.py, class BlobRef
pub record BlobRef : Type 0 where
  pub store : String
  pub object_id : String
  pub offset : ℤ
  pub nbytes : ℤ
  pub dtype : String
  pub shape : List ℤ

pub data Scalar : Type 0 where
  null : Scalar
  bool : Bool → Scalar
  int : ℤ → Scalar
  float : ℕ → Scalar
  str : String → Scalar
  opaque : ℕ → Scalar

mutual
  pub data Value : Type 0 where
    leaf : Scalar → Value
    ndarray : NdArray → Value
    blob_ref : BlobRef → Value
    list : Items → Value
    tuple : Items → Value
    dict : Fields → Value

  pub data Items : Type 0 where
    nil : Items
    cons : Value → Items → Items

  -- A dict in insertion order. Python keeps each key once.
  pub data Fields : Type 0 where
    end : Fields
    field : String → Value → Fields → Fields

abbrev pub text : String → Value
text s = leaf (str s)

abbrev pub number : ℕ → Value
number n = leaf (int (pos n))

-- d.get(k)
unfoldable pub get : String → Fields → Option Value
get k end = none
get k (field j v fs) = if str_eq j k then some v else get k fs

-- d[k] = v
unfoldable pub set_item : String → Value → Fields → Fields
set_item k v end = field k v end
set_item k v (field j w fs) = if str_eq j k then field j v fs else field j w (set_item k v fs)

-- d[k] where `set(d) == {k}`
unfoldable pub only_key : String → Fields → Option Value
only_key k (field j v end) = if str_eq j k then some v else none
only_key k _ = none

unfoldable pub to_list : Items → List Value
to_list nil = []
to_list (cons v xs) = v ∷ to_list xs

unfoldable pub of_ints : List ℤ → Items
of_ints [] = nil
of_ints (z ∷ zs) = cons (leaf (int z)) (of_ints zs)

unfoldable pub keys : Fields → Items
keys end = nil
keys (field k v fs) = cons (text k) (keys fs)
