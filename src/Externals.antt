-- ===== src/Externals.antt =====
-- What the source calls and does not implement: numpy, pydantic, and the conversions of Python that
-- the codec applies to values of types other than those it writes. Each is a parameter of the model.
use npb.Prelude.{
  ℕ, ◌+◌, ◌*◌, ◌/◌, ◌%◌, ◌^◌, ◌≤◌, ◌<◌, String, ◌≡◌, Bool, true, false, not, Option, none, List, [],
  ◌∷◌, ◌==◌, length, ℤ, pos, slice,
}
use npb.Errors.{Result, ok, ◌>>=◌}
use npb.Value.{
  Value, Scalar, Items, Fields, Dtype, NdArray, leaf, list, tuple, dict, int, bool, str, opaque,
  nbytes, product, to_list, keys, float, ndarray, blob_ref, nil, cons, end, field, get, text,
}

pub record Externals : Type 0 where
  -- int(x), str(x) and iter(x) at the other types of x
  pub int_other : Value → Result ℤ
  pub str_other : Value → Result String
  pub iter_other : Value → Result (List Value)
  -- np.dtype(x)
  pub dtype_of : Value → Result Dtype
  -- np.frombuffer(binary, dtype=…, count=…, offset=…).reshape(shape)
  pub from_buffer : NdArray → Dtype → ℕ → ℕ → List ℕ → Result NdArray
  -- np.empty(n, dtype=np.uint8): n bytes that are not set
  pub empty : ℕ → List ℕ
  -- x.item() where `opaque x` is a numpy scalar, `none` where it is no np.generic
  pub item : ℕ → Option Value
  -- pydantic_core: to_json(tree, fallback=…) and from_json(data)
  pub to_json : (Value → Result Value) → Value → Result (List ℕ)
  pub from_json : List ℕ → Result Value

module _ (ext : Externals) where
  -- int(v)
  unfoldable pub to_int : Value → Result ℤ
  to_int (leaf (int z)) = ok z
  to_int (leaf (bool true)) = ok (pos 1)
  to_int (leaf (bool false)) = ok (pos 0)
  to_int v = ext.int_other v

  -- str(v)
  unfoldable pub to_str : Value → Result String
  to_str (leaf (str s)) = ok s
  to_str v = ext.str_other v

  -- list(v)
  unfoldable pub iterate : Value → Result (List Value)
  iterate (list xs) = ok (to_list xs)
  iterate (tuple xs) = ok (to_list xs)
  iterate (dict fs) = ok (to_list (keys fs))
  iterate v = ext.iter_other v

  -- [int(dim) for dim in vs]
  unfoldable pub to_ints : List Value → Result (List ℤ)
  to_ints [] = ok []
  to_ints (v ∷ vs) = do n ← to_int v; ns ← to_ints vs; ok (n ∷ ns)

-- A dtype that raw bytes can carry.
pub record IsPlain (d : Dtype) : Type 0 where
  pub no_objects : d.hasobject ≡ false
  pub no_fields : d.structured ≡ false
  pub sized : 0 < d.itemsize

-- An array of a dtype that its own `str` names, whose bytes are those of its elements.
pub record IsArray (ext : Externals) (a : NdArray) : Type 0 where
  pub plain : IsPlain a.dtype
  pub known : ext.dtype_of (text a.dtype.name) ≡ ok a.dtype
  pub filled : nbytes a ≡ product a.shape * a.dtype.itemsize

-- The JSON values that come back as they were written: finite floats, no Python objects, each key once.
abbrev pub is_finite : ℕ → Bool
is_finite bits = not (bits / 2 ^ 52 % 2 ^ 11 == 2047)

abbrev pub IsJsonScalar : Scalar → Type 0
IsJsonScalar (float bits) = is_finite bits ≡ true
IsJsonScalar (opaque n) = ⊥
IsJsonScalar _ = Unit

unfoldable mutual
  pub IsJson : Value → Type 0
  IsJson (leaf s) = IsJsonScalar s
  IsJson (ndarray a) = ⊥
  IsJson (blob_ref r) = ⊥
  IsJson (list xs) = AllJson xs
  IsJson (tuple xs) = ⊥
  IsJson (dict fs) = AllFieldsJson fs

  pub AllJson : Items → Type 0
  AllJson nil = Unit
  AllJson (cons v xs) = IsJson v × AllJson xs

  pub AllFieldsJson : Fields → Type 0
  AllFieldsJson end = Unit
  AllFieldsJson (field k v fs) = (get k fs ≡ none) × IsJson v × AllFieldsJson fs

-- What the documentation of numpy and pydantic promises of these calls.
pub record Documented (ext : Externals) (fallback : Value → Result Value) : Type 0 where
  -- frombuffer is a view of the bytes from `offset` on, writable if the buffer is
  pub from_buffer_view :
      (b : NdArray) (d : Dtype) (count offset : ℕ) (shape : List ℕ)
      → IsPlain d
      → product shape ≡ count
      → offset + count * d.itemsize ≤ nbytes b
      → ext.from_buffer b d count offset shape
        ≡ ok (record {
          dtype = d;
          shape = shape;
          c_contiguous = true;
          writeable = b.writeable;
          content = slice b.content offset (count * d.itemsize);
        })
  pub empty_length : (n : ℕ) → length (ext.empty n) ≡ n
  -- JSON reads back what it wrote
  pub json_round_trip :
      (v : Value)
      → IsJson v
      → (bs : List ℕ) × (ext.to_json fallback v ≡ ok bs) × (ext.from_json bs ≡ ok v)
