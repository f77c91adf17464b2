-- ===== src/Mstore/Client/Creation.antt =====
-- The tests of Client.create in mstore/client.py, and the size that it computes. np.dtype is a parameter.
use npb.Prelude.{
  ℕ, suc, ◌-◌, ◌*◌, ◌%◌, ◌^◌, String, Bool, true, false, not, ◌&&◌, ◌||◌, Option, none, some, List,
  [], ◌∷◌, str_eq, ltb, ◌==◌, if◌then◌else◌, ℤ, pos, negsuc, pos_part,
}
use npb.Mstore.Errors
use npb.Mstore.Errors.{Result, ok, err, other_error}
use npb.Mstore.Json.{Json}

-- The arguments of create: `dtype` is what np.dtype makes of one, its text and its item size.
pub record Creation : Type 0 where
  pub size : Option ℤ
  pub shape : Option (List ℤ)
  pub dtype : Option (Result (String × ℕ))
  pub order : String
  pub metadata : Json

-- n <= 0
abbrev pub is_not_positive : ℤ → Bool
is_not_positive (pos n) = n == 0
is_not_positive (negsuc n) = true

unfoldable pub any_not_positive : List ℤ → Bool
any_not_positive [] = false
any_not_positive (z ∷ zs) = is_not_positive z || any_not_positive zs

-- An int64 of these 64 bits.
unfoldable pub int64 : ℕ → ℤ
int64 n =
    let bits = n % 2 ^ 64 in if ltb bits (2 ^ 63) then pos bits else negsuc (2 ^ 64 - bits - 1)

-- np.prod(shape, dtype=np.int64) of positive dimensions: it wraps around, and a dimension that is no
-- int64 raises OverflowError.
unfoldable pub all_int64 : List ℤ → Bool
all_int64 [] = true
all_int64 (z ∷ zs) = ltb (pos_part z) (2 ^ 63) && all_int64 zs

unfoldable pub product_of : List ℤ → ℕ
product_of [] = 1
product_of (z ∷ zs) = pos_part z * product_of zs

-- z * n
unfoldable pub times : ℤ → ℕ → ℤ
times (pos m) n = pos (m * n)
times (negsuc m) n = if n == 0 then pos 0 else negsuc (suc m * n - 1)

unfoldable pub equal : ℤ → ℤ → Bool
equal (pos m) (pos n) = m == n
equal (negsuc m) (negsuc n) = m == n
equal _ _ = false

abbrev pub computed_size : List ℤ → ℕ → ℤ
computed_size shape itemsize = times (int64 (product_of shape)) itemsize

-- size is not None and int(size) != computed
abbrev pub differs : Option ℤ → ℤ → Bool
differs none computed = false
differs (some size) computed = not (equal size computed)

-- The size, the shape and the dtype's text, where a shape and a dtype are given.
abbrev pub described : Option ℤ → List ℤ → Result (String × ℕ) → Result (ℤ × (List ℤ × String))
described size shape (err exc) = err exc
described size shape (ok (name, itemsize)) =
    if not (all_int64 shape)
    then err other_error
    else if differs size (computed_size shape itemsize)
    then err other_error
    else ok (computed_size shape itemsize, (shape, name))

-- What create sends: the size, and the shape with the dtype if there are any.
abbrev pub Request : Type 0
Request = ℤ × Option (List ℤ × String)

abbrev pub with_array :
    Result (ℤ × (List ℤ × String)) → Result (Option ℤ × Option (List ℤ × String))
with_array (ok (size, array)) = ok (some size, some array)
with_array (err exc) = err exc

abbrev pub is_empty : List ℤ → Bool
is_empty [] = true
is_empty (z ∷ zs) = false

unfoldable pub describe_array :
    Option ℤ
    → Option (List ℤ)
    → Option (Result (String × ℕ))
    → Result (Option ℤ × Option (List ℤ × String))
unfolding any_not_positive all_int64 int64 product_of times equal
describe_array size none none = ok (size, none)
describe_array size none (some dtype) = err other_error
describe_array size (some shape) none = err other_error
describe_array size (some shape) (some dtype) =
    if is_empty shape || any_not_positive shape
    then err other_error
    else with_array (described size shape dtype)

abbrev pub sized : String → Option ℤ × Option (List ℤ × String) → Result Request
sized order (none, array) = err other_error
sized order (some size, array) =
    if is_not_positive size
    then err other_error
    else if str_eq order "C" || str_eq order "F"
    then ok (size, array)
    else err other_error

-- The tests of create, in their order.
unfoldable pub check_creation : Creation → Result Request
unfolding describe_array
check_creation args =
    Errors.◌>>=◌ (describe_array args.size args.shape args.dtype) (sized args.order)
