-- ===== src/Schema.antt =====
-- src/npb/_schema.py: the schema identity of a model class.
pub mod Identity
use Prim.Native.Char.{code}
use mathlib.Core.List.{reverse}
use npb.Prelude.{
  ℕ, String, Bool, true, false, not, ◌&&◌, ◌||◌, Option, some, List, [], ◌∷◌, leb, ◌==◌,
  if◌then◌else◌, ℤ, pos,
}
use npb.Errors.{Result, ok, err, ◌>>=◌, ◌>>◌, type_error, value_error}
use npb.Value.{Value, leaf, str, int}

-- The attributes of a class that the source reads and sets. An attribute that is missing, or whose
-- value is not of its type, is `none`. A UUID is its 16 bytes, a name its code points.
pub record ModelClass : Type 0 where
  pub is_base_model : Bool
  pub schema_name : Option (List ℕ)
  pub schema_id : Option (List ℕ)
  pub schema_version : Option ℤ

unfoldable pub codes : String → List ℕ
codes String.[] = []
codes (String.◌∷◌ c s) = code c ∷ codes s

unfoldable pub between : ℕ → ℕ → ℕ → Bool
between lo hi c = leb lo c && leb c hi

-- str.isspace of one character
unfoldable pub is_space : ℕ → Bool
unfolding between
is_space c =
    between 9 13 c
    || between 28 32 c
    || c == 0x85
    || c == 0xa0
    || c == 0x1680
    || between 0x2000 0x200a c
    || between 0x2028 0x2029 c
    || c == 0x202f
    || c == 0x205f
    || c == 0x3000

-- str.lstrip() and str.strip()
unfoldable pub lstrip : List ℕ → List ℕ
lstrip [] = []
lstrip (c ∷ cs) = if is_space c then lstrip cs else c ∷ cs

unfoldable pub strip : List ℕ → List ℕ
unfolding lstrip
strip cs = reverse (lstrip (reverse (lstrip cs)))

unfoldable pub is_empty : List ℕ → Bool
is_empty [] = true
is_empty (c ∷ cs) = false

-- `decorate` of binary_schema
unfoldable pub decorate : List ℕ → List ℕ → ℕ → ModelClass → Result ModelClass
decorate normalized_name schema_id version model_type =
    if not model_type.is_base_model
    then err type_error
    else ok (record model_type {
      schema_name = some normalized_name;
      schema_id = some schema_id;
      schema_version = some (pos version);
    })

-- The test of `version`: an int that is no bool and is not negative.
unfoldable pub check_version : Value → Result ℕ
check_version (leaf (int (pos n))) = ok n
check_version v = err value_error

unfoldable pub check_name : Value → Result (List ℕ)
check_name (leaf (str s)) = if is_empty (strip (codes s)) then err value_error else ok (codes s)
check_name v = err value_error

-- `uuid5` is uuid.uuid5(_SCHEMA_NAMESPACE, name).
unfoldable pub binary_schema :
    (List ℕ → List ℕ) → Value → Value → Result (ModelClass → Result ModelClass)
unfolding decorate
binary_schema uuid5 name version = do
  cs ← check_name name
  n ← check_version version
  let normalized_name = strip cs
  ok (decorate normalized_name (uuid5 normalized_name) n)

unfoldable pub identity_of : Option (List ℕ) → Option ℤ → Result (List ℕ × ℕ)
identity_of (some schema_id) (some (pos version)) = ok (schema_id, version)
identity_of _ _ = err type_error

unfoldable pub schema_identity : ModelClass → Result (List ℕ × ℕ)
unfolding identity_of
schema_identity model_type = identity_of model_type.schema_id model_type.schema_version
