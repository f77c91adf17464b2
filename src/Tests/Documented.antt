-- ===== src/Tests/Documented.antt =====
-- Concrete functions for numpy and pydantic that do what Documented asks: the promises can be kept.
-- The text is a program for a stack machine, two numbers for each instruction.
use Prim.Native.Char.{code}
use npb.Prelude.{
  ℕ, zero, suc, ◌*◌, String, ◌≡◌, refl, ap, ◌∙◌, Bool, true, false, none, List, [], ◌∷◌, str_eq,
  ◌==◌, if◌then◌else◌, replicate, length-replicate, pos, negsuc, slice,
}
use npb.Errors.{Result, ok, err, type_error, value_error}
use npb.Value.{
  Value, Items, Fields, Scalar, Dtype, leaf, ndarray, blob_ref, list, tuple, dict, nil, cons, end,
  field, null, bool, int, float, str, opaque,
}
use npb.Externals.{Externals, Documented, IsJson, AllJson, AllFieldsJson}
use npb.Tests.Chars.{of_code, of_code-code}

pub data Cell : Type 0 where
  val : Value → Cell
  items : Items → Cell
  fields : Fields → Cell
  word : String → Cell

abbrev pub Stack : Type 0
Stack = List Cell

abbrev bit : ℕ → Bool
bit zero = false
bit (suc n) = true

push_char : ℕ → Stack → Stack
unfolding of_code
push_char p (word s ∷ st) = word (String.◌∷◌ (of_code p) s) ∷ st
push_char p st = st

end_text : Stack → Stack
end_text (word s ∷ st) = val (leaf (str s)) ∷ st
end_text st = st

push_item : Stack → Stack
push_item (items xs ∷ val v ∷ st) = items (cons v xs) ∷ st
push_item st = st

end_list : Stack → Stack
end_list (items xs ∷ st) = val (list xs) ∷ st
end_list st = st

push_field : Stack → Stack
push_field (word k ∷ fields fs ∷ val v ∷ st) = fields (field k v fs) ∷ st
push_field st = st

end_dict : Stack → Stack
end_dict (fields fs ∷ st) = val (dict fs) ∷ st
end_dict st = st

-- The instructions: the scalars, the texts, the lists and the dicts.
step : ℕ → ℕ → Stack → Stack
unfolding push_char end_text push_item end_list push_field end_dict
step op p st =
    if op == 0
    then val (leaf null) ∷ st
    else if op == 1
    then val (leaf (bool (p == 1))) ∷ st
    else if op == 2
    then val (leaf (int (pos p))) ∷ st
    else if op == 3
    then val (leaf (int (negsuc p))) ∷ st
    else if op == 4
    then val (leaf (float p)) ∷ st
    else if op == 5
    then word "" ∷ st
    else if op == 6
    then push_char p st
    else if op == 7
    then end_text st
    else if op == 8
    then items nil ∷ st
    else if op == 9
    then push_item st
    else if op == 10
    then end_list st
    else if op == 11
    then fields end ∷ st
    else if op == 12
    then push_field st
    else end_dict st

run : List ℕ → Stack → Stack
unfolding step
run [] st = st
run (op ∷ []) st = st
run (op ∷ p ∷ rest) st = run rest (step op p st)

unfoldable pub write_text : String → List ℕ → List ℕ
write_text String.[] rest = 5 ∷ 0 ∷ rest
write_text (String.◌∷◌ c s) rest = write_text s (6 ∷ code c ∷ rest)

write_bool : Bool → ℕ
write_bool true = 1
write_bool false = 0

unfoldable pub write_scalar : Scalar → List ℕ → List ℕ
unfolding write_text write_bool
write_scalar null rest = 0 ∷ 0 ∷ rest
write_scalar (bool b) rest = 1 ∷ write_bool b ∷ rest
write_scalar (int (pos n)) rest = 2 ∷ n ∷ rest
write_scalar (int (negsuc n)) rest = 3 ∷ n ∷ rest
write_scalar (float bits) rest = 4 ∷ bits ∷ rest
write_scalar (str s) rest = write_text s (7 ∷ 0 ∷ rest)
write_scalar (opaque n) rest = rest

-- The program that leaves a value on the stack, before the program `rest`.
unfoldable mutual
  unfolding write_scalar

  pub write : Value → List ℕ → List ℕ
  write (leaf s) rest = write_scalar s rest
  write (ndarray a) rest = rest
  write (blob_ref r) rest = rest
  write (list xs) rest = write_items xs (10 ∷ 0 ∷ rest)
  write (tuple xs) rest = rest
  write (dict fs) rest = write_fields fs (13 ∷ 0 ∷ rest)

  pub write_items : Items → List ℕ → List ℕ
  write_items nil rest = 8 ∷ 0 ∷ rest
  write_items (cons v xs) rest = write v (write_items xs (9 ∷ 0 ∷ rest))

  pub write_fields : Fields → List ℕ → List ℕ
  write_fields end rest = 11 ∷ 0 ∷ rest
  write_fields (field k v fs) rest = write v (write_fields fs (write_text k (12 ∷ 0 ∷ rest)))

run-write_text :
    (s : String) (rest : List ℕ) (st : Stack) → run (write_text s rest) st ≡ run rest (word s ∷ st)
unfolding run write_text
run-write_text String.[] rest st = refl
run-write_text (String.◌∷◌ c s) rest st =
    run-write_text s (6 ∷ code c ∷ rest) st
    ∙ ap (λ t. run rest (word (String.◌∷◌ t s) ∷ st)) (of_code-code c)

run-write_scalar :
    (v : Scalar) (rest : List ℕ) (st : Stack)
    → IsJson (leaf v)
    → run (write_scalar v rest) st ≡ run rest (val (leaf v) ∷ st)
unfolding run write_scalar IsJson
run-write_scalar null rest st h = refl
run-write_scalar (bool true) rest st h = refl
run-write_scalar (bool false) rest st h = refl
run-write_scalar (int (pos n)) rest st h = refl
run-write_scalar (int (negsuc n)) rest st h = refl
run-write_scalar (float bits) rest st h = refl
run-write_scalar (str s) rest st h = run-write_text s (7 ∷ 0 ∷ rest) st
run-write_scalar (opaque n) rest st h = absurd h

mutual
  unfolding run write IsJson

  run-write :
      (v : Value) (rest : List ℕ) (st : Stack)
      → IsJson v
      → run (write v rest) st ≡ run rest (val v ∷ st)
  run-write (leaf s) rest st h = run-write_scalar s rest st h
  run-write (ndarray a) rest st h = absurd h
  run-write (blob_ref r) rest st h = absurd h
  run-write (list xs) rest st h = run-write_items xs (10 ∷ 0 ∷ rest) st h
  run-write (tuple xs) rest st h = absurd h
  run-write (dict fs) rest st h = run-write_fields fs (13 ∷ 0 ∷ rest) st h

  run-write_items :
      (xs : Items) (rest : List ℕ) (st : Stack)
      → AllJson xs
      → run (write_items xs rest) st ≡ run rest (items xs ∷ st)
  run-write_items nil rest st h = refl
  run-write_items (cons v xs) rest st (hv, hs) =
      run-write v (write_items xs (9 ∷ 0 ∷ rest)) st hv
      ∙ run-write_items xs (9 ∷ 0 ∷ rest) (val v ∷ st) hs

  run-write_fields :
      (fs : Fields) (rest : List ℕ) (st : Stack)
      → AllFieldsJson fs
      → run (write_fields fs rest) st ≡ run rest (fields fs ∷ st)
  run-write_fields end rest st h = refl
  run-write_fields (field k v fs) rest st (fresh, hv, hs) =
      let after = write_text k (12 ∷ 0 ∷ rest) in
      run-write v (write_fields fs after) st hv
      ∙ run-write_fields fs after (val v ∷ st) hs
      ∙ run-write_text k (12 ∷ 0 ∷ rest) (fields fs ∷ val v ∷ st)

top : Stack → Result Value
top (val v ∷ st) = ok v
top st = err value_error

-- A dtype's text is its item size in code points.

abbrev pub uint8 : Dtype
uint8 = record { name = "|u1"; itemsize = 1; hasobject = false; structured = false }

dtype_named : Value → Result Dtype
dtype_named (leaf (str s)) = if str_eq s "|u1" then ok uint8 else err type_error
dtype_named v = err type_error

unfoldable pub sample_externals : Externals
unfolding dtype_named write run top
sample_externals = record {
  int_other = λ v. err type_error;
  str_other = λ v. err type_error;
  iter_other = λ v. err type_error;
  dtype_of = dtype_named;
  from_buffer = λ b d count offset shape. ok (record {
    dtype = d;
    shape = shape;
    c_contiguous = true;
    writeable = b.writeable;
    content = slice b.content offset (count * d.itemsize);
  });
  empty = λ n. replicate n 7;
  item = λ n. none;
  to_json = λ fallback v. ok (write v []);
  from_json = λ bs. top (run bs []);
}

pub sample_externals-Documented :
    (fallback : Value → Result Value) → Documented sample_externals fallback
unfolding sample_externals top
sample_externals-Documented fallback = record {
  from_buffer_view = λ b d count offset shape plain items room. refl;
  empty_length = λ n. length-replicate n 7;
  json_round_trip = λ v h. (write v [], refl, ap top (run-write v [] [] h));
}
