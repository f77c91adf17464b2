-- ===== src/Errors.antt =====
-- src/npb/_errors.py and the Python exceptions that the codec raises or catches. Messages are not
-- modelled.
use npb.Prelude.{◌≡◌, refl, Bool, true, false, if◌then◌else◌}

-- `other_error` is an exception of a class that the codec neither raises nor catches.
pub data Exn : Type 0 where
  type_error value_error key_error overflow_error struct_error other_error : Exn
  format_error schema_mismatch_error buffer_too_small_error : Exn
  blob_store_error blob_store_required_error : Exn

-- isinstance(exc, ValueError): FormatError, SchemaMismatchError and BufferTooSmallError derive
-- from it.
unfoldable pub is_value_error : Exn → Bool
is_value_error value_error = true
is_value_error format_error = true
is_value_error schema_mismatch_error = true
is_value_error buffer_too_small_error = true
is_value_error _ = false

-- isinstance(exc, NPBError)
unfoldable pub is_npb_error : Exn → Bool
is_npb_error format_error = true
is_npb_error schema_mismatch_error = true
is_npb_error buffer_too_small_error = true
is_npb_error blob_store_error = true
is_npb_error blob_store_required_error = true
is_npb_error _ = false

unfoldable pub is_type_error : Exn → Bool
is_type_error type_error = true
is_type_error _ = false

unfoldable pub is_key_error : Exn → Bool
is_key_error key_error = true
is_key_error _ = false

-- What a call returns or raises.
pub data Result {ℓ} (A : Type ℓ) : Type ℓ where
  ok : A → Result A
  err : Exn → Result A

-- `if failed: raise exn`
abbrev pub raise_if : (failed : Bool) → Exn → Result (Unit {0})
raise_if false exn = ok tt
raise_if true exn = err exn

module _ {ℓ κ} {A : Type ℓ} {B : Type κ} where
  infixl 5 ◌>>=◌
  -- `y = first(); rest(y)`
  abbrev pub ◌>>=◌ : (first : Result A) (rest : A → Result B) → Result B
  err exn >>= rest = err exn
  ok y >>= rest = rest y

module _ {ℓ} {B : Type ℓ} where
  infixl 5 ◌>>◌
  -- `test(); rest()`
  abbrev pub ◌>>◌ : (test : Result (Unit {0})) (rest : Result B) → Result B
  test >> rest = test >>= λ done. rest

-- `except … as exc: raise e from exc`, for the exceptions that `caught` accepts.
unfoldable pub reraise {ℓ} : {A : Type ℓ} → (Exn → Bool) → Exn → Result A → Result A
reraise caught e (ok a) = ok a
reraise caught e (err x) = if caught x then err e else err x

-- Inversion of a call that returned.
pub >>=-eq-ok {ℓ κ} :
    {B : Type κ} {A : Type ℓ} (call : Result A) (next : A → Result B) {made : B}
    → (call >>= next) ≡ ok made
    → (got : A) × (call ≡ ok got) × (next got ≡ ok made)
>>=-eq-ok (err exn) next returned = cc
>>=-eq-ok (ok got) next returned = (got, refl, returned)
