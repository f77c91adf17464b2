-- ===== src/Mstore/Errors.antt =====
-- mstore/errors.py, and the codes that mstore/server.py sends for its exceptions. Messages are not
-- modelled.
use npb.Prelude.{
  String, ◌≡◌, refl, ◌⊎◌, inl, inr, Bool, true, false, Option, none, some, str_eq, if◌then◌else◌,
}

-- `eof_error` is EOFError, `os_error` OSError or ConnectionError, which derives from it, and `other_error` any
-- other exception that is no MStoreError.
pub data Exn : Type 0 where
  mstore_error protocol_error authentication_error permission_denied object_not_found : Exn
  token_expired token_revoked invalid_request eof_error os_error other_error : Exn

pub data Result {ℓ} (A : Type ℓ) : Type ℓ where
  ok : A → Result A
  err : Exn → Result A

-- `if failed: raise exn`
abbrev pub raise_if : (failed : Bool) → Exn → Result (Unit {0})
raise_if false exn = ok tt
raise_if true exn = err exn

module _ {ℓ κ} {A : Type ℓ} {B : Type κ} where
  infixl 5 ◌>>=◌
  -- `y = first(); rest(y)`
  abbrev pub ◌>>=◌ : (first : Result A) (rest : A → Result B) → Result B
  err exn >>= rest = err exn
  ok y >>= rest = rest y

module _ {ℓ} {B : Type ℓ} where
  infixl 5 ◌>>◌
  -- `test(); rest()`
  abbrev pub ◌>>◌ : (test : Result (Unit {0})) (rest : Result B) → Result B
  test >> rest = test >>= λ done. rest

-- `x = …; if x is None: raise e`
abbrev pub or_raise {ℓ} : {A : Type ℓ} → Option A → Exn → Result A
or_raise (some a) e = ok a
or_raise none e = err e

pub Result-cases {ℓ} :
    {A : Type ℓ} (r : Result A) → ((e : Exn) × (r ≡ err e)) ⊎ ((a : A) × (r ≡ ok a))
Result-cases (ok a) = inr (a, refl)
Result-cases (err e) = inl (e, refl)

-- What a chain of steps has passed when it returns.
pub >>=-eq-ok {ℓ κ} :
    {B : Type κ} {A : Type ℓ} (call : Result A) {next : A → Result B} {made : B}
    → (call >>= next) ≡ ok made
    → (got : A) × ((call ≡ ok got) × (next got ≡ ok made))
>>=-eq-ok (err exn) returned = cc
>>=-eq-ok (ok got) returned = (got, (refl, returned))

pub raise_if-eq-ok {ℓ} :
    {B : Type ℓ} (failed : Bool) (e : Exn) {k : Result B} {b : B}
    → (raise_if failed e >> k) ≡ ok b
    → (failed ≡ false) × (k ≡ ok b)
raise_if-eq-ok true e h = cc
raise_if-eq-ok false e h = (refl, h)

pub or_raise-eq-ok {ℓ} :
    {A : Type ℓ} (o : Option A) (e : Exn) {a : A} → or_raise o e ≡ ok a → o ≡ some a
or_raise-eq-ok (some a) e h = cc
or_raise-eq-ok none e h = cc

-- The type that _error_payload sends: ERROR_CODES of mstore/server.py.
unfoldable pub error_code : Exn → String
error_code authentication_error = "authentication_error"
error_code permission_denied = "permission_denied"
error_code object_not_found = "object_not_found"
error_code token_expired = "token_expired"
error_code token_revoked = "token_revoked"
error_code invalid_request = "invalid_request"
error_code protocol_error = "protocol_error"
error_code _ = "internal_error"

-- The exception that the client raises for a type: ERROR_TYPES of mstore/errors.py.
unfoldable pub error_of : String → Exn
error_of s =
    if str_eq s "authentication_error"
    then authentication_error
    else if str_eq s "permission_denied"
    then permission_denied
    else if str_eq s "object_not_found"
    then object_not_found
    else if str_eq s "token_expired"
    then token_expired
    else if str_eq s "token_revoked"
    then token_revoked
    else if str_eq s "invalid_request"
    then invalid_request
    else if str_eq s "protocol_error"
    then protocol_error
    else mstore_error

-- The exceptions with a code of their own.
abbrev pub has_code : Exn → Bool
has_code mstore_error = false
has_code eof_error = false
has_code os_error = false
has_code other_error = false
has_code _ = true

-- An exception with a code of its own reaches the client as itself, and any other as an MStoreError.
pub error_of-error_code :
    (e : Exn) → error_of (error_code e) ≡ (if has_code e then e else mstore_error)
unfolding error_of error_code
error_of-error_code mstore_error = refl
error_of-error_code _ = refl
