-- ===== src/Schema/Identity.antt =====
-- binary_schema and schema_identity of src/npb/_schema.py agree.
use npb.Prelude.{ℕ, String, ◌≡◌, refl, inl, inr, false, List, if◌then◌else◌, Bool-cases, pos}
use npb.Errors.{Result, ok, err, ◌>>=◌, type_error}
use npb.Value.{leaf, str, int}
use npb.Schema.{
  ModelClass, codes, strip, is_empty, binary_schema, check_name, check_version, decorate,
  schema_identity, identity_of,
}

-- With a name that is not blank and a version that is not negative, binary_schema returns a decorator;
-- on a pydantic class it returns a class whose schema_identity is the uuid5 of the name without the
-- spaces around it, and the version; on any other class it raises.
pub schema_identity-binary_schema :
    (uuid5 : List ℕ → List ℕ) (name : String) (version : ℕ)
    → is_empty (strip (codes name)) ≡ false
    → (decorator : ModelClass → Result ModelClass) × ((binary_schema uuid5
            (leaf (str name))
            (leaf (int (pos version)))
          ≡ ok decorator)
        × ((model_type : ModelClass)
            → (decorator model_type >>= schema_identity) ≡ (
                if model_type.is_base_model
                then ok (uuid5 (strip (codes name)), version)
                else err type_error)))
unfolding binary_schema check_name check_version decorate schema_identity identity_of
schema_identity-binary_schema uuid5 name version named = (
  decorate (strip (codes name)) (uuid5 (strip (codes name))) version,
  (
    rw named refl,
    λ model_type. elim (Bool-cases model_type.is_base_model) [
      | inl e ↦ rw e refl
      | inr e ↦ rw e refl
    ],
  ),
)
