-- ===== src/Tests/Schemas.antt =====
-- A schema of a padded name.
use npb.Prelude.{◌≡◌, refl, if◌then◌else◌, pos}
use npb.Errors.{Result, ok, err, ◌>>=◌, type_error}
use npb.Value.{leaf, str, int}
use npb.Schema.{
  ModelClass, binary_schema, codes, strip, is_empty, schema_identity, lstrip, is_space, between,
}
use npb.Schema.Identity.{schema_identity-binary_schema}

schema_identity-binary_schema_example :
    (decorator : ModelClass → Result ModelClass) × ((binary_schema
          (λ cs. cs)
          (leaf (str " cap "))
          (leaf (int (pos 3)))
        ≡ ok decorator)
      × ((model_type : ModelClass)
          → (decorator model_type >>= schema_identity)
            ≡ (if model_type.is_base_model then ok (strip (codes " cap "), 3) else err type_error)))
unfolding is_empty strip codes lstrip is_space between
schema_identity-binary_schema_example = schema_identity-binary_schema (λ cs. cs) " cap " 3 refl
