-- ===== src/Mstore/Registry/Validate.antt =====
-- What Registry.validate of mstore/registry.py admits.
use mathlib.Core.Path.{subst}
use npb.Prelude.{
  String, ◌≡◌, ap, ◌∙◌, inl, inr, true, false, some, arith, str_eq, eq_iff, Bool-cases,
  Option-cases,
}
use npb.Mstore.Errors.{ok, err, Result-cases, authentication_error, object_not_found}
use npb.Mstore.Dict.{get}
use npb.Mstore.Permissions.{PermissionArg}
use npb.Mstore.Json.{Float}
use npb.Mstore.Records.{Platform, ObjectRecord, TokenRecord, Registry}
use npb.Mstore.Registry.{
  Required, required_set, holds, has_expired, check_token, check_object, validate,
}

-- A token that lets its bearer act on an object.
pub record Admits (required : Required) (object_id : String) (now : Float) (obj : ObjectRecord)
    (token : TokenRecord) : Type 0 where
  pub same_object : token.object_id ≡ object_id
  pub standing : token.revoked ≡ false
  pub unexpired : has_expired token.expires_at now ≡ false
  pub same_generation : token.generation ≡ obj.generation
  pub permitted : holds required token.permissions ≡ true

check_token-Admits :
    (p : Platform) (object_id : String) (required : Required) (now : Float) (obj : ObjectRecord)
    (token : TokenRecord) (found : ObjectRecord × TokenRecord)
    → check_token p object_id required now obj token ≡ ok found
    → Admits required object_id now obj token × ((obj, token) ≡ found)
unfolding check_token
check_token-Admits p object_id required now obj token found h = (
  record {
    same_object = ground (arith, eq_iff token.object_id object_id);
    standing = ground arith;
    unexpired = ground arith;
    same_generation = ground arith;
    permitted = ground arith;
  },
  ground arith,
)

-- What validate has looked up and checked when it returns.
pub record Validated (p : Platform) (object_id raw_token : String) (required : PermissionArg)
    (now : Float) (r : Registry) (obj : ObjectRecord) (token : TokenRecord) : Type 0 where
  pub present : str_eq raw_token "" ≡ false
  pub set : Required
  pub normalized : required_set required ≡ ok set
  pub object_found : get object_id r.objects ≡ some obj
  pub token_found : get (p.hash_token raw_token) r.tokens ≡ some token
  pub admitted : Admits set object_id now obj token

check_object-found :
    (p : Platform) (object_id raw_token : String) (set : Required) (now : Float) (r : Registry)
    (obj : ObjectRecord) (token : TokenRecord)
    → check_object p object_id raw_token set now r ≡ ok (obj, token)
    → (get object_id r.objects ≡ some obj)
      × ((get (p.hash_token raw_token) r.tokens ≡ some token) × Admits set object_id now obj token)
unfolding check_object
check_object-found p object_id raw_token set now r obj token h =
    elim (Option-cases (get object_id r.objects)) [
      | inl e ↦ let h' : err object_not_found ≡ ok (obj, token) = rw (check_object, e) at h in cc
      | inr (o, e) ↦ elim (Option-cases (get (p.hash_token raw_token) r.tokens)) [
        | inl e' ↦
            let h' : err authentication_error ≡ ok (obj, token) = rw (check_object, e, e') at h in
            cc
        | inr (t, e') ↦
            let h' : check_token p object_id set now o t ≡ ok (obj, token) =
              rw (check_object, e, e') at h in
            let found = check_token-Admits p object_id set now o t (obj, token) h' in
            let same : o ≡ obj = ap (λ q. q.0) found.1 in
            let same' : t ≡ token = ap (λ q. q.1) found.1 in
            (
              e ∙ ap some same,
              (e' ∙ ap some same', subst (λ q. Admits set object_id now q.0 q.1) found.1 found.0),
            )
      ]
    ]

pub validate-Validated :
    (p : Platform) (object_id raw_token : String) (required : PermissionArg) (now : Float)
    (r : Registry) (obj : ObjectRecord) (token : TokenRecord)
    → validate p object_id raw_token required now r ≡ ok (obj, token)
    → Validated p object_id raw_token required now r obj token
unfolding validate
validate-Validated p object_id raw_token required now r obj token h =
    elim (Bool-cases (str_eq raw_token "")) [
      | inl e ↦ let h' : err authentication_error ≡ ok (obj, token) = rw e at h in cc
      | inr e ↦ elim (Result-cases (required_set required)) [
        | inl (x, e') ↦ let h' : err x ≡ ok (obj, token) = rw (e, e') at h in cc
        | inr (set, e') ↦
            let h' : check_object p object_id raw_token set now r ≡ ok (obj, token) =
              rw (e, e') at h in
            let found = check_object-found p object_id raw_token set now r obj token h' in
            record {
              present = e;
              set = set;
              normalized = e';
              object_found = found.0;
              token_found = found.1.0;
              admitted = found.1.1;
            }
      ]
    ]
