-- ===== src/Mstore/Registry/Removal.antt =====
-- What no longer works after Registry.revoke_token and Registry.delete_object of mstore/registry.py.
use npb.Prelude.{String, ◌≡◌, refl, ◌∙◌, inl, inr, true, false, none, some, str_eq, eq_iff, set}
use npb.Mstore.Errors.{Result, ok, err, Result-cases, object_not_found, token_revoked}
use npb.Mstore.Dict.{get, put, pop, get-put, get-pop}
use npb.Mstore.Permissions.{PermissionArg, name}
use npb.Mstore.Json.{Float}
use npb.Mstore.Records.{Platform, ObjectRecord, TokenRecord, Registry}
use npb.Mstore.Registry.{
  Required, required_set, check_token, check_object, validate, revocable, revoke_token,
  delete_object,
}
use npb.Mstore.Registry.Authorize.{revocable-Revocable}

-- After revoke_token returns, validate raises TokenRevoked for the target at any time and for any
-- known permission, where the target is not empty.
pub validate-revoke_token :
    (p : Platform) (object_id issuer_raw target_raw : String) (now : Float) (r : Registry)
    (required : PermissionArg) (set : Required) (at : Float)
    → str_eq target_raw "" ≡ false
    → required_set required ≡ ok set
    → (revoke_token p object_id issuer_raw target_raw now r).0 ≡ ok tt
    → validate p object_id target_raw required at
        (revoke_token p object_id issuer_raw target_raw now r).1
      ≡ err token_revoked
unfolding validate revoke_token
validate-revoke_token p object_id issuer_raw target_raw now r required set at present known h =
    elim (Result-cases (revocable p object_id issuer_raw target_raw now r)) [
      | inl (e, h') ↦ let failed : err e ≡ ok tt = rw h' at h in cc
      | inr (target, h') ↦
          let a = revocable-Revocable p object_id issuer_raw target_raw now r target h' in
          let hash = p.hash_token target_raw in
          let marked = record target { revoked = true } in
          let found : get hash (put hash marked r.tokens) ≡ some marked =
            get-put hash hash marked r.tokens ∙ rw ((eq_iff hash hash).1 refl) refl in
          let theirs = (eq_iff target.object_id object_id).1 a.same_object in
          rw
            (h', present, known, check_object, a.validated.object_found, found, check_token, theirs)
            refl
    ]

-- After delete_object has removed an object, validate raises ObjectNotFound for it whatever the
-- token, where that is not empty and the permission is known; this holds too where closing the
-- region raised.
pub validate-delete_object :
    (p : Platform) (object_id raw_token : String) (closing : Result (Unit {0})) (now : Float)
    (r : Registry) (found : ObjectRecord × TokenRecord) (other_raw : String)
    (required : PermissionArg) (set : Required) (at : Float)
    → validate p object_id raw_token (name "delete") now r ≡ ok found
    → str_eq other_raw "" ≡ false
    → required_set required ≡ ok set
    → validate p object_id other_raw required at
        (delete_object p object_id raw_token closing now r).1
      ≡ err object_not_found
unfolding validate delete_object
validate-delete_object p object_id raw_token closing now r found other_raw required set at allowed
      present known =
    let gone : get object_id (pop object_id r.objects) ≡ none =
      get-pop object_id object_id r.objects ∙ rw ((eq_iff object_id object_id).1 refl) refl in
    rw (allowed, present, known, check_object, gone) refl
