-- ===== src/Mstore/Registry/Authorize.antt =====
-- What Registry.issue_token and Registry.revoke_token of mstore/registry.py have checked before they
-- change the registry.
use npb.Prelude.{
  String, ◌≡◌, refl, sym, ap, ◌∙◌, Bool, true, false, not, ◌&&◌, Option, some, str_eq, eq_iff, set,
}
use npb.Mstore.Errors.{ok, or_raise, >>=-eq-ok, raise_if-eq-ok, or_raise-eq-ok}
use npb.Mstore.Dict.{get}
use npb.Mstore.Permissions.{
  PermissionArg, PermissionSet, name, normalize_permissions, subset, all_permissions, same_set,
}
use npb.Mstore.Json.{Float}
use npb.Mstore.Records.{Platform, ObjectRecord, TokenRecord, Registry, Duration}
use npb.Mstore.Registry.{expiry, authorize, revocable, validate}
use npb.Mstore.Registry.Validate.{Validated, validate-Validated}

-- An issuer that may grant, of whose permissions the requested ones are some.
pub record Authorized (p : Platform) (object_id issuer_raw : String) (permissions : PermissionArg)
    (expires_in : Option Duration) (now later : Float) (r : Registry) (obj : ObjectRecord)
    (requested : PermissionSet) (expires : Option Float) : Type 0 where
  pub issuer : TokenRecord
  pub normalized : normalize_permissions permissions ≡ ok requested
  pub validated : Validated p object_id issuer_raw (name "grant") now r obj issuer
  pub within : subset requested issuer.permissions ≡ true
  pub expiring : expiry p expires_in issuer.expires_at later ≡ ok expires

not-false : (b : Bool) → not b ≡ false → b ≡ true
not-false true h = refl
not-false false h = sym h

pub authorize-Authorized :
    (p : Platform) (object_id issuer_raw : String) (permissions : PermissionArg)
    (expires_in : Option Duration) (now later : Float) (r : Registry) (obj : ObjectRecord)
    (requested : PermissionSet) (expires : Option Float)
    → authorize p object_id issuer_raw permissions expires_in now later r
      ≡ ok (obj, (requested, expires))
    → Authorized p object_id issuer_raw permissions expires_in now later r obj requested expires
unfolding authorize
authorize-Authorized p object_id issuer_raw permissions expires_in now later r obj requested expires
      h =
    let (set, (normalized, h1)) = >>=-eq-ok (normalize_permissions permissions) h in
    let ((o, t), (found, h2)) =
      >>=-eq-ok (validate p object_id issuer_raw (name "grant") now r) h1 in
    let (within, h3) = raise_if-eq-ok (not (subset set t.permissions)) _ h2 in
    let (e, (expiring, h4)) = >>=-eq-ok (expiry p expires_in t.expires_at later) h3 in
    let same : o ≡ obj = cc in
    let same_set : set ≡ requested = cc in
    let same_expiry : e ≡ expires = cc in
    record {
      issuer = t;
      normalized = normalized ∙ ap ok same_set;
      validated =
          validate-Validated p object_id issuer_raw (name "grant") now r obj t
            (found ∙ ap (λ x. ok (x, t)) same);
      within = rw same_set at (not-false (subset set t.permissions) within);
      expiring = expiring ∙ ap ok same_expiry;
    }

-- An issuer that may grant, and a token of the same object.
pub record Revocable (p : Platform) (object_id issuer_raw target_raw : String) (now : Float)
    (r : Registry) (target : TokenRecord) : Type 0 where
  pub obj : ObjectRecord
  pub issuer : TokenRecord
  pub validated : Validated p object_id issuer_raw (name "grant") now r obj issuer
  pub found : get (p.hash_token target_raw) r.tokens ≡ some target
  pub same_object : target.object_id ≡ object_id
  pub other_or_lesser :
      same_set target.permissions all_permissions && str_eq target_raw issuer_raw ≡ false

pub revocable-Revocable :
    (p : Platform) (object_id issuer_raw target_raw : String) (now : Float) (r : Registry)
    (target : TokenRecord)
    → revocable p object_id issuer_raw target_raw now r ≡ ok target
    → Revocable p object_id issuer_raw target_raw now r target
unfolding revocable
revocable-Revocable p object_id issuer_raw target_raw now r target h =
    let ((o, i), (found, h1)) =
      >>=-eq-ok (validate p object_id issuer_raw (name "grant") now r) h in
    let (t, (looked_up, h2)) = >>=-eq-ok (or_raise (get (p.hash_token target_raw) r.tokens) _) h1 in
    let (theirs, h3) = raise_if-eq-ok (not (str_eq t.object_id object_id)) _ h2 in
    let (other, h4) =
      raise_if-eq-ok (same_set t.permissions all_permissions && str_eq target_raw issuer_raw) _
        h3 in
    let same : t ≡ target = cc in
    record {
      obj = o;
      issuer = i;
      validated = validate-Validated p object_id issuer_raw (name "grant") now r o i found;
      found = or_raise-eq-ok (get (p.hash_token target_raw) r.tokens) _ looked_up ∙ ap some same;
      same_object =
          rw same at
            ((eq_iff t.object_id object_id).0 (not-false (str_eq t.object_id object_id) theirs));
      other_or_lesser = rw same at other;
    }
