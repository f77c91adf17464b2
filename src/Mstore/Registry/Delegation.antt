-- ===== src/Mstore/Registry/Delegation.antt =====
-- What a token that Registry.issue_token of mstore/registry.py issues may do.
use npb.Prelude.{
  String, ◌≡◌, refl, sym, ◌∙◌, inl, inr, true, false, Option, none, some, str_eq, eq_iff,
}
use npb.Mstore.Errors.{ok, err, Result-cases, >>=-eq-ok, raise_if-eq-ok}
use npb.Mstore.Dict.{get, get-put}
use npb.Mstore.Permissions.{PermissionArg, Permission, name, has, subset-has}
use npb.Mstore.Json.{Float, float_min, float_min_bounded, float_le_trans, is_nan}
use npb.Mstore.Records.{Platform, ObjectRecord, TokenRecord, Registry, TokenDraw, Duration}
use npb.Mstore.Registry.{
  is_past, to_float, expiry, limited, has_expired, authorize, issue_token, _issue_locked, new_token,
}
use npb.Mstore.Registry.Validate.{Validated}
use npb.Mstore.Registry.Authorize.{authorize-Authorized}

-- The sum that a duration makes with the clock is a number.
abbrev pub IsClear : Platform → Option Duration → Float → Type 0
IsClear p none later = Unit
IsClear p (some d) later = (t : Float) → to_float p d ≡ ok t → is_nan (p.float_add later t) ≡ false

abbrev pub IsNumber : Option Float → Type 0
IsNumber none = Unit
IsNumber (some t) = is_nan t ≡ false

limited-has_expired :
    (p : Platform) (t : Float) (issuer : Option Float) (at : Float)
    → is_nan t ≡ false
    → IsNumber issuer
    → has_expired issuer at ≡ true
    → has_expired (some (limited p t issuer)) at ≡ true
unfolding has_expired
limited-has_expired p t none at a b h = cc
limited-has_expired p t (some u) at a b h =
    float_le_trans (float_min t u) u at (float_min_bounded t u a b) h

expiry-has_expired :
    (p : Platform) (expires_in : Option Duration) (issuer expires : Option Float) (later at : Float)
    → IsClear p expires_in later
    → IsNumber issuer
    → expiry p expires_in issuer later ≡ ok expires
    → has_expired issuer at ≡ true
    → has_expired expires at ≡ true
unfolding expiry
expiry-has_expired p none issuer expires later at a b h e =
    let same : issuer ≡ expires = cc in rw same at e
expiry-has_expired p (some d) issuer expires later at a b h e =
    let (past, (_, h1)) = >>=-eq-ok (is_past p d) h in
    let (_, h2) = raise_if-eq-ok past _ h1 in
    let (t, (known, h3)) = >>=-eq-ok (to_float p d) h2 in
    let same : some (limited p (p.float_add later t) issuer) ≡ expires = cc in
    rw same at (limited-has_expired p (p.float_add later t) issuer at (a t known) b e)

-- A token made from another's authority.
pub record Delegated (p : Platform) (object_id issuer_raw : String) (now : Float) (draw : TokenDraw)
    (before after : Registry) : Type 0 where
  pub obj : ObjectRecord
  pub issuer : TokenRecord
  pub issued : TokenRecord
  pub validated : Validated p object_id issuer_raw (name "grant") now before obj issuer
  pub stored : get (p.hash_token draw.raw) after.tokens ≡ some issued
  pub same_objects : before.objects ≡ after.objects
  pub others :
      (hash : String)
      → str_eq (p.hash_token draw.raw) hash ≡ false
      → get hash before.tokens ≡ get hash after.tokens
  pub standing : issued.revoked ≡ false
  pub lesser : (q : Permission) → has issued.permissions q ≡ true → has issuer.permissions q ≡ true
  pub shorter :
      (at : Float)
      → IsNumber issuer.expires_at
      → has_expired issuer.expires_at at ≡ true
      → has_expired issued.expires_at at ≡ true

-- Where issue_token returns, the issuer was valid for the object with GRANT; the new token has no
-- permission that the issuer lacks, and expires no later than it, if the sum of the clock and
-- expires_in and the issuer's own expiry are numbers; and no other token and no object is changed.
pub issue_token-Delegated :
    (p : Platform) (object_id issuer_raw : String) (permissions : PermissionArg)
    (expires_in : Option Duration) (now later : Float) (draw : TokenDraw) (r : Registry)
    (raw : String)
    → IsClear p expires_in later
    → (issue_token p object_id issuer_raw permissions expires_in now later draw r).0 ≡ ok raw
    → Delegated p object_id issuer_raw now draw r
        (issue_token p object_id issuer_raw permissions expires_in now later draw r).1
unfolding issue_token _issue_locked
issue_token-Delegated p object_id issuer_raw permissions expires_in now later draw r raw clear h =
    elim (Result-cases (authorize p object_id issuer_raw permissions expires_in now later r)) [
      | inl (e, h') ↦ let failed : err e ≡ ok raw = rw h' at h in cc
      | inr ((obj, (requested, expires)), h') ↦
          let a =
            authorize-Authorized p object_id issuer_raw permissions expires_in now later r obj
              requested expires h' in
          rw h' (record {
            obj = obj;
            issuer = a.issuer;
            issued = new_token p obj requested expires draw;
            validated = a.validated;
            stored =
                get-put _ _ _ r.tokens
                ∙ rw ((eq_iff (p.hash_token draw.raw) (p.hash_token draw.raw)).1 refl) refl;
            same_objects = refl;
            others = λ hash other. sym (get-put _ hash _ r.tokens ∙ rw other refl);
            standing = refl;
            lesser = λ q held. subset-has requested a.issuer.permissions q a.within held;
            shorter = λ at number e.
                expiry-has_expired p expires_in a.issuer.expires_at expires later at clear number
                  a.expiring e;
          })
    ]
