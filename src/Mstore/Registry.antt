-- ===== src/Mstore/Registry.antt =====
-- The class Registry of mstore/registry.py, on the records of Mstore/Records. Its lock makes
-- each method one step. Draws of uuid and secrets, and readings of the clock, are arguments.
pub mod Validate
pub mod Authorize
pub mod Invariant
pub mod Delegation
pub mod Removal
use npb.Prelude.{
  ℕ, String, Bool, true, false, not, ◌&&◌, Option, none, some, List, [], ◌∷◌, str_eq, ◌==◌,
  if◌then◌else◌, set,
}
use npb.Mstore.Errors.{
  Result, ok, err, ◌>>=◌, ◌>>◌, raise_if, or_raise, authentication_error, permission_denied,
  object_not_found, token_expired, token_revoked, invalid_request, other_error,
}
use npb.Mstore.Dict.{Dict, get, put, retain, pop}
use npb.Mstore.Permissions.{
  PermissionSet, PermissionArg, name, names, no_permissions, all_permissions, normalize_permissions,
  permission_of, add, subset, same_set,
}
use npb.Mstore.Records.{
  Platform, ObjectRecord, TokenRecord, Registry, Description, TokenDraw, ObjectDraw, Duration,
  seconds, whole, no_number, is_positive,
}
use npb.Mstore.Json.{Float, float_le, float_min}

-- A method that raises before it changes anything, or else goes on.
abbrev pub commit {ℓ κ} :
    {A : Type ℓ} {B : Type κ}
    → Result A
    → Registry
    → (A → Result B × Registry)
    → Result B × Registry
commit (ok a) r k = k a
commit (err e) r k = (err e, r)

-- What validate requires: a set, or a text that no token has (the name "admin").
pub data Required : Type 0 where
  these : PermissionSet → Required
  beyond : Required

unfoldable pub required_set : PermissionArg → Result Required
unfolding normalize_permissions permission_of add
required_set (name s) = do
  set ← normalize_permissions (name s)
  if str_eq s "info"
      then ok (these set)
      else elim (permission_of s) [ none ↦ ok beyond | some p ↦ ok (these (add p no_permissions)) ]
required_set (names ss) = do set ← normalize_permissions (names ss); ok (these set)

-- not (required_set - permissions)
unfoldable pub holds : Required → PermissionSet → Bool
unfolding subset
holds (these s) t = subset s t
holds beyond t = false

-- token.expires_at is not None and now >= token.expires_at
unfoldable pub has_expired : Option Float → Float → Bool
unfolding float_le
has_expired none now = false
has_expired (some t) now = float_le t now

module _ (p : Platform) where
  -- The record that _issue_locked makes.
  abbrev pub new_token : ObjectRecord → PermissionSet → Option Float → TokenDraw → TokenRecord
  new_token obj set expires draw = record {
    token_hash = p.hash_token draw.raw;
    object_id = obj.object_id;
    permissions = set;
    generation = obj.generation;
    created_at = draw.now;
    expires_at = expires;
    revoked = false;
  }

  unfoldable pub _issue_locked :
      ObjectRecord → PermissionSet → Option Float → TokenDraw → Registry → String × Registry
  unfolding put
  _issue_locked obj set expires draw r = (
    draw.raw,
    record r { tokens = put (p.hash_token draw.raw) (new_token obj set expires draw) r.tokens },
  )

  abbrev pub new_object : Description → ObjectDraw → ℕ → ObjectRecord
  new_object d draw region = record {
    object_id = draw.object_id;
    size = d.size;
    region = region;
    generation = 1;
    shape = d.shape;
    dtype = d.dtype;
    order = d.order;
    metadata = d.metadata;
    created_at = draw.now;
  }

  unfoldable pub create_object :
      Description → ObjectDraw → Registry → Result (ObjectRecord × String) × Registry
  unfolding is_positive _issue_locked put
  create_object d draw r =
      if not (is_positive d.size)
      then (err invalid_request, r)
      else commit draw.region r (λ region.
        let obj = new_object d draw region in
        let stored = record r { objects = put draw.object_id obj r.objects } in
        let issued = _issue_locked obj all_permissions none draw.token stored in
        (ok (obj, issued.0), issued.1))

  -- The tests of validate on an object's token.
  unfoldable pub check_token :
      String → Required → Float → ObjectRecord → TokenRecord → Result (ObjectRecord × TokenRecord)
  unfolding has_expired holds
  check_token object_id required now obj token =
      if not (str_eq token.object_id object_id)
      then err authentication_error
      else if token.revoked
      then err token_revoked
      else if has_expired token.expires_at now
      then err token_expired
      else if not (token.generation == obj.generation)
      then err authentication_error
      else if not (holds required token.permissions)
      then err permission_denied
      else ok (obj, token)

  unfoldable pub check_object :
      String → String → Required → Float → Registry → Result (ObjectRecord × TokenRecord)
  unfolding get check_token
  check_object object_id raw_token required now r = do
    obj ← or_raise (get object_id r.objects) object_not_found
    token ← or_raise (get (p.hash_token raw_token) r.tokens) authentication_error
    check_token object_id required now obj token

  unfoldable pub validate :
      String → String → PermissionArg → Float → Registry → Result (ObjectRecord × TokenRecord)
  unfolding required_set check_object
  validate object_id raw_token required now r = do
    raise_if (str_eq raw_token "") authentication_error
    set ← required_set required
    check_object object_id raw_token set now r

  -- expires_in <= 0
  unfoldable pub is_past : Duration → Result Bool
  unfolding float_le is_positive
  is_past (seconds t) = ok (float_le t 0)
  is_past (whole z) = ok (not (is_positive z))
  is_past no_number = err other_error

  -- float(expires_in)
  unfoldable pub to_float : Duration → Result Float
  to_float (seconds t) = ok t
  to_float (whole z) = p.float_of z
  to_float no_number = err other_error

  -- min(expires_at, issuer.expires_at), if the issuer expires
  abbrev pub limited : Float → Option Float → Float
  limited t none = t
  limited t (some u) = float_min t u

  unfoldable pub expiry : Option Duration → Option Float → Float → Result (Option Float)
  unfolding is_past to_float float_min
  expiry none issuer now = ok issuer
  expiry (some d) issuer now = do
    past ← is_past d
    raise_if past invalid_request
    t ← to_float d
    ok (some (limited (p.float_add now t) issuer))

  -- What issue_token decides before it issues.
  unfoldable pub authorize :
      String
      → String
      → PermissionArg
      → Option Duration
      → Float
      → Float
      → Registry
      → Result (ObjectRecord × (PermissionSet × Option Float))
  unfolding normalize_permissions validate subset expiry
  authorize object_id issuer_raw permissions expires_in now later r = do
    requested ← normalize_permissions permissions
    found ← validate object_id issuer_raw (name "grant") now r
    raise_if (not (subset requested found.1.permissions)) permission_denied
    expires ← expiry expires_in found.1.expires_at later
    ok (found.0, (requested, expires))

  -- The clock is read by validate (`now`), for the new expiry (`later`) and by _issue_locked.
  unfoldable pub issue_token :
      String
      → String
      → PermissionArg
      → Option Duration
      → Float
      → Float
      → TokenDraw
      → Registry
      → Result String × Registry
  unfolding authorize _issue_locked
  issue_token object_id issuer_raw permissions expires_in now later draw r =
      commit (authorize object_id issuer_raw permissions expires_in now later r) r (λ found.
        let issued = _issue_locked found.0 found.1.0 found.1.1 draw r in (ok issued.0, issued.1))

  -- What revoke_token decides: the token that it marks.
  unfoldable pub revocable : String → String → String → Float → Registry → Result TokenRecord
  unfolding validate get same_set
  revocable object_id issuer_raw target_raw now r = do
    found ← validate object_id issuer_raw (name "grant") now r
    target ← or_raise (get (p.hash_token target_raw) r.tokens) authentication_error
    raise_if (not (str_eq target.object_id object_id)) authentication_error
    raise_if (same_set target.permissions all_permissions && str_eq target_raw issuer_raw)
        invalid_request
    ok target

  unfoldable pub revoke_token :
      String → String → String → Float → Registry → Result (Unit {0}) × Registry
  unfolding revocable put
  revoke_token object_id issuer_raw target_raw now r =
      commit (revocable object_id issuer_raw target_raw now r) r (λ target. (
        ok tt,
        record r {
          tokens = put (p.hash_token target_raw) (record target { revoked = true }) r.tokens;
        },
      ))

  -- `closing` is what region.close() does: it returns, or raises.
  unfoldable pub delete_object :
      String → String → Result (Unit {0}) → Float → Registry → Result (Unit {0}) × Registry
  unfolding validate pop retain
  delete_object object_id raw_token closing now r =
      commit (validate object_id raw_token (name "delete") now r) r (λ found. (
        closing,
        record {
          objects = pop object_id r.objects;
          tokens = retain (λ _ token. not (str_eq token.object_id object_id)) r.tokens;
          closed = found.0.region ∷ r.closed;
        },
      ))

-- The regions that close() closes, the last first.
unfoldable pub regions : Dict ObjectRecord → List ℕ → List ℕ
regions [] closed = closed
regions ((_, obj) ∷ d) closed = regions d (obj.region ∷ closed)

unfoldable pub close : Registry → Registry
unfolding regions
close r = record { objects = []; tokens = []; closed = regions r.objects r.closed }
