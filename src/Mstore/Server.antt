-- ===== src/Mstore/Server.antt =====
-- MStoreServer._handle of mstore/server.py.
pub mod Access
pub mod Serve
pub mod Clean
pub mod Answers
pub mod Listening
use npb.Prelude.{
  ℕ, ◌%◌, ◌^◌, String, Bool, true, false, not, Option, none, some, List, [], ◌∷◌, str_eq, ◌==◌,
  if◌then◌else◌, ℤ, pos, negsuc,
}
use npb.Mstore.Errors.{Exn, Result, ok, err, ◌>>=◌, ◌>>◌, invalid_request}
use npb.Mstore.Permissions.{PermissionArg, name, names, PermissionSet}
use npb.Mstore.Json.{
  Float, Json, Items, Members, null, boolean, integer, real, text, array, object, nil, cons, end,
  member,
}
use npb.Mstore.Records.{
  Platform, ObjectRecord, Registry, Description, TokenDraw, ObjectDraw, Duration, seconds, whole,
  no_number,
}
use npb.Mstore.Registry.{commit, create_object, validate, issue_token, revoke_token, delete_object}

-- args.get(k)
unfoldable pub member_of : String → Members → Option Json
member_of k end = none
member_of k (member j v ms) = if str_eq j k then some v else member_of k ms

abbrev pub or_default : Option Json → Json → Json
or_default (some v) d = v
or_default none d = d

-- bool(v)
unfoldable pub truthy : Json → Bool
truthy null = false
truthy (boolean b) = b
truthy (integer (pos n)) = not (n == 0)
truthy (integer (negsuc n)) = true
truthy (real f) = not (f % 2 ^ 63 == 0)
truthy (text s) = not (str_eq s "")
truthy (array nil) = false
truthy (array (cons v vs)) = true
truthy (object end) = false
truthy (object (member k v ms)) = true

-- `v or d`
abbrev pub or_else : Option Json → Json → Json
or_else none d = d
or_else (some v) d = if truthy v then v else d

-- What the handler calls beside the registry: int(v) and str(v) at the other types of v, where
-- `none` is a TypeError or a ValueError of int; the exception that a set of no texts ends in; and
-- Region.client_mapping(mode), which gives a mapping and a descriptor to send.
pub record Services : Type 0 where
  pub int_other : Json → Result (Option ℤ)
  pub str_other : Json → String
  pub no_names : Json → Exn
  pub client_mapping : ℕ → String → Result (Json × Option ℕ)
  pub endpoint : String

-- What a request draws and reads while it is handled.
pub record Draws : Type 0 where
  pub creation : ObjectDraw
  pub token : TokenDraw
  pub now : Float
  pub later : Float
  pub closing : Result (Unit {0})

pub data Reply : Type 0 where
  pong : String → Reply
  created : ObjectRecord → String → Json → Reply
  opened : ObjectRecord → Json → Reply
  described : ObjectRecord → PermissionSet → Option Float → Reply
  granted : String → Reply
  revoked deleted : Reply

unfoldable pub require_args : Json → Result Members
require_args (object args) = ok args
require_args _ = err invalid_request

-- args.get("expires_in")
unfoldable pub duration_of : Option Json → Option Duration
duration_of none = none
duration_of (some null) = none
duration_of (some (real f)) = some (seconds f)
duration_of (some (integer z)) = some (whole z)
duration_of (some (boolean true)) = some (whole (pos 1))
duration_of (some (boolean false)) = some (whole (pos 0))
duration_of (some _) = some no_number

abbrev pub keys : Members → List String
keys end = []
keys (member k v ms) = k ∷ keys ms

-- A list of texts.
unfoldable pub texts : Items → Option (List String)
texts nil = some []
texts (cons (text s) vs) =
    let rest = texts vs in elim rest [ none ↦ none | some ss ↦ some (s ∷ ss) ]
texts (cons _ vs) = none

-- The other arguments of "create".
abbrev pub description_of : Members → ℤ → Description
description_of args size = record {
  size = size;
  shape = or_default (member_of "shape" args) null;
  dtype = or_default (member_of "dtype" args) null;
  order = or_default (member_of "order" args) (text "C");
  metadata = or_else (member_of "metadata" args) (object end);
}

-- A reply that carries no descriptor.
abbrev pub plain : Reply → Reply × Option ℕ
plain reply = (reply, none)

module _ (p : Platform) (services : Services) where
  -- str(v)
  unfoldable pub to_str : Json → String
  to_str (text s) = s
  to_str v = services.str_other v

  -- `except (TypeError, ValueError)`
  abbrev pub or_invalid : Option ℤ → Result ℤ
  or_invalid (some z) = ok z
  or_invalid none = err invalid_request

  -- int(args["size"])
  unfoldable pub size_of : Option Json → Result ℤ
  size_of none = err invalid_request
  size_of (some (integer z)) = ok z
  size_of (some v) = services.int_other v >>= or_invalid

  unfoldable pub names_of : Json → Result PermissionArg
  unfolding texts
  names_of (text s) = ok (name s)
  names_of (object ms) = ok (names (keys ms))
  names_of (array vs) = elim (texts vs) [
    | none ↦ err (services.no_names (array vs))
    | some ss ↦ ok (names ss)
  ]
  names_of v = err (services.no_names v)

  unfoldable pub create_reply : ObjectRecord × String → Result (Reply × Option ℕ)
  create_reply (obj, token) = do
    shared ← services.client_mapping obj.region "write"
    ok (created obj token shared.0, shared.1)

  unfoldable pub handle_create : Members → Draws → Registry → Result (Reply × Option ℕ) × Registry
  unfolding size_of member_of create_object create_reply truthy
  handle_create args draws r = commit (size_of (member_of "size" args)) r λ size.
      let made = create_object p (description_of args size) draws.creation r in
      (made.0 >>= create_reply, made.1)

  -- The permission that a mode of opening takes.
  unfoldable pub required_mode : Json → Result String
  required_mode (text s) =
      if str_eq s "write"
      then ok "write"
      else if str_eq s "read"
      then ok "read"
      else err invalid_request
  required_mode v = err invalid_request

  unfoldable pub handle_open :
      Members → String → String → Float → Registry → Result (Reply × Option ℕ)
  unfolding member_of required_mode validate
  handle_open args object_id token now r = do
    mode ← required_mode (or_default (member_of "mode" args) (text "read"))
    found ← validate p object_id token (name mode) now r
    shared ← services.client_mapping found.0.region mode
    ok (opened found.0 shared.0, shared.1)

  unfoldable pub handle_info : String → String → Float → Registry → Result (Reply × Option ℕ)
  unfolding validate
  handle_info object_id token now r = do
    found ← validate p object_id token (name "info") now r
    ok (plain (described found.0 found.1.permissions found.1.expires_at))

  abbrev pub grant_reply : String → Result (Reply × Option ℕ)
  grant_reply token = ok (plain (granted token))

  abbrev pub after : Reply → Unit {0} → Result (Reply × Option ℕ)
  after reply done = ok (plain reply)

  unfoldable pub handle_grant :
      Members → String → String → Draws → Registry → Result (Reply × Option ℕ) × Registry
  unfolding member_of names_of duration_of issue_token
  handle_grant args object_id token draws r =
      commit (names_of (or_default (member_of "permissions" args) (text "read"))) r λ permissions.
        let issued =
          issue_token p object_id token permissions (duration_of (member_of "expires_in" args))
            draws.now draws.later draws.token r in
        (issued.0 >>= grant_reply, issued.1)

  unfoldable pub handle_revoke :
      Members → String → String → Draws → Registry → Result (Reply × Option ℕ) × Registry
  unfolding member_of truthy to_str revoke_token
  handle_revoke args object_id token draws r =
      let target = to_str (or_else (member_of "target_token" args) (text "")) in
      if str_eq target ""
      then (err invalid_request, r)
      else let done = revoke_token p object_id token target draws.now r in
        (done.0 >>= after revoked, done.1)

  unfoldable pub handle_delete :
      String → String → Draws → Registry → Result (Reply × Option ℕ) × Registry
  unfolding delete_object
  handle_delete object_id token draws r =
      let done = delete_object p object_id token draws.closing draws.now r in
      (done.0 >>= after deleted, done.1)

  -- The operations on one object.
  unfoldable pub handle_object :
      String → Members → String → String → Draws → Registry → Result (Reply × Option ℕ) × Registry
  unfolding handle_open handle_info handle_grant handle_revoke handle_delete
  handle_object op args object_id token draws r =
      if str_eq object_id ""
      then (err invalid_request, r)
      else if str_eq op "open"
      then (handle_open args object_id token draws.now r, r)
      else if str_eq op "info"
      then (handle_info object_id token draws.now r, r)
      else if str_eq op "grant"
      then handle_grant args object_id token draws r
      else if str_eq op "revoke"
      then handle_revoke args object_id token draws r
      else if str_eq op "delete"
      then handle_delete object_id token draws r
      else (err invalid_request, r)

  unfoldable pub handle_op :
      String → Members → Draws → Registry → Result (Reply × Option ℕ) × Registry
  unfolding handle_create handle_object to_str member_of truthy
  handle_op op args draws r =
      if str_eq op "ping"
      then (ok (plain (pong services.endpoint)), r)
      else if str_eq op "create"
      then handle_create args draws r
      else handle_object op args (to_str (or_else (member_of "object_id" args) (text "")))
          (to_str (or_else (member_of "token" args) (text ""))) draws r

  -- request.get("op"), where an op that is no text is like one that no branch names
  abbrev pub op_name : Option Json → String
  op_name (some (text s)) = s
  op_name _ = ""

  unfoldable pub handle : Members → Draws → Registry → Result (Reply × Option ℕ) × Registry
  unfolding require_args member_of truthy handle_op
  handle request draws r =
      commit (require_args (or_else (member_of "args" request) (object end))) r
        λ args. handle_op (op_name (member_of "op" request)) args draws r
