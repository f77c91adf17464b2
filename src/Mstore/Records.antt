-- ===== src/Mstore/Records.antt =====
-- The records of mstore/models.py and the state of Registry in mstore/registry.py.
use npb.Prelude.{ℕ, String, Bool, false, Option, List, [], ltb, ℤ, pos, negsuc}
use npb.Mstore.Errors.{Result}
use npb.Mstore.Dict.{Dict}
use npb.Mstore.Permissions.{PermissionSet}
use npb.Mstore.Json.{Float, Json}

-- What the registry calls: sha256 in hexadecimal, the sum of two floats, and float(z).
pub record Platform : Type 0 where
  pub hash_token : String → String
  pub float_add : Float → Float → Float
  pub float_of : ℤ → Result Float

-- A region is known by its descriptor.
pub record ObjectRecord : Type 0 where
  pub object_id : String
  pub size : ℤ
  pub region : ℕ
  pub generation : ℕ
  pub shape : Json
  pub dtype : Json
  pub order : Json
  pub metadata : Json
  pub created_at : Float

pub record TokenRecord : Type 0 where
  pub token_hash : String
  pub object_id : String
  pub permissions : PermissionSet
  pub generation : ℕ
  pub created_at : Float
  pub expires_at : Option Float
  pub revoked : Bool

-- `closed` lists the regions whose close() was called, the last first.
pub record Registry : Type 0 where
  pub objects : Dict ObjectRecord
  pub tokens : Dict TokenRecord
  pub closed : List ℕ

abbrev pub new_registry : Registry
new_registry = record { objects = []; tokens = []; closed = [] }

-- The keyword arguments of create_object.
pub record Description : Type 0 where
  pub size : ℤ
  pub shape : Json
  pub dtype : Json
  pub order : Json
  pub metadata : Json

-- secrets.token_urlsafe and the clock, as _issue_locked reads them
pub record TokenDraw : Type 0 where
  pub raw : String
  pub now : Float

-- uuid4, create_region and the clock, as create_object reads them
pub record ObjectDraw : Type 0 where
  pub object_id : String
  pub region : Result ℕ
  pub now : Float
  pub token : TokenDraw

-- The value of expires_in: a number, or anything that `<=` refuses.
pub data Duration : Type 0 where
  seconds : Float → Duration
  whole : ℤ → Duration
  no_number : Duration

unfoldable pub is_positive : ℤ → Bool
is_positive (pos n) = ltb 0 n
is_positive (negsuc n) = false
