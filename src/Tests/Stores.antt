-- ===== src/Tests/Stores.antt =====
-- A small registry, and runs of its methods.
use npb.Prelude.{◌+◌, ◌≡◌, refl, true, false, none, some, List, [], ◌∷◌, pos}
use npb.Mstore.Errors.{Exn, ok, err, token_revoked, object_not_found}
use npb.Mstore.Permissions.{name, names, PermissionSet, all_permissions, no_permissions}
use npb.Mstore.Json.{null, end, object, text, is_nan, rank}
use npb.Mstore.Records.{
  Platform, ObjectRecord, TokenRecord, Registry, Description, TokenDraw, ObjectDraw, seconds,
  new_registry,
}
use npb.Mstore.Registry.{
  these, validate, issue_token, revoke_token, delete_object, required_set, to_float,
}
use npb.Mstore.Registry.Invariant.{
  IsValid, Call, creating, issuing, run, run-IsValid, new_registry-IsValid,
}
use npb.Mstore.Registry.Delegation.{Delegated, IsClear, issue_token-Delegated}
use npb.Mstore.Registry.Removal.{validate-revoke_token, validate-delete_object}

-- The hash is the text itself, and the floats are the least ones, which add like numbers.
abbrev pub platform : Platform
platform = record {
  hash_token = λ s. s;
  float_add = λ a b. a + b;
  float_of = λ _. err Exn.other_error;
}

abbrev image : Description
image = record {
  size = pos 12;
  shape = null;
  dtype = text "|u1";
  order = text "C";
  metadata = object end;
}

abbrev pub image_draw : ObjectDraw
image_draw = record {
  object_id = "image";
  region = ok 7;
  now = 10;
  token = record { raw = "root"; now = 10 };
}

abbrev pub reader_draw : TokenDraw
reader_draw = record { raw = "reader"; now = 12 }

abbrev pub image_record : ObjectRecord
image_record = record {
  object_id = "image";
  size = pos 12;
  region = 7;
  generation = 1;
  shape = null;
  dtype = text "|u1";
  order = text "C";
  metadata = object end;
  created_at = 10;
}

abbrev root : TokenRecord
root = record {
  token_hash = "root";
  object_id = "image";
  permissions = all_permissions;
  generation = 1;
  created_at = 10;
  expires_at = none;
  revoked = false;
}

abbrev reader_permissions : PermissionSet
reader_permissions = record no_permissions { may_read = true; may_info = true }

abbrev reader : TokenRecord
reader = record {
  token_hash = "reader";
  object_id = "image";
  permissions = reader_permissions;
  generation = 1;
  created_at = 12;
  expires_at = some 42;
  revoked = false;
}

abbrev pub calls : List Call
calls =
    creating image image_draw
    ∷ issuing "image" "root" (name "read") (some (seconds 30)) 11 12 reader_draw
    ∷ issuing "image" "reader" (name "write") none 13 13 (record { raw = "thief"; now = 13 })
    ∷ []

abbrev pub filled : Registry
filled = record {
  objects = ("image", image_record) ∷ [];
  tokens = ("root", root) ∷ ("reader", reader) ∷ [];
  closed = [];
}

calls-filled : run platform calls new_registry ≡ filled
unfolding run is_nan rank
calls-filled = refl

run-IsValid_example : IsValid (run platform calls new_registry)
run-IsValid_example = run-IsValid platform calls new_registry new_registry-IsValid

reader-IsClear : IsClear platform (some (seconds 30)) 12
unfolding to_float is_nan
reader-IsClear t h = let e : 30 ≡ t = cc in rw⁻¹ e refl

issue_token-Delegated_example :
    Delegated platform "image" "root" 11 reader_draw filled
      (issue_token platform "image" "root"
        (name "read")
        (some (seconds 30))
        11
        12
        reader_draw
        filled).1
unfolding issue_token is_nan rank
issue_token-Delegated_example =
    issue_token-Delegated platform "image" "root" (name "read") (some (seconds 30)) 11 12
      reader_draw filled "reader" reader-IsClear refl

validate-revoke_token_example :
    validate platform "image" "reader"
      (name "info")
      21
      (revoke_token platform "image" "root" "reader" 20 filled).1
    ≡ err token_revoked
unfolding required_set revoke_token
validate-revoke_token_example =
    validate-revoke_token platform "image" "root" "reader" 20 filled (name "info")
      (these (record no_permissions { may_info = true })) 21 refl refl refl

validate-delete_object_example :
    validate platform "image" "reader"
      (names ("read" ∷ []))
      21
      (delete_object platform "image" "root" (ok tt) 20 filled).1
    ≡ err object_not_found
unfolding required_set validate
validate-delete_object_example =
    validate-delete_object platform "image" "root" (ok tt) 20 filled (image_record, root) "reader"
      (names ("read" ∷ [])) (these reader_permissions) 21 refl refl refl
