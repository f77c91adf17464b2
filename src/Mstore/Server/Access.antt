-- ===== src/Mstore/Server/Access.antt =====
-- What the requests that mstore/server.py handles can do to the registry, and get from it.
use npb.Prelude.{String, Bool, true, false, str_eq, if◌then◌else◌}
use npb.Mstore.Errors.{Result, ok, err}
use npb.Mstore.Json.{Json, Members, object, end, text}
use npb.Mstore.Records.{Platform, Registry}
use npb.Mstore.Registry.{commit}
use npb.Mstore.Registry.Invariant.{
  IsValid, create_object-IsValid, issue_token-IsValid, revoke_token-IsValid, delete_object-IsValid,
}
use npb.Mstore.Server.{
  Services, Draws, description_of, duration_of, size_of, member_of, names_of, or_default, or_else,
  to_str, require_args, handle_create, handle_grant, handle_revoke, handle_delete, handle_object,
  handle_op, handle, op_name,
}

-- A method's outcome whose registry is valid.
pub record Keeps {ℓ} {A : Type ℓ} (outcome : A × Registry) : Type 0 where
  pub kept : IsValid outcome.1

commit-Keeps {ℓ κ} :
    {A : Type ℓ} {B : Type κ} (m : Result A) (r : Registry) (k : A → Result B × Registry)
    → IsValid r
    → ((a : A) → Keeps (k a))
    → Keeps (commit m r k)
commit-Keeps (ok a) r k v h = h a
commit-Keeps (err e) r k v h = record { kept = v }

if-Keeps {ℓ} :
    {A : Type ℓ} (b : Bool) {x y : A × Registry} → Keeps x → Keeps y → Keeps (if b then x else y)
if-Keeps true v w = v
if-Keeps false v w = w

module _ (p : Platform) (services : Services) (draws : Draws) (r : Registry) (v : IsValid r) where
  handle_create-Keeps : (args : Members) → Keeps (handle_create p services args draws r)
  unfolding handle_create
  handle_create-Keeps args = commit-Keeps (size_of p services (member_of "size" args)) r _ v λ size.
      record { kept = create_object-IsValid p (description_of args size) draws.creation r v }

  handle_grant-Keeps :
      (args : Members) (object_id token : String)
      → Keeps (handle_grant p services args object_id token draws r)
  unfolding handle_grant
  handle_grant-Keeps args object_id token =
      commit-Keeps (names_of p services (or_default (member_of "permissions" args) (text "read"))) r
        _ v
        λ permissions. record {
          kept =
              issue_token-IsValid p object_id token permissions
                (duration_of (member_of "expires_in" args)) draws.now draws.later draws.token r v;
        }

  handle_revoke-Keeps :
      (args : Members) (object_id token : String)
      → Keeps (handle_revoke p services args object_id token draws r)
  unfolding handle_revoke
  handle_revoke-Keeps args object_id token =
      let target = to_str p services (or_else (member_of "target_token" args) (text "")) in
      if-Keeps (str_eq target "") (record { kept = v })
        (record { kept = revoke_token-IsValid p object_id token target draws.now r v })

  handle_object-Keeps :
      (op : String) (args : Members) (object_id token : String)
      → Keeps (handle_object p services op args object_id token draws r)
  unfolding handle_object handle_delete
  handle_object-Keeps op args object_id token =
      if-Keeps (str_eq object_id "") (record { kept = v })
        (if-Keeps (str_eq op "open") (record { kept = v })
          (if-Keeps (str_eq op "info") (record { kept = v })
            (if-Keeps (str_eq op "grant") (handle_grant-Keeps args object_id token) (
              if-Keeps (str_eq op "revoke") (handle_revoke-Keeps args object_id token) (
                if-Keeps (str_eq op "delete")
                  (record {
                    kept = delete_object-IsValid p object_id token draws.closing draws.now r v;
                  })
                  (record { kept = v }))))))

  handle_op-Keeps : (op : String) (args : Members) → Keeps (handle_op p services op args draws r)
  unfolding handle_op
  handle_op-Keeps op args =
      let object_id = to_str p services (or_else (member_of "object_id" args) (text "")) in
      let token = to_str p services (or_else (member_of "token" args) (text "")) in
      if-Keeps (str_eq op "ping") (record { kept = v })
        (if-Keeps (str_eq op "create") (handle_create-Keeps args)
          (handle_object-Keeps op args object_id token))

  -- Whatever a request says, handling it keeps a valid registry valid, whether it is answered or
  -- refused.
  pub handle-Keeps : (request : Members) → Keeps (handle p services request draws r)
  unfolding handle
  handle-Keeps request =
      commit-Keeps (require_args (or_else (member_of "args" request) (object end))) r _ v
        (handle_op-Keeps (op_name p services (member_of "op" request)))
