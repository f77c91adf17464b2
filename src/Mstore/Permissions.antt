-- ===== src/Mstore/Permissions.antt =====
-- normalize_permissions of mstore/registry.py. A frozenset of the five permissions is five Booleans.
use mathlib.Core.Path.{subst}
use npb.Prelude.{
  String, ◌≡◌, inl, inr, Bool, true, false, not, ◌&&◌, ◌||◌, Option, none, some, List, [], ◌∷◌,
  arith, str_eq, if◌then◌else◌, Bool-cases, set,
}
use npb.Mstore.Errors.{Result, ok, err, invalid_request}

pub data Permission : Type 0 where
  read write grant delete info : Permission

pub record PermissionSet : Type 0 where
  pub may_read : Bool
  pub may_write : Bool
  pub may_grant : Bool
  pub may_delete : Bool
  pub may_info : Bool

abbrev pub all_permissions : PermissionSet
all_permissions = record {
  may_read = true;
  may_write = true;
  may_grant = true;
  may_delete = true;
  may_info = true;
}

abbrev pub no_permissions : PermissionSet
no_permissions = record {
  may_read = false;
  may_write = false;
  may_grant = false;
  may_delete = false;
  may_info = false;
}

-- `p in s`
unfoldable pub has : PermissionSet → Permission → Bool
has s read = s.may_read
has s write = s.may_write
has s grant = s.may_grant
has s delete = s.may_delete
has s info = s.may_info

-- s.add(p)
unfoldable pub add : Permission → PermissionSet → PermissionSet
add read s = record s { may_read = true }
add write s = record s { may_write = true }
add grant s = record s { may_grant = true }
add delete s = record s { may_delete = true }
add info s = record s { may_info = true }

abbrev implies : Bool → Bool → Bool
implies a b = not a || b

-- s.issubset(t)
unfoldable pub subset : PermissionSet → PermissionSet → Bool
subset s t =
    implies s.may_read t.may_read
    && implies s.may_write t.may_write
    && implies s.may_grant t.may_grant
    && implies s.may_delete t.may_delete
    && implies s.may_info t.may_info

-- s == t
unfoldable pub same_set : PermissionSet → PermissionSet → Bool
unfolding subset
same_set s t = subset s t && subset t s

unfoldable pub permission_of : String → Option Permission
permission_of s =
    if str_eq s "read"
    then some read
    else if str_eq s "write"
    then some write
    else if str_eq s "grant"
    then some grant
    else if str_eq s "delete"
    then some delete
    else if str_eq s "info"
    then some info
    else none

-- The argument: a text, or any other iterable of texts.
pub data PermissionArg : Type 0 where
  name : String → PermissionArg
  names : List String → PermissionArg

-- set(value), if `unknown` is empty
unfoldable pub collect : List String → Result PermissionSet
unfolding permission_of add
collect [] = ok no_permissions
collect (s ∷ ss) =
    let rest = collect ss in
    elim (permission_of s) [
      | none ↦ err invalid_request
      | some p ↦ elim rest [ err e ↦ err e | ok set ↦ ok (add p set) ]
    ]

unfoldable pub is_nonempty : PermissionSet → Bool
is_nonempty s = s.may_read || s.may_write || s.may_grant || s.may_delete || s.may_info

-- WRITE brings READ, and any permission brings INFO.
unfoldable pub complete : PermissionSet → PermissionSet
unfolding is_nonempty add
complete s =
    let t = if s.may_write then add read s else s in if is_nonempty t then add info t else t

abbrev pub complete_result : Result PermissionSet → Result PermissionSet
complete_result (ok set) = ok (complete set)
complete_result (err e) = err e

unfoldable pub normalize_names : List String → Result PermissionSet
unfolding collect complete
normalize_names ss = complete_result (collect ss)

unfoldable pub normalize_permissions : PermissionArg → Result PermissionSet
unfolding normalize_names
normalize_permissions (name s) =
    if str_eq s "read"
    then ok (record no_permissions { may_read = true; may_info = true })
    else if str_eq s "write"
    then ok (record no_permissions { may_read = true; may_write = true; may_info = true })
    else if str_eq s "admin"
    then ok all_permissions
    else normalize_names (s ∷ [])
normalize_permissions (names ss) = normalize_names ss

-- The sets that tokens carry: WRITE with READ, and INFO unless empty.
pub record IsClosed (s : PermissionSet) : Type 0 where
  pub write_reads : s.may_write ≡ true → s.may_read ≡ true
  pub some_inform : is_nonempty s ≡ true → s.may_info ≡ true

complete-IsClosed : (s : PermissionSet) → IsClosed (complete s)
unfolding complete is_nonempty add
complete-IsClosed s = ground arith

complete_result-IsClosed :
    (r : Result PermissionSet) (s : PermissionSet) → complete_result r ≡ ok s → IsClosed s
complete_result-IsClosed (ok set) s h =
    let same : complete set ≡ s = cc in subst IsClosed same (complete-IsClosed set)
complete_result-IsClosed (err e) s h = cc

-- Whatever normalize_permissions accepts becomes a set in which WRITE comes with READ, and any
-- permission with INFO.
pub normalize_permissions-IsClosed :
    (arg : PermissionArg) (s : PermissionSet) → normalize_permissions arg ≡ ok s → IsClosed s
unfolding normalize_permissions is_nonempty
normalize_permissions-IsClosed (names ss) s h = complete_result-IsClosed (collect ss) s h
normalize_permissions-IsClosed (name t) s h = elim (Bool-cases (str_eq t "read")) [
  | inl e ↦ ground arith
  | inr e ↦ elim (Bool-cases (str_eq t "write")) [
    | inl e' ↦ ground arith
    | inr e' ↦ elim (Bool-cases (str_eq t "admin")) [
      | inl e'' ↦ ground arith
      | inr e'' ↦ complete_result-IsClosed (collect (t ∷ [])) s (rw (e, e', e'') at h)
    ]
  ]
]

pub subset-has :
    (s t : PermissionSet) (p : Permission) → subset s t ≡ true → has s p ≡ true → has t p ≡ true
unfolding subset has
subset-has s t read h q = ground arith
subset-has s t _ h q = ground arith
