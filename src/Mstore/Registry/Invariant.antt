-- ===== src/Mstore/Registry/Invariant.antt =====
-- What holds in every registry that its methods make.
use npb.Prelude.{
  String, ◌≡◌, refl, ap, ◌∙◌, ◌⊎◌, inl, inr, true, false, not, Option, none, some, List, [], ◌∷◌,
  arith, str_eq, eq_iff, Bool-cases, set,
}
use npb.Mstore.Errors.{Result, Result-cases}
use npb.Mstore.Dict.{
  Dict, get, put, pop, get-put, get-pop, AllEntries, AllEntries-get, AllEntries-put,
  AllEntries-retain, AllEntries-map,
}
use npb.Mstore.Permissions.{
  PermissionSet, PermissionArg, name, IsClosed, all_permissions, normalize_permissions-IsClosed,
}
use npb.Mstore.Json.{Float}
use npb.Mstore.Registry.Authorize.{authorize-Authorized, revocable-Revocable}
use npb.Mstore.Records.{
  Platform, ObjectRecord, TokenRecord, Registry, Description, TokenDraw, ObjectDraw, Duration,
  is_positive, new_registry,
}
use npb.Mstore.Registry.{
  new_object, _issue_locked, create_object, authorize, issue_token, revocable, revoke_token,
  delete_object, close, validate,
}

-- An object is filed under its id, has a size, and is of the generation it began with.
pub record ObjectOk (id : String) (obj : ObjectRecord) : Type 0 where
  pub filed : obj.object_id ≡ id
  pub sized : is_positive obj.size ≡ true
  pub first_generation : obj.generation ≡ 1

-- A token is filed under its hash, is for an object of the registry, of that object's generation,
-- and has a set of permissions that normalize_permissions makes.
pub record TokenOk (objects : Dict ObjectRecord) (hash : String) (token : TokenRecord)
    : Type 0 where
  pub filed : token.token_hash ≡ hash
  pub of_object : (obj : ObjectRecord) × (get token.object_id objects ≡ some obj)
  pub first_generation : token.generation ≡ 1
  pub closed : IsClosed token.permissions

pub record IsValid (r : Registry) : Type 0 where
  pub objects_ok : AllEntries ObjectOk r.objects
  pub tokens_ok : AllEntries (TokenOk r.objects) r.tokens

-- Adding an object takes none away.
TokenOk-put :
    (objects : Dict ObjectRecord) (id : String) (obj : ObjectRecord) (hash : String)
    (token : TokenRecord)
    → TokenOk objects hash token
    → TokenOk (put id obj objects) hash token
TokenOk-put objects id obj hash token t = record {
  filed = t.filed;
  of_object = still (Bool-cases (str_eq id token.object_id));
  first_generation = t.first_generation;
  closed = t.closed;
}
  where
    still :
        (str_eq id token.object_id ≡ true) ⊎ (str_eq id token.object_id ≡ false)
        → (o : ObjectRecord) × (get token.object_id (put id obj objects) ≡ some o)
    still (inl e) = (obj, get-put id token.object_id obj objects ∙ rw e refl)
    still (inr e) = (t.of_object.0, get-put id token.object_id obj objects ∙ rw e t.of_object.1)

_issue_locked-IsValid :
    (p : Platform) (obj : ObjectRecord) (set : PermissionSet) (expires : Option Float)
    (draw : TokenDraw) (r : Registry)
    → IsValid r
    → get obj.object_id r.objects ≡ some obj
    → obj.generation ≡ 1
    → IsClosed set
    → IsValid (_issue_locked p obj set expires draw r).1
unfolding _issue_locked
_issue_locked-IsValid p obj set expires draw r v found first c = record {
  objects_ok = v.objects_ok;
  tokens_ok =
      AllEntries-put (TokenOk r.objects) _ _ r.tokens v.tokens_ok
        (record { filed = refl; of_object = (obj, found); first_generation = first; closed = c });
}

all_permissions-IsClosed : IsClosed all_permissions
all_permissions-IsClosed = record { write_reads = λ _. refl; some_inform = λ _. refl }

pub create_object-IsValid :
    (p : Platform) (d : Description) (draw : ObjectDraw) (r : Registry)
    → IsValid r
    → IsValid (create_object p d draw r).1
unfolding create_object
create_object-IsValid p d draw r v = elim (Bool-cases (is_positive d.size)) [
  | inr e ↦ rw e v
  | inl e ↦ elim (Result-cases draw.region) [
    | inl (x, e') ↦ rw (e, e') v
    | inr (region, e') ↦
        let obj = new_object p d draw region in
        let stored : Registry = record r { objects = put draw.object_id obj r.objects } in
        let v' : IsValid stored = record {
          objects_ok =
              AllEntries-put ObjectOk draw.object_id obj r.objects v.objects_ok
                (record { filed = refl; sized = e; first_generation = refl });
          tokens_ok =
              AllEntries-map (TokenOk-put r.objects draw.object_id obj) r.tokens v.tokens_ok;
        } in
        let found : get draw.object_id stored.objects ≡ some obj =
          get-put draw.object_id draw.object_id obj r.objects
          ∙ rw ((eq_iff draw.object_id draw.object_id).1 refl) refl in
        rw (e, e')
          (_issue_locked-IsValid p obj all_permissions none draw.token stored v' found refl
            all_permissions-IsClosed)
  ]
]

pub issue_token-IsValid :
    (p : Platform) (object_id issuer_raw : String) (permissions : PermissionArg)
    (expires_in : Option Duration) (now later : Float) (draw : TokenDraw) (r : Registry)
    → IsValid r
    → IsValid (issue_token p object_id issuer_raw permissions expires_in now later draw r).1
unfolding issue_token
issue_token-IsValid p object_id issuer_raw permissions expires_in now later draw r v =
    elim (Result-cases (authorize p object_id issuer_raw permissions expires_in now later r)) [
      | inl (e, h) ↦ rw h v
      | inr ((obj, (requested, expires)), h) ↦
          let a =
            authorize-Authorized p object_id issuer_raw permissions expires_in now later r obj
              requested expires h in
          let ok_object =
            AllEntries-get ObjectOk object_id r.objects v.objects_ok a.validated.object_found in
          let found : get obj.object_id r.objects ≡ some obj =
            ap (λ k. get k r.objects) ok_object.filed ∙ a.validated.object_found in
          rw h (
            _issue_locked-IsValid p obj requested expires draw r v found ok_object.first_generation
              (normalize_permissions-IsClosed permissions requested a.normalized))
    ]

pub revoke_token-IsValid :
    (p : Platform) (object_id issuer_raw target_raw : String) (now : Float) (r : Registry)
    → IsValid r
    → IsValid (revoke_token p object_id issuer_raw target_raw now r).1
unfolding revoke_token
revoke_token-IsValid p object_id issuer_raw target_raw now r v =
    elim (Result-cases (revocable p object_id issuer_raw target_raw now r)) [
      | inl (e, h) ↦ rw h v
      | inr (target, h) ↦
          let a = revocable-Revocable p object_id issuer_raw target_raw now r target h in
          let t =
            AllEntries-get (TokenOk r.objects) (p.hash_token target_raw) r.tokens v.tokens_ok
              a.found in
          let marked : TokenOk r.objects (p.hash_token target_raw)
              (record target { revoked = true }) =
            record {
              filed = t.filed;
              of_object = t.of_object;
              first_generation = t.first_generation;
              closed = t.closed;
            } in
          rw h (record {
            objects_ok = v.objects_ok;
            tokens_ok = AllEntries-put (TokenOk r.objects) _ _ r.tokens v.tokens_ok marked;
          })
    ]

-- A token of another object keeps its object.
TokenOk-pop :
    (objects : Dict ObjectRecord) (id hash : String) (token : TokenRecord)
    → TokenOk objects hash token × (not (str_eq token.object_id id) ≡ true)
    → TokenOk (pop id objects) hash token
TokenOk-pop objects id hash token (t, other) =
    let e : str_eq id token.object_id ≡ false =
      ground (arith, eq_iff id token.object_id, eq_iff token.object_id id) in
    record {
      filed = t.filed;
      of_object = (t.of_object.0, get-pop id token.object_id objects ∙ rw e t.of_object.1);
      first_generation = t.first_generation;
      closed = t.closed;
    }

pub delete_object-IsValid :
    (p : Platform) (object_id raw_token : String) (closing : Result (Unit {0})) (now : Float)
    (r : Registry)
    → IsValid r
    → IsValid (delete_object p object_id raw_token closing now r).1
unfolding delete_object pop
delete_object-IsValid p object_id raw_token closing now r v =
    elim (Result-cases (validate p object_id raw_token (name "delete") now r)) [
      | inl (e, h) ↦ rw h v
      | inr (found, h) ↦ rw h (record {
        objects_ok =
            AllEntries-map (λ _ _ h. h.0) _
              (AllEntries-retain ObjectOk (λ j _. not (str_eq j object_id)) r.objects v.objects_ok);
        tokens_ok = AllEntries-map (TokenOk-pop r.objects object_id) _ (
            AllEntries-retain (TokenOk r.objects) (λ _ t. not (str_eq t.object_id object_id))
              r.tokens v.tokens_ok);
      })
    ]

-- The calls that change a registry, with what each draws and reads.
pub data Call : Type 0 where
  creating : Description → ObjectDraw → Call
  issuing : String → String → PermissionArg → Option Duration → Float → Float → TokenDraw → Call
  revoking : String → String → String → Float → Call
  deleting : String → String → Result (Unit {0}) → Float → Call
  closing_all : Call

unfoldable pub step : Platform → Call → Registry → Registry
unfolding create_object issue_token revoke_token delete_object close
step p (creating d draw) r = (create_object p d draw r).1
step p (issuing id raw permissions expires now later draw) r =
    (issue_token p id raw permissions expires now later draw r).1
step p (revoking id raw target now) r = (revoke_token p id raw target now r).1
step p (deleting id raw closed now) r = (delete_object p id raw closed now r).1
step p closing_all r = close r

unfoldable pub run : Platform → List Call → Registry → Registry
unfolding step
run p [] r = r
run p (c ∷ cs) r = run p cs (step p c r)

step-IsValid : (p : Platform) (c : Call) (r : Registry) → IsValid r → IsValid (step p c r)
unfolding step close
step-IsValid p (creating d draw) r v = create_object-IsValid p d draw r v
step-IsValid p (issuing id raw permissions expires now later draw) r v =
    issue_token-IsValid p id raw permissions expires now later draw r v
step-IsValid p (revoking id raw target now) r v = revoke_token-IsValid p id raw target now r v
step-IsValid p (deleting id raw closed now) r v = delete_object-IsValid p id raw closed now r v
step-IsValid p closing_all r v = record { objects_ok = tt; tokens_ok = tt }

-- Every method keeps a registry valid, in whatever order clients call them, and whether they return
-- or raise.
pub run-IsValid : (p : Platform) (cs : List Call) (r : Registry) → IsValid r → IsValid (run p cs r)
unfolding run
run-IsValid p [] r v = v
run-IsValid p (c ∷ cs) r v = run-IsValid p cs (step p c r) (step-IsValid p c r v)

pub new_registry-IsValid : IsValid new_registry
new_registry-IsValid = record { objects_ok = tt; tokens_ok = tt }
