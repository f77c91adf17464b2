-- ===== src/Codec/RoundTrip/Induction.antt =====
-- Each tree of src/npb/_codec.py is walked without error, and its manifest restored, if that holds of its
-- arrays and its references.
use npb.Prelude.{String, ◌≡◌, refl, none, [], ◌++◌}
use npb.Value.{
  Scalar, Value, Items, Fields, NdArray, BlobRef, leaf, ndarray, blob_ref, list, tuple, dict, nil,
  cons, end, field, only_key, get,
}
use npb.Externals.{Externals, IsArray, IsJson, IsJsonScalar}
use npb.Codec.Manifest.{Walk, manifest_tree}
use npb.Codec.Restore.{restore_tree}
use npb.Codec.RoundTrip.Trees.{
  IsCarried, AllCarried, AllFieldsCarried, seen, get-SameKeys, only_key-SameKeys,
}
use npb.Codec.RoundTrip.Setting.{Setting}
use npb.Codec.RoundTrip.Walk.{
  Adds-nothing, Adds-append, AllHold-append, Walked, WalkedItems, WalkedFields,
}
use npb.Codec.RoundTrip.Leaves.{restore_dict}

module _ {S T : Type 0} (setting : Setting S T) (ext : Externals)
    (walk_ndarray : (a : NdArray) (w : Walk S) → IsArray ext a → Walked setting ext (ndarray a) w)
    (walk_blob_ref : (r : BlobRef) (w : Walk S)
      → setting.Ref r
      → Walked setting ext (blob_ref r) w) where
  walk_dict :
      (fs : Fields) (w : Walk S)
      → only_key "$blob" fs ≡ none
      → only_key "$bin" fs ≡ none
      → WalkedFields setting ext fs w
      → Walked setting ext (dict fs) w
  unfolding manifest_tree seen IsJson
  walk_dict fs w no_blob no_bin f = record {
    manifest = dict f.manifest;
    after = f.after;
    new = f.new;
    walked = rw f.walked;
    adds = f.adds;
    json = f.json;
    restores = λ b base stop room hold t sees.
        let (t', (read, later)) = f.restores b base stop room hold t sees in
        (
          t',
          (
            restore_dict ext setting.reader f.manifest _ b base stop t t'
                (only_key-SameKeys "$blob" fs f.manifest f.same_keys no_blob)
                (only_key-SameKeys "$bin" fs f.manifest f.same_keys no_bin) read,
            later,
          ),
        );
  }

  walk_list :
      (xs : Items) (w : Walk S) → WalkedItems setting ext xs w → Walked setting ext (list xs) w
  unfolding manifest_tree seen IsJson restore_tree
  walk_list xs w f = record {
    manifest = list f.manifest;
    after = f.after;
    new = f.new;
    walked = rw f.walked;
    adds = f.adds;
    json = f.json;
    restores = λ b base stop room hold t sees.
        let (t', (read, later)) = f.restores b base stop room hold t sees in
        (t', (rw read refl, later));
  }

  walk_tuple :
      (xs : Items) (w : Walk S) → WalkedItems setting ext xs w → Walked setting ext (tuple xs) w
  unfolding manifest_tree seen IsJson restore_tree
  walk_tuple xs w f = record {
    manifest = list f.manifest;
    after = f.after;
    new = f.new;
    walked = rw f.walked;
    adds = f.adds;
    json = f.json;
    restores = λ b base stop room hold t sees.
        let (t', (read, later)) = f.restores b base stop room hold t sees in
        (t', (rw read refl, later));
  }

  walk_leaf : (v : Scalar) (w : Walk S) → IsJsonScalar v → Walked setting ext (leaf v) w
  unfolding manifest_tree seen IsJson restore_tree
  walk_leaf v w j = record {
    manifest = leaf v;
    after = w;
    new = [];
    walked = refl;
    adds = Adds-nothing setting w;
    json = j;
    restores = λ b base stop room hold t sees. (t, (refl, setting.later_refl t));
  }

  walk_nil : (w : Walk S) → WalkedItems setting ext nil w
  unfolding manifest_tree seen IsJson restore_tree
  walk_nil w = record {
    manifest = nil;
    after = w;
    new = [];
    walked = refl;
    adds = Adds-nothing setting w;
    json = tt;
    restores = λ b base stop room hold t sees. (t, (refl, setting.later_refl t));
  }

  walk_cons :
      (v : Value) (xs : Items) (w : Walk S) (f : Walked setting ext v w)
      → WalkedItems setting ext xs f.after
      → WalkedItems setting ext (cons v xs) w
  unfolding manifest_tree seen IsJson restore_tree
  walk_cons v xs w f g = record {
    manifest = cons f.manifest g.manifest;
    after = g.after;
    new = f.new ++ g.new;
    walked = rw (f.walked, g.walked);
    adds = Adds-append setting f.adds g.adds;
    json = (f.json, g.json);
    restores = λ b base stop room hold t sees.
        let (left, right) = AllHold-append b.content base stop f.new g.new hold in
        let (t1, (first, later)) =
          f.restores b base stop room left t (setting.sees_before g.adds.extends sees) in
        let (t2, (rest, still)) =
          g.restores b base stop room right t1 (setting.sees_later later sees) in
        (t2, (rw (first, rest) refl, setting.later_trans later still));
  }

  walk_end : (w : Walk S) → WalkedFields setting ext end w
  unfolding manifest_tree seen IsJson restore_tree
  walk_end w = record {
    manifest = end;
    after = w;
    new = [];
    walked = refl;
    adds = Adds-nothing setting w;
    json = tt;
    same_keys = tt;
    restores = λ b base stop room hold t sees. (t, (refl, setting.later_refl t));
  }

  walk_field :
      (k : String) (v : Value) (fs : Fields) (w : Walk S) (f : Walked setting ext v w)
      → get k fs ≡ none
      → WalkedFields setting ext fs f.after
      → WalkedFields setting ext (field k v fs) w
  unfolding manifest_tree seen IsJson restore_tree
  walk_field k v fs w f fresh g = record {
    manifest = field k f.manifest g.manifest;
    after = g.after;
    new = f.new ++ g.new;
    walked = rw (f.walked, g.walked);
    adds = Adds-append setting f.adds g.adds;
    json = (get-SameKeys k fs g.manifest g.same_keys fresh, f.json, g.json);
    same_keys = (refl, g.same_keys);
    restores = λ b base stop room hold t sees.
        let (left, right) = AllHold-append b.content base stop f.new g.new hold in
        let (t1, (first, later)) =
          f.restores b base stop room left t (setting.sees_before g.adds.extends sees) in
        let (t2, (rest, still)) =
          g.restores b base stop room right t1 (setting.sees_later later sees) in
        (t2, (rw (first, rest) refl, setting.later_trans later still));
  }

  mutual
    unfolding IsCarried

    walk : (v : Value) (w : Walk S) → IsCarried ext setting.Ref v → Walked setting ext v w
    walk (leaf v) w h = walk_leaf v w h
    walk (ndarray a) w h = walk_ndarray a w h
    walk (blob_ref r) w h = walk_blob_ref r w h
    walk (list xs) w h = walk_list xs w (walk_items xs w h)
    walk (tuple xs) w h = walk_tuple xs w (walk_items xs w h)
    walk (dict fs) w (no_blob, no_bin, h) = walk_dict fs w no_blob no_bin (walk_fields fs w h)

    walk_items :
        (xs : Items) (w : Walk S) → AllCarried ext setting.Ref xs → WalkedItems setting ext xs w
    walk_items nil w h = walk_nil w
    walk_items (cons v xs) w (hv, hs) =
        let f = walk v w hv in walk_cons v xs w f (walk_items xs f.after hs)

    walk_fields :
        (fs : Fields) (w : Walk S)
        → AllFieldsCarried ext setting.Ref fs
        → WalkedFields setting ext fs w
    walk_fields end w h = walk_end w
    walk_fields (field k v fs) w (fresh, hv, hs) =
        let f = walk v w hv in walk_field k v fs w f fresh (walk_fields fs f.after hs)

-- The arrays and the references are walked and restored.
pub record Leaves {S T : Type 0} (setting : Setting S T) (ext : Externals) : Type 0 where
  pub walk_ndarray : (a : NdArray) (w : Walk S) → IsArray ext a → Walked setting ext (ndarray a) w
  pub walk_blob_ref : (r : BlobRef) (w : Walk S) → setting.Ref r → Walked setting ext (blob_ref r) w

-- A tree is walked without error, with its arrays placed one behind the other, and what the walk
-- returns restores to the tree on every container that holds the arrays.
pub tree-Walked :
    {S T : Type 0} (setting : Setting S T) (ext : Externals)
    → Leaves setting ext
    → (v : Value) (w : Walk S) → IsCarried ext setting.Ref v
    → Walked setting ext v w
tree-Walked setting ext leaves = walk setting ext leaves.walk_ndarray leaves.walk_blob_ref
