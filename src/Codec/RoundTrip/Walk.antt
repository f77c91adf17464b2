-- ===== src/Codec/RoundTrip/Walk.antt =====
-- _manifest_tree of src/npb/_codec.py against _restore_tree.
use npb.Prelude.{
  ℕ, ◌+◌, ◌≤◌, ◌≡◌, refl, sym, ap, ◌∙◌, Bool, List, [], ◌∷◌, ◌++◌, append_assoc, append-nil,
}
use npb.Errors.{ok}
use npb.Exec.{Exec}
use npb.Value.{Value, Items, Fields, NdArray, nbytes}
use npb.Externals.{Externals, IsJson, AllJson, AllFieldsJson}
use npb.Codec.Manifest.{Walk, manifest_tree, manifest_items, manifest_fields}
use npb.Codec.Encode.Image.{IsPlaced}
use npb.Codec.Encode.Slices.{AllHold}
use npb.Codec.Restore.{restore_tree, restore_items, restore_fields}
use npb.Codec.RoundTrip.Trees.{seen, seen_items, seen_fields, SameKeys}
use npb.Codec.RoundTrip.Setting.{Setting}

pub IsPlaced-append :
    (xs ys : List (ℕ × NdArray)) (i j k : ℕ)
    → IsPlaced xs i j
    → IsPlaced ys j k
    → IsPlaced (xs ++ ys) i k
IsPlaced-append [] ys i j k p q = rw p q
IsPlaced-append ((off, a) ∷ xs) ys i j k (ordered, aligned, p) q =
    (ordered, aligned, IsPlaced-append xs ys (off + nbytes a) j k p q)

pub AllHold-append :
    (bytes : List ℕ) (base stop : ℕ) (xs ys : List (ℕ × NdArray))
    → AllHold bytes base stop (xs ++ ys)
    → AllHold bytes base stop xs × AllHold bytes base stop ys
AllHold-append bytes base stop [] ys h = (tt, h)
AllHold-append bytes base stop ((off, a) ∷ xs) ys (here, fits, h) =
    let (left, right) = AllHold-append bytes base stop xs ys h in ((here, fits, left), right)

-- What a walk adds: it places the new arrays behind the others, and extends the store.
pub record Adds {S T : Type 0} (setting : Setting S T) (w w' : Walk S) (new : List (ℕ × NdArray))
    : Type 0 where
  pub arrays_eq : w'.arrays ≡ w.arrays ++ new
  pub placed : IsPlaced new w.cursor w'.cursor
  pub extends : setting.Extends w.blobs w'.blobs

-- A decoder of type `b → ds → db → Exec T A` gives `a` on each container that holds the new arrays, where
-- the reader sees the store.
abbrev pub Restores :
    {S T A : Type 0}
    → Setting S T
    → S
    → (NdArray → ℕ → ℕ → Exec T A)
    → (Bool → A)
    → List (ℕ × NdArray)
    → Type 0
Restores {T = T} setting s decode result new =
    (b : NdArray) (base stop : ℕ)
    → base + stop ≤ nbytes b
    → AllHold b.content base stop new
    → (t : T) → setting.Sees s t
    → (t' : T) × ((decode b base stop t ≡ (ok (result b.writeable), t')) × setting.Later t t')

module _ {S T : Type 0} (setting : Setting S T) where
  pub Adds-nothing : (w : Walk S) → Adds setting w w []
  Adds-nothing w = record {
    arrays_eq = sym (append-nil w.arrays);
    placed = refl;
    extends = setting.extends_refl w.blobs;
  }

  pub Adds-append :
      {u v w : Walk S} {xs ys : List (ℕ × NdArray)}
      → Adds setting u v xs
      → Adds setting v w ys
      → Adds setting u w (xs ++ ys)
  Adds-append {u} {v} {w} {xs} {ys} p q = record {
    arrays_eq = q.arrays_eq ∙ ap (λ t. t ++ ys) p.arrays_eq ∙ append_assoc u.arrays xs ys;
    placed = IsPlaced-append xs ys u.cursor v.cursor w.cursor p.placed q.placed;
    extends = setting.extends_trans p.extends q.extends;
  }

module _ {S T : Type 0} (setting : Setting S T) (ext : Externals) where
  pub record Walked (v : Value) (w : Walk S) : Type 0 where
    pub manifest : Value
    pub after : Walk S
    pub new : List (ℕ × NdArray)
    pub walked :
        manifest_tree setting.blob_store setting.externalize_min_bytes v w ≡ (ok manifest, after)
    pub adds : Adds setting w after new
    pub json : IsJson manifest
    pub restores :
        Restores setting after.blobs
          (λ b base stop. restore_tree ext b base stop setting.reader manifest)
          (λ wr. seen (setting.view wr) v)
          new

  pub record WalkedItems (xs : Items) (w : Walk S) : Type 0 where
    pub manifest : Items
    pub after : Walk S
    pub new : List (ℕ × NdArray)
    pub walked :
        manifest_items setting.blob_store setting.externalize_min_bytes xs w ≡ (ok manifest, after)
    pub adds : Adds setting w after new
    pub json : AllJson manifest
    pub restores :
        Restores setting after.blobs
          (λ b base stop. restore_items ext b base stop setting.reader manifest)
          (λ wr. seen_items (setting.view wr) xs)
          new

  pub record WalkedFields (fs : Fields) (w : Walk S) : Type 0 where
    pub manifest : Fields
    pub after : Walk S
    pub new : List (ℕ × NdArray)
    pub walked :
        manifest_fields setting.blob_store setting.externalize_min_bytes fs w ≡ (ok manifest, after)
    pub adds : Adds setting w after new
    pub json : AllFieldsJson manifest
    pub same_keys : SameKeys fs manifest
    pub restores :
        Restores setting after.blobs
          (λ b base stop. restore_fields ext b base stop setting.reader manifest)
          (λ wr. seen_fields (setting.view wr) fs)
          new
