-- ===== src/VineyardChain/Carried.antt =====
-- The messages of examples/vineyard_chain stay trees that the codec carries, from stage to stage.
use npb.Prelude.{String, ◌≡◌, refl, ◌∙◌, inl, inr, false, arith, str_eq, eq_iff, Bool-cases, ℤ}
use npb.Value.{
  int, set_item, Value, Items, Fields, NdArray, leaf, ndarray, blob_ref, list, tuple, dict, nil,
  cons, end, field, get,
}
use npb.Externals.{Externals, IsArray}
use npb.Codec.RoundTrip.Trees.{
  IsCarried, AllCarried, AllFieldsCarried, SameKeys, seen, seen_items, seen_fields, get-SameKeys,
  only_key-SameKeys,
}
use npb.Codec.RoundTrip.External.{IsOwn}
use npb.Value.Dicts.{get-set_item_ne, only_key-set_item}

seen_fields-SameKeys : (view : NdArray → NdArray) (fs : Fields) → SameKeys fs (seen_fields view fs)
unfolding seen_fields
seen_fields-SameKeys view end = tt
seen_fields-SameKeys view (field k v fs) = (refl, seen_fields-SameKeys view fs)

mutual
  unfolding IsCarried seen

  pub seen-IsOwn :
      (ext : Externals) (view : NdArray → NdArray)
      → ((a : NdArray) → IsArray ext a → IsArray ext (view a))
      → (v : Value) → IsOwn ext v
      → IsOwn ext (seen view v)
  seen-IsOwn ext view keeps (leaf s) h = h
  seen-IsOwn ext view keeps (ndarray a) h = keeps a h
  seen-IsOwn ext view keeps (blob_ref r) h = absurd h
  seen-IsOwn ext view keeps (list xs) h = seen_items-IsOwn ext view keeps xs h
  seen-IsOwn ext view keeps (tuple xs) h = seen_items-IsOwn ext view keeps xs h
  seen-IsOwn ext view keeps (dict fs) (no_blob, no_bin, h) = (
    only_key-SameKeys "$blob" fs (seen_fields view fs) (seen_fields-SameKeys view fs) no_blob,
    only_key-SameKeys "$bin" fs (seen_fields view fs) (seen_fields-SameKeys view fs) no_bin,
    seen_fields-IsOwn ext view keeps fs h,
  )

  seen_items-IsOwn :
      (ext : Externals) (view : NdArray → NdArray)
      → ((a : NdArray) → IsArray ext a → IsArray ext (view a))
      → (xs : Items) → AllCarried ext (λ r. ⊥) xs
      → AllCarried ext (λ r. ⊥) (seen_items view xs)
  seen_items-IsOwn ext view keeps nil h = tt
  seen_items-IsOwn ext view keeps (cons v xs) (hv, hs) =
      (seen-IsOwn ext view keeps v hv, seen_items-IsOwn ext view keeps xs hs)

  seen_fields-IsOwn :
      (ext : Externals) (view : NdArray → NdArray)
      → ((a : NdArray) → IsArray ext a → IsArray ext (view a))
      → (fs : Fields) → AllFieldsCarried ext (λ r. ⊥) fs
      → AllFieldsCarried ext (λ r. ⊥) (seen_fields view fs)
  seen_fields-IsOwn ext view keeps end h = tt
  seen_fields-IsOwn ext view keeps (field k v fs) (fresh, hv, hs) = (
    get-SameKeys k fs (seen_fields view fs) (seen_fields-SameKeys view fs) fresh,
    seen-IsOwn ext view keeps v hv,
    seen_fields-IsOwn ext view keeps fs hs,
  )

set_item-AllFieldsCarried :
    (ext : Externals) (k : String) (n : ℤ) (fs : Fields)
    → AllFieldsCarried ext (λ r. ⊥) fs
    → AllFieldsCarried ext (λ r. ⊥) (set_item k (leaf (int n)) fs)
unfolding IsCarried set_item get
set_item-AllFieldsCarried ext k n end h = (refl, tt, tt)
set_item-AllFieldsCarried ext k n (field j w fs) (fresh, hw, hs) = elim (Bool-cases (str_eq j k)) [
  | inl same ↦ rw same (fresh, tt, hs)
  | inr other ↦
      let differ : str_eq k j ≡ false = ground (arith, eq_iff j k, eq_iff k j) in
      rw other (
        get-set_item_ne k j (leaf (int n)) fs differ ∙ fresh,
        hw,
        set_item-AllFieldsCarried ext k n fs hs,
      )
]

-- A number under a key that is not the codec's.
pub set_item-IsOwn :
    (ext : Externals) (k : String) (n : ℤ) (fs : Fields)
    → str_eq k "$blob" ≡ false
    → str_eq k "$bin" ≡ false
    → IsOwn ext (dict fs)
    → IsOwn ext (dict (set_item k (leaf (int n)) fs))
unfolding IsCarried
set_item-IsOwn ext k n fs not_blob not_bin (no_blob, no_bin, h) = (
  only_key-set_item k "$blob" (leaf (int n)) fs not_blob no_blob,
  only_key-set_item k "$bin" (leaf (int n)) fs not_bin no_bin,
  set_item-AllFieldsCarried ext k n fs h,
)
