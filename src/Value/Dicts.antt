-- ===== src/Value/Dicts.antt =====
-- The dicts of the values that src/npb/_codec.py walks, after d[k] = v.
use npb.Prelude.{String, ◌≡◌, refl, inl, inr, false, none, some, arith, str_eq, eq_iff, Bool-cases}
use npb.Value.{Value, Fields, end, field, get, set_item, only_key}

pub get-set_item_self : (k : String) (v : Value) (fs : Fields) → get k (set_item k v fs) ≡ some v
unfolding get set_item
get-set_item_self k v end = ground (arith, eq_iff k k)
get-set_item_self k v (field j w fs) = ground (arith, eq_iff j k, get-set_item_self k v fs)

pub get-set_item_ne :
    (k j : String) (v : Value) (fs : Fields)
    → str_eq k j ≡ false
    → get j (set_item k v fs) ≡ get j fs
unfolding get set_item
get-set_item_ne k j v end h = ground arith
get-set_item_ne k j v (field i w fs) h =
    ground (arith, eq_iff i k, eq_iff k j, eq_iff i j, get-set_item_ne k j v fs h)

-- A dict with one key more than those of another key.
pub only_key-set_item :
    (k j : String) (v : Value) (fs : Fields)
    → str_eq k j ≡ false
    → only_key j fs ≡ none
    → only_key j (set_item k v fs) ≡ none
unfolding only_key set_item
only_key-set_item k j v end differ h = rw differ refl
only_key-set_item k j v (field i w end) differ h = elim (Bool-cases (str_eq i k)) [
  | inl same ↦ rw same (ground (arith, eq_iff i k))
  | inr other ↦ rw other refl
]
only_key-set_item k j v (field i w (field i' w' fs)) differ h = elim (Bool-cases (str_eq i k)) [
  | inl same ↦ rw same refl
  | inr other ↦
      rw other (elim (Bool-cases (str_eq i' k)) [
        | inl same' ↦ rw same' refl
        | inr other' ↦ rw other' refl
      ])
]
