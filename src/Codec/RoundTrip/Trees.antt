-- ===== src/Codec/RoundTrip/Trees.antt =====
-- The trees that src/npb/_codec.py carries, and what decoding makes of them.
use npb.Prelude.{
  String, ◌≡◌, refl, inl, inr, Bool, true, Option, none, some, arith, str_eq, Bool-cases,
}
use npb.Value.{
  Value, Items, Fields, NdArray, BlobRef, leaf, ndarray, blob_ref, list, tuple, dict, nil, cons,
  end, field, only_key, get,
}
use npb.Externals.{Externals, IsArray, IsJsonScalar}
use npb.Blob.RoundTrip.{IsBlobRef}

-- No dict is `{"$blob": …}` or `{"$bin": …}`, each key stands once, the scalars are JSON's, the arrays
-- are well-formed, and the references satisfy `Ref`.
unfoldable mutual
  pub IsCarried : Externals → (BlobRef → Type 0) → Value → Type 0
  IsCarried ext Ref (leaf s) = IsJsonScalar s
  IsCarried ext Ref (ndarray a) = IsArray ext a
  IsCarried ext Ref (blob_ref r) = Ref r
  IsCarried ext Ref (list xs) = AllCarried ext Ref xs
  IsCarried ext Ref (tuple xs) = AllCarried ext Ref xs
  IsCarried ext Ref (dict fs) =
      (only_key "$blob" fs ≡ none) × (only_key "$bin" fs ≡ none) × AllFieldsCarried ext Ref fs

  pub AllCarried : Externals → (BlobRef → Type 0) → Items → Type 0
  AllCarried ext Ref nil = Unit
  AllCarried ext Ref (cons v xs) = IsCarried ext Ref v × AllCarried ext Ref xs

  pub AllFieldsCarried : Externals → (BlobRef → Type 0) → Fields → Type 0
  AllFieldsCarried ext Ref end = Unit
  AllFieldsCarried ext Ref (field k v fs) =
      (get k fs ≡ none) × IsCarried ext Ref v × AllFieldsCarried ext Ref fs

-- With well-formed references.
abbrev pub IsTree : Externals → Value → Type 0
IsTree ext = IsCarried ext (IsBlobRef ext)

-- A view of the decoded container: writable if that is.
abbrev pub view_of : Bool → NdArray → NdArray
view_of writeable a = record a { c_contiguous = true; writeable = writeable }

-- Tuples become lists, and arrays become what `view` makes of them.
unfoldable mutual
  pub seen : (NdArray → NdArray) → Value → Value
  seen view (leaf s) = leaf s
  seen view (ndarray a) = ndarray (view a)
  seen view (blob_ref r) = blob_ref r
  seen view (list xs) = list (seen_items view xs)
  seen view (tuple xs) = list (seen_items view xs)
  seen view (dict fs) = dict (seen_fields view fs)

  pub seen_items : (NdArray → NdArray) → Items → Items
  seen_items view nil = nil
  seen_items view (cons v xs) = cons (seen view v) (seen_items view xs)

  pub seen_fields : (NdArray → NdArray) → Fields → Fields
  seen_fields view end = end
  seen_fields view (field k v fs) = field k (seen view v) (seen_fields view fs)

abbrev pub seen_option : (NdArray → NdArray) → Option Value → Option Value
seen_option view none = none
seen_option view (some v) = some (seen view v)

pub get-seen_fields :
    (view : NdArray → NdArray) (k : String) (fs : Fields)
    → get k (seen_fields view fs) ≡ seen_option view (get k fs)
unfolding get seen_fields
get-seen_fields view k end = refl
get-seen_fields view k (field j v fs) = elim (Bool-cases (str_eq j k)) [
  | inl same ↦ rw same refl
  | inr other ↦ rw other (get-seen_fields view k fs)
]

-- Arrays become views of the container.
abbrev pub restored_fields : Bool → Fields → Fields
restored_fields w = seen_fields (view_of w)

-- The same keys in the same order.
abbrev pub SameKeys : Fields → Fields → Type 0
SameKeys end end = Unit {0}
SameKeys (field k v fs) (field j w gs) = (k ≡ j) × SameKeys fs gs
SameKeys _ _ = ⊥

pub get-SameKeys :
    (k : String) (fs gs : Fields) → SameKeys fs gs → get k fs ≡ none → get k gs ≡ none
unfolding get
get-SameKeys k end end same h = refl
get-SameKeys k end (field j w gs) same h = elim same [ ]
get-SameKeys k (field i v fs) end same h = elim same [ ]
get-SameKeys k (field i v fs) (field j w gs) (e, same) h = ground (arith, get-SameKeys k fs gs same)

pub only_key-SameKeys :
    (k : String) (fs gs : Fields) → SameKeys fs gs → only_key k fs ≡ none → only_key k gs ≡ none
unfolding only_key
only_key-SameKeys k end end same h = refl
only_key-SameKeys k end (field j w gs) same h = elim same [ ]
only_key-SameKeys k (field i v fs) end same h = elim same [ ]
only_key-SameKeys k (field i v end) (field j w end) (e, same) h = ground arith
only_key-SameKeys k (field i v end) (field j w (field j' w' gs)) (e, same) h = elim same [ ]
only_key-SameKeys k (field i v (field i' v' fs)) (field j w end) (e, same) h = elim same [ ]
only_key-SameKeys k (field i v (field i' v' fs)) (field j w (field j' w' gs)) (e, same) h = refl
