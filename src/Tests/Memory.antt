-- ===== src/Tests/Memory.antt =====
-- A blob store in memory that numbers its arrays: what Lawful asks can hold. A model with its array in that
-- store, encoded and decoded.
use Prim.Native.Char.{nul}
use mathlib.Core.Path.{subst}
use npb.Prelude.{
  ℕ, zero, suc, ◌≤◌, ◌<◌, String, ◌≡◌, refl, sym, ap, ◌∙◌, true, none, some, [], map, arith, ltb,
  ◌==◌, if◌then◌else◌, ==_iff, replicate, pos,
}
use npb.Errors.{Result, ok, err, blob_store_error}
use npb.Value.{
  Value, NdArray, BlobRef, nbytes, list, dict, cons, nil, field, end, text, number, of_ints, get,
  only_key, product,
}
use npb.Externals.{IsArray}
use npb.Format.{array, align_up}
use npb.Blob.{BlobStore, manifest_fields}
use npb.Blob.RoundTrip.{IsBlobRef}
use npb.Schema.{schema_identity}
use npb.Codec.Manifest.{
  blob_object, manifest_tree, manifest_ndarray, validate_ndarray, external_store, put_external,
  at_least, json_fallback,
}
use npb.Codec.Encode.{Analysis, model, analyze_model, analyze_tree, check_threshold, encode}
use npb.Codec.Decode.{decode}
use npb.Codec.RoundTrip.Trees.{IsCarried, seen_fields}
use npb.Codec.RoundTrip.Images.{FitsFormat}
use npb.Codec.RoundTrip.Stored.{Lawful, given}
use npb.Codec.RoundTrip.External.{IsOwn, decode-encode_stored}
use npb.Tests.Documented.{sample_externals, sample_externals-Documented, write}
use npb.Tests.Sample.{pixels, capture, capture_class, capture_fields}

-- How many arrays there are, and the array of each number.
pub record Memory : Type 0 where
  pub count : ℕ
  pub arrays : ℕ → NdArray

-- An id has as many characters after the first as its number says.
unfoldable pub unary : ℕ → String
unary zero = ""
unary (suc n) = String.◌∷◌ nul (unary n)

abbrev pub id_of : ℕ → String
id_of n = String.◌∷◌ nul (unary n)

unfoldable pub size : String → ℕ
size String.[] = 0
size (String.◌∷◌ c s) = suc (size s)

size-unary : (n : ℕ) → size (unary n) ≡ n
unfolding size unary
size-unary zero = refl
size-unary (suc n) = ap suc (size-unary n)

abbrev pub ref_of : ℕ → NdArray → BlobRef
ref_of n a = record {
  store = "memory";
  object_id = id_of n;
  offset = pos 0;
  nbytes = pos (nbytes a);
  dtype = a.dtype.name;
  shape = map pos a.shape;
}

unfoldable pub read_at : String → Memory → Result NdArray
unfolding size
read_at String.[] m = err blob_store_error
read_at (String.◌∷◌ c s) m =
    if ltb (size s) m.count then ok (m.arrays (size s)) else err blob_store_error

unfoldable pub put_at : NdArray → Memory → Memory
put_at a m = record { count = suc m.count; arrays = λ i. if i == m.count then a else m.arrays i }

unfoldable pub memory : BlobStore Memory
unfolding put_at read_at unary
memory = record {
  kind = "memory";
  put_array = λ a m. (ok (ref_of m.count a), put_at a m);
  get_array = λ r m. (read_at r.object_id m, m);
  exists = λ r m. (ok true, m);
  persist = λ r m. (ok tt, m);
  release = λ r m. (ok tt, m);
  delete = λ r m. (ok tt, m);
}

-- All that m holds is in m'.
abbrev pub IsWithin : Memory → Memory → Type 0
IsWithin m m' = (m.count ≤ m'.count) × ((i : ℕ) → i < m.count → m'.arrays i ≡ m.arrays i)

pub IsWithin-trans : {m m' m'' : Memory} → IsWithin m m' → IsWithin m' m'' → IsWithin m m''
IsWithin-trans (up, same) (up', same') = (omega arith, λ i h. same' i (omega arith) ∙ same i h)

pub put_at-IsWithin : (a : NdArray) (m : Memory) → IsWithin m (put_at a m)
unfolding put_at
put_at-IsWithin a m = (omega arith, λ i h. ground arith)

pub read_at-put_at :
    (a : NdArray) (m t : Memory) → IsWithin (put_at a m) t → read_at (id_of m.count) t ≡ ok a
unfolding put_at read_at
read_at-put_at a m t (up, same) =
    let here : t.arrays m.count ≡ a =
      same m.count (omega arith) ∙ rw ((==_iff m.count m.count).1 refl) refl in
    rw (size-unary m.count, here) (ground arith)

pub ref_of-IsBlobRef :
    (n : ℕ) (a : NdArray) → IsArray sample_externals a → IsBlobRef sample_externals (ref_of n a)
ref_of-IsBlobRef n a valid = record {
  at = 0;
  dims = a.shape;
  element = a.dtype;
  store_named = λ p. cc;
  object_named = λ p. cc;
  offset_eq = refl;
  shape_eq = refl;
  dtype_known = valid.known;
  no_objects = valid.plain.no_objects;
  no_fields = valid.plain.no_fields;
  nbytes_eq = ap pos (omega (arith, valid.filled));
}

unfoldable pub memory-Lawful : Lawful sample_externals memory memory
unfolding memory
memory-Lawful = record {
  view = λ a. a;
  Extends = IsWithin;
  extends_refl = λ m. (omega arith, λ i h. refl);
  extends_trans = λ p q. IsWithin-trans p q;
  Sees = IsWithin;
  sees_before = λ p q. IsWithin-trans p q;
  Later = λ t t'. t' ≡ t;
  later_refl = λ t. refl;
  later_trans = λ p q. q ∙ p;
  sees_later = λ {s} p sees. subst (λ x. IsWithin s x) (sym p) sees;
  put_keeps = λ a m valid. (
    ref_of m.count a,
    (
      put_at a m,
      (
        refl,
        (
          ref_of-IsBlobRef m.count a valid,
          (refl, (put_at-IsWithin a m, λ t sees. (t, (rw (read_at-put_at a m t sees) refl, refl)))),
        ),
      ),
    ),
  );
}

pub memory-Sees : (m : Memory) → memory-Lawful.Sees m m
unfolding memory-Lawful
memory-Sees m = (omega arith, λ i h. refl)

-- The array is of 3 bytes, and at least 2 make it external.
abbrev pub stored_manifest : Value
stored_manifest = dict (
    field "name" (text "cap") (
      field "pixels" (blob_object (ref_of 0 pixels))
        (field "at" (list (cons (number 1) (cons (number 2) nil))) end)))

abbrev pub empty_memory : Memory
empty_memory = record { count = 0; arrays = λ i. pixels }

abbrev pub one_array : Memory
one_array = put_at pixels empty_memory

abbrev pub stored_analysis : Analysis
stored_analysis = record {
  schema_id = replicate 16 5;
  schema_version = 3;
  data_bytes = 0;
  data_start = 65536;
  arrays = [];
  metadata_json = write stored_manifest [];
}

pub stored-analyzed :
    analyze_model sample_externals (some memory) (some (pos 2)) (model capture) empty_memory
    ≡ (ok stored_analysis, one_array)
unfolding analyze_model check_threshold analyze_tree schema_identity manifest_tree manifest_ndarray
    validate_ndarray external_store put_external at_least align_up sample_externals write
    manifest_fields of_ints memory
stored-analyzed = refl

pub stored-IsOwn : IsOwn sample_externals (dict capture_fields)
unfolding IsCarried sample_externals get only_key product
stored-IsOwn = (
  refl,
  refl,
  (
    refl,
    tt,
    (
      refl,
      record {
        plain = record { no_objects = refl; no_fields = refl; sized = omega arith };
        known = refl;
        filled = refl;
      },
      (refl, (tt, (tt, tt)), tt),
    ),
  ),
)

pub stored-FitsFormat : FitsFormat stored_analysis
unfolding align_up write manifest_fields of_ints unary
stored-FitsFormat = omega arith

decode-encode_stored_example :
    (a : NdArray) × ((t' : Memory) × ((encode sample_externals
            (some memory)
            (some (pos 2))
            (model capture)
            none
            empty_memory
          ≡ (ok a, one_array))
        × (memory-Lawful.Extends empty_memory one_array
            × ((decode sample_externals (some memory) capture_class ok (array a) one_array ≡ (
              ok (seen_fields (given memory-Lawful.view (some (pos 2)) true) capture_fields),
              t',
            ))
                × memory-Lawful.Later one_array t'))))
decode-encode_stored_example =
    decode-encode_stored sample_externals (sample_externals-Documented _) memory memory
      memory-Lawful (some (pos 2)) ok capture capture_fields none empty_memory one_array one_array
      stored_analysis refl refl stored-IsOwn stored-analyzed stored-FitsFormat
      ((sample_externals-Documented (json_fallback sample_externals)).empty_length _)
      (memory-Sees one_array)
