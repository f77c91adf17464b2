-- ===== src/Tests/Headers.antt =====
-- The header and the references at concrete inputs.
use npb.Prelude.{
  ℕ, ◌+◌, ◌*◌, ◌%◌, ◌≤◌, ◌<◌, ◌≡◌, refl, ◌↔◌, ◌⊎◌, true, false, [], ◌∷◌, arith, replicate, pos,
}
use npb.Errors.{ok, type_error, value_error, format_error}
use npb.Value.{NdArray, BlobRef, nbytes, product}
use npb.Format.{
  Header, magic, frame_size, header_size, align_up, array, parse_header, require_binary_array,
  unpack_header, header_at, is_uint8,
}
use npb.Format.Align.{align_up_least}
use npb.Format.Pack.{FitsHeader, header_image}
use npb.Format.Checks.{
  HasLayout, IsBinary, IsLayout, info_of, parse_header_iff, parse_header_raises,
}
use npb.Blob.{from_manifest, to_manifest}
use npb.Blob.RoundTrip.{IsBlobRef, from_manifest-to_manifest, from_manifest-IsBlobRef}
use npb.Codec.Encode.{byte_array}
use npb.Tests.Documented.{uint8, sample_externals}

align_up_least_example :
    (65 ≤ align_up 65 64)
    × (align_up 65 64 % 64 ≡ 0)
    × (align_up 65 64 < 65 + 64)
    × ((k : ℕ) → 65 ≤ k * 64 → align_up 65 64 ≤ k * 64)
align_up_least_example = align_up_least 65 64 (omega arith)

abbrev sample_header : Header
sample_header = record {
  magic_bytes = magic;
  version = 1;
  flags = 0;
  frame = frame_size;
  schema_id = replicate 16 5;
  schema_version = 3;
  metadata_bytes = 40;
  data_start = 65536;
  data_bytes = 3;
  encoded_bytes = 131072;
}

sample_header-FitsHeader : FitsHeader sample_header
sample_header-FitsHeader = record {
  magic_fits = refl;
  version_fits = omega arith;
  flags_fits = omega arith;
  frame_fits = omega arith;
  schema_id_fits = refl;
  schema_version_fits = omega arith;
  metadata_bytes_fits = omega arith;
  data_start_fits = omega arith;
  data_bytes_fits = omega arith;
  encoded_bytes_fits = omega arith;
}

-- 64 bytes that announce two frames.
abbrev short_container : NdArray
short_container = byte_array (header_image sample_header)

parse_header_iff_example : (parse_header (array short_container) ≡ ok (info_of sample_header)) ↔ (
    IsBinary short_container
    × (header_size ≤ nbytes short_container)
    × IsLayout (nbytes short_container) (header_at short_container.content)
    × (info_of sample_header ≡ info_of (header_at short_container.content)))
parse_header_iff_example = parse_header_iff short_container (info_of sample_header)

abbrev two_bytes : NdArray
two_bytes = byte_array (78 ∷ 80 ∷ [])

parse_header_raises_example :
    ((format_error ≡ type_error) × (is_uint8 two_bytes.dtype ≡ false))
    ⊎ (((format_error ≡ value_error) × ((is_uint8 two_bytes.dtype ≡ true) × ¬ IsBinary two_bytes))
        ⊎ ((format_error ≡ format_error) × (IsBinary two_bytes × ¬ HasLayout two_bytes)))
unfolding parse_header unpack_header require_binary_array is_uint8
parse_header_raises_example = parse_header_raises two_bytes format_error refl

abbrev frame_ref : BlobRef
frame_ref = record {
  store = "vineyard";
  object_id = "o1";
  offset = pos 0;
  nbytes = pos 6;
  dtype = "|u1";
  shape = pos 2 ∷ pos 3 ∷ [];
}

frame_ref-IsBlobRef : IsBlobRef sample_externals frame_ref
unfolding sample_externals product
frame_ref-IsBlobRef = record {
  at = 0;
  dims = 2 ∷ 3 ∷ [];
  element = uint8;
  store_named = λ p. cc;
  object_named = λ p. cc;
  offset_eq = refl;
  shape_eq = refl;
  dtype_known = refl;
  no_objects = refl;
  no_fields = refl;
  nbytes_eq = refl;
}

from_manifest-to_manifest_example :
    from_manifest sample_externals (to_manifest frame_ref) ≡ ok frame_ref
from_manifest-to_manifest_example =
    from_manifest-to_manifest sample_externals frame_ref frame_ref-IsBlobRef

from_manifest-IsBlobRef_example : IsBlobRef sample_externals frame_ref
from_manifest-IsBlobRef_example =
    from_manifest-IsBlobRef sample_externals (to_manifest frame_ref) frame_ref
      (from_manifest-to_manifest sample_externals frame_ref frame_ref-IsBlobRef)

abbrev three_bytes : NdArray
three_bytes = byte_array (9 ∷ 8 ∷ 7 ∷ [])
