-- ===== src/Format/Pack.antt =====
-- The header struct of src/npb/_format.py reads back what it packed.
use npb.Prelude.{
  ℕ, ◌^◌, ◌<◌, ◌≡◌, refl, ap, ◌∙◌, some, List, [], ◌∷◌, ◌++◌, arith, lt→ltb, length, get_elem?,
  length-append, replicate, slice, le, from_le, length-le, from_le-le, take-append_length, join,
  offset_of, slice-join, take-append_length,
}
use npb.Errors.{ok}
use npb.Format.{pack_bytes, header_at, Header, pack, pack_header}

pub pack-ok : (w n : ℕ) → n < 256 ^ w → pack w n ≡ ok (le w n)
unfolding pack
pack-ok w n h = rw (lt→ltb _ _ h)

pub pack_bytes-eq : (n : ℕ) (bs : List ℕ) → length bs ≡ n → pack_bytes n bs ≡ bs
unfolding pack_bytes
pack_bytes-eq n bs h = take-append_length bs (replicate n 0) n h

-- The fields fit their widths.
pub record FitsHeader (h : Header) : Type 0 where
  pub magic_fits : length h.magic_bytes ≡ 4
  pub version_fits : h.version < 2 ^ 16
  pub flags_fits : h.flags < 2 ^ 16
  pub frame_fits : h.frame < 2 ^ 32
  pub schema_id_fits : length h.schema_id ≡ 16
  pub schema_version_fits : h.schema_version < 2 ^ 32
  pub metadata_bytes_fits : h.metadata_bytes < 2 ^ 32
  pub data_start_fits : h.data_start < 2 ^ 64
  pub data_bytes_fits : h.data_bytes < 2 ^ 64
  pub encoded_bytes_fits : h.encoded_bytes < 2 ^ 64

-- The fields' bytes.
abbrev pub header_parts : Header → List (List ℕ)
header_parts h =
    h.magic_bytes
    ∷ le 2 h.version
    ∷ le 2 h.flags
    ∷ le 4 h.frame
    ∷ h.schema_id
    ∷ le 4 h.schema_version
    ∷ le 4 h.metadata_bytes
    ∷ le 8 h.data_start
    ∷ le 8 h.data_bytes
    ∷ le 8 h.encoded_bytes
    ∷ replicate 4 0
    ∷ []

unfoldable pub header_image : Header → List ℕ
header_image h = join (header_parts h)

pub pack_header-ok : (h : Header) → FitsHeader h → pack_header h ≡ ok (header_image h)
unfolding pack_header header_image
pack_header-ok h f = rw (
  pack-ok 2 h.version f.version_fits,
  pack-ok 2 h.flags f.flags_fits,
  pack-ok 4 h.frame f.frame_fits,
  pack-ok 4 h.schema_version f.schema_version_fits,
  pack-ok 4 h.metadata_bytes f.metadata_bytes_fits,
  pack-ok 8 h.data_start f.data_start_fits,
  pack-ok 8 h.data_bytes f.data_bytes_fits,
  pack-ok 8 h.encoded_bytes f.encoded_bytes_fits,
  pack_bytes-eq 4 h.magic_bytes f.magic_fits,
  pack_bytes-eq 16 h.schema_id f.schema_id_fits,
)

pub length-header_image : (h : Header) → FitsHeader h → length (header_image h) ≡ 64
unfolding header_image
length-header_image h f = omega (arith, length-append {0}, length-le)

part_at :
    (h : Header) (rest : List ℕ) (i lo n : ℕ) {p : List ℕ}
    → get_elem? (header_parts h) i ≡ some p
    → offset_of (header_parts h) i ≡ lo
    → length p ≡ n
    → slice (header_image h ++ rest) lo n ≡ p
unfolding header_image
part_at h rest i lo n g o l = slice-join (header_parts h) i rest lo n g o l

word_at :
    (h : Header) (rest : List ℕ) (i lo w v : ℕ)
    → get_elem? (header_parts h) i ≡ some (le w v)
    → offset_of (header_parts h) i ≡ lo
    → v < 256 ^ w
    → from_le (slice (header_image h ++ rest) lo w) ≡ v
word_at h rest i lo w v g o fits =
    ap from_le (part_at h rest i lo w g o (length-le w v)) ∙ from_le-le w v fits

-- HEADER.unpack_from gives back the fields that HEADER.pack_into wrote, whatever follows them.
pub header_at-header_image :
    (h : Header) (rest : List ℕ) → FitsHeader h → header_at (header_image h ++ rest) ≡ h
unfolding header_at
header_at-header_image h rest f = λ i. record {
  magic_bytes = part_at h rest 0 0 4 refl refl f.magic_fits i;
  version = word_at h rest 1 4 2 h.version refl (omega (arith, length-le)) f.version_fits i;
  flags = word_at h rest 2 6 2 h.flags refl (omega (arith, length-le)) f.flags_fits i;
  frame = word_at h rest 3 8 4 h.frame refl (omega (arith, length-le)) f.frame_fits i;
  schema_id = part_at h rest 4 12 16 refl (omega (arith, length-le)) f.schema_id_fits i;
  schema_version =
      word_at h rest 5 28 4 h.schema_version refl (omega (arith, length-le)) f.schema_version_fits
        i;
  metadata_bytes =
      word_at h rest 6 32 4 h.metadata_bytes refl (omega (arith, length-le)) f.metadata_bytes_fits
        i;
  data_start =
      word_at h rest 7 36 8 h.data_start refl (omega (arith, length-le)) f.data_start_fits i;
  data_bytes =
      word_at h rest 8 44 8 h.data_bytes refl (omega (arith, length-le)) f.data_bytes_fits i;
  encoded_bytes =
      word_at h rest 9 52 8 h.encoded_bytes refl (omega (arith, length-le)) f.encoded_bytes_fits i;
}
