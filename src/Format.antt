-- ===== src/Format.antt =====
-- src/npb/_format.py: the fixed header of a container and its checks.
pub mod Align
pub mod Pack
pub mod Checks
use npb.Prelude.{
  ℕ, ◌+◌, ◌-◌, ◌*◌, ◌/◌, ◌%◌, ◌^◌, Bool, not, List, [], ◌∷◌, ◌++◌, str_eq, ltb, ◌==◌, if◌then◌else◌,
  length, take, replicate, slice, list_eq, le, from_le, join,
}
use npb.Errors.{
  Result, ok, err, ◌>>=◌, ◌>>◌, raise_if, type_error, value_error, struct_error, format_error,
}
use npb.Value.{NdArray, Dtype, nbytes, ndim}

-- b"NPB1"
abbrev pub magic : List ℕ
magic = 0x4e ∷ 0x50 ∷ 0x42 ∷ 0x31 ∷ []

abbrev pub format_version : ℕ
format_version = 1

abbrev pub frame_size : ℕ
frame_size = 64 * 1024

abbrev pub array_alignment : ℕ
array_alignment = 64

-- HEADER.size
abbrev pub header_size : ℕ
header_size = 64

-- The fields of struct.Struct("<4sHHI16sIIQQQ4x"), in order. A UUID is its 16 bytes.
pub record Header : Type 0 where
  pub magic_bytes : List ℕ
  pub version : ℕ
  pub flags : ℕ
  pub frame : ℕ
  pub schema_id : List ℕ
  pub schema_version : ℕ
  pub metadata_bytes : ℕ
  pub data_start : ℕ
  pub data_bytes : ℕ
  pub encoded_bytes : ℕ

-- struct's H, I and Q, of 2, 4 and 8 bytes: struct.error outside the range.
unfoldable pub pack : ℕ → ℕ → Result (List ℕ)
pack w n = if ltb n (256 ^ w) then ok (le w n) else err struct_error

-- struct's 4s and 16s: cut or filled up with zeros.
unfoldable pub pack_bytes : ℕ → List ℕ → List ℕ
pack_bytes n bs = take n (bs ++ replicate n 0)

-- HEADER.pack
unfoldable pub pack_header : Header → Result (List ℕ)
pack_header h = do
  version ← pack 2 h.version
  flags ← pack 2 h.flags
  frame ← pack 4 h.frame
  schema_version ← pack 4 h.schema_version
  metadata_bytes ← pack 4 h.metadata_bytes
  data_start ← pack 8 h.data_start
  data_bytes ← pack 8 h.data_bytes
  encoded_bytes ← pack 8 h.encoded_bytes
  ok (
      join (
        pack_bytes 4 h.magic_bytes
        ∷ version
        ∷ flags
        ∷ frame
        ∷ pack_bytes 16 h.schema_id
        ∷ schema_version
        ∷ metadata_bytes
        ∷ data_start
        ∷ data_bytes
        ∷ encoded_bytes
        ∷ replicate 4 0
        ∷ []))

-- The fields of a header, on at least `header_size` bytes.
unfoldable pub header_at : List ℕ → Header
header_at b = record {
  magic_bytes = slice b 0 4;
  version = from_le (slice b 4 2);
  flags = from_le (slice b 6 2);
  frame = from_le (slice b 8 4);
  schema_id = slice b 12 16;
  schema_version = from_le (slice b 28 4);
  metadata_bytes = from_le (slice b 32 4);
  data_start = from_le (slice b 36 8);
  data_bytes = from_le (slice b 44 8);
  encoded_bytes = from_le (slice b 52 8);
}

-- HEADER.unpack_from(binary, 0), which raises struct.error on fewer bytes.
unfoldable pub unpack_header : List ℕ → Result Header
unfolding header_at
unpack_header b = if ltb (length b) header_size then err struct_error else ok (header_at b)

pub record BinaryInfo : Type 0 where
  pub format_version : ℕ
  pub frame_size : ℕ
  pub schema_id : List ℕ
  pub schema_version : ℕ
  pub metadata_bytes : ℕ
  pub data_start : ℕ
  pub data_bytes : ℕ
  pub total_bytes : ℕ

unfoldable pub frame_count : BinaryInfo → ℕ
frame_count info = info.total_bytes / info.frame_size

-- The callers' alignments are 64 and 65536, so `alignment - 1` does not go below 0.
unfoldable pub align_up : ℕ → ℕ → ℕ
align_up value alignment = (value + alignment - 1) / alignment * alignment

-- An argument whose type the code tests: an ndarray, or any other object.
pub data Argument : Type 0 where
  array : NdArray → Argument
  other : Argument

-- dtype == np.uint8
unfoldable pub is_uint8 : Dtype → Bool
is_uint8 d = str_eq d.name "|u1"

-- Returns the array that the argument was found to be.
unfoldable pub require_binary_array : Argument → Result NdArray
unfolding is_uint8
require_binary_array other = err type_error
require_binary_array (array b) = do
  raise_if (not (is_uint8 b.dtype)) type_error
  raise_if (not (ndim b == 1)) value_error
  raise_if (not b.c_contiguous) value_error
  ok b

-- The tests of parse_header on the unpacked fields, and what it returns.
unfoldable pub check_header : ℕ → Header → Result BinaryInfo
check_header size h = do
  raise_if (not (list_eq h.magic_bytes magic)) format_error
  raise_if (not (h.version == 1)) format_error
  raise_if (not (h.flags == 0)) format_error
  raise_if (not (h.frame == frame_size)) format_error
  raise_if (ltb h.encoded_bytes h.frame) format_error
  raise_if (ltb size h.encoded_bytes) format_error
  raise_if (not (h.encoded_bytes % h.frame == 0)) format_error
  let metadata_end = header_size + h.metadata_bytes
  raise_if (ltb h.data_start metadata_end) format_error
  raise_if (not (h.data_start % h.frame == 0)) format_error
  raise_if (ltb h.encoded_bytes (h.data_start + h.data_bytes)) format_error
  ok (record {
    format_version = h.version;
    frame_size = h.frame;
    schema_id = h.schema_id;
    schema_version = h.schema_version;
    metadata_bytes = h.metadata_bytes;
    data_start = h.data_start;
    data_bytes = h.data_bytes;
    total_bytes = h.encoded_bytes;
  })

unfoldable pub parse_header : Argument → Result BinaryInfo
unfolding unpack_header
parse_header binary = do
  b ← require_binary_array binary
  raise_if (ltb (nbytes b) header_size) format_error
  h ← unpack_header b.content
  check_header (nbytes b) h
