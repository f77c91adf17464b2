-- ===== src/Codec/Encode/Image.antt =====
-- The bytes that encode of src/npb/_codec.py writes, whatever the output buffer held before.
use npb.Prelude.{
  ℕ, ◌+◌, ◌-◌, ◌%◌, ◌^◌, ◌≤◌, ◌<◌, max, ◌≡◌, refl, sym, ap, inl, inr, true, Option, none, some,
  List, [], ◌∷◌, ◌++◌, append_assoc, arith, ltb, if◌then◌else◌, Bool-cases, length, length-append,
  take, drop, length-take, length-drop, zeros, length-zeros,
}
use npb.Errors.{ok}
use npb.Value.{NdArray, nbytes, ndim}
use npb.Externals.{Externals}
use npb.Format.{
  array_alignment, Argument, array, other, align_up, frame_size, header_size, is_uint8,
}
use npb.Format.Align.{align_up_least}
use npb.Format.Pack.{FitsHeader, header_image}
use npb.Codec.Encode.{Analysis, fill_zero, prepare_output, write_arrays, total_size_of, header_of}
use npb.Codec.Encode.Splice.{assign-append, fill_zero-append, drop-drop}

-- The arrays stand one behind the other from `start` to `stop`, each at a multiple of the alignment.
abbrev pub IsPlaced : List (ℕ × NdArray) → ℕ → ℕ → Type 0
IsPlaced [] start stop = start ≡ stop
IsPlaced ((off, a) ∷ arrays) start stop =
    (start ≤ off) × (off % array_alignment ≡ 0) × IsPlaced arrays (off + nbytes a) stop

-- The data section from `start` on: the arrays' bytes, and zeros in the gaps.
abbrev pub data_image : List (ℕ × NdArray) → ℕ → List ℕ
data_image [] start = []
data_image ((off, a) ∷ arrays) start =
    zeros (off - start) ++ (a.content ++ data_image arrays (off + nbytes a))

pub IsPlaced-le :
    (arrays : List (ℕ × NdArray)) (start stop : ℕ) → IsPlaced arrays start stop → start ≤ stop
IsPlaced-le [] start stop p = omega arith
IsPlaced-le ((off, a) ∷ arrays) start stop (ordered, aligned, p) =
    omega (arith, IsPlaced-le arrays (off + nbytes a) stop p)

pub length-data_image :
    (arrays : List (ℕ × NdArray)) (start stop : ℕ)
    → IsPlaced arrays start stop
    → length (data_image arrays start) ≡ stop - start
length-data_image [] start stop p = omega arith
length-data_image ((off, a) ∷ arrays) start stop (ordered, aligned, p) =
    let rest = data_image arrays (off + nbytes a) in
    omega (
      arith,
      length-append (zeros (off - start)) (a.content ++ rest),
      length-append a.content rest,
      length-zeros (off - start),
      length-data_image arrays (off + nbytes a) stop p,
      IsPlaced-le arrays (off + nbytes a) stop p,
    )

-- The gap before an array is zero, also where the test finds none to fill.
fill_gap :
    (known junk : List ℕ) (data_start start off : ℕ)
    → length known ≡ data_start + start
    → start ≤ off
    → off - start ≤ length junk
    → (if ltb start off
        then fill_zero (known ++ junk) (data_start + start) (data_start + off)
        else known ++ junk)
      ≡ known ++ (zeros (off - start) ++ drop (off - start) junk)
fill_gap known junk data_start start off here ordered room = elim (Bool-cases (ltb start off)) [
  | inl gap ↦ rw gap (fill_zero-append known junk _ _ (off - start) (sym here) (omega arith) room)
  | inr none_left ↦ let same : off - start ≡ 0 = ground arith in rw (none_left, same) refl
]

-- The loop of encode writes the data section behind what is known, and leaves the rest.
pub write_arrays-image :
    (arrays : List (ℕ × NdArray)) (data_start start stop : ℕ) (known junk : List ℕ)
    → IsPlaced arrays start stop
    → length known ≡ data_start + start
    → stop - start ≤ length junk
    → write_arrays arrays data_start start (known ++ junk)
      ≡ ok (known ++ (data_image arrays start ++ drop (stop - start) junk))
unfolding write_arrays
write_arrays-image [] data_start start stop known junk p here room =
    let nothing : stop - start ≡ 0 = omega arith in rw nothing
write_arrays-image ((off, a) ∷ arrays) data_start start stop known junk (ordered, aligned, p) here
      room =
    let gap = zeros (off - start) in
    let ahead = drop (off - start) junk in
    let later = drop (nbytes a) ahead in
    let below = IsPlaced-le arrays (off + nbytes a) stop p in
    let size_gap = length-zeros (off - start) in
    let size_known = length-append known gap in
    let size_ahead = length-drop (off - start) junk in
    let size_later = length-drop (nbytes a) ahead in
    let size_written = length-append (known ++ gap) a.content in
    let tail : off - start + nbytes a + (stop - (off + nbytes a)) ≡ stop - start = omega arith in
    rw
      (
        fill_gap known junk data_start start off here ordered (omega arith),
        ← append_assoc known gap ahead,
        assign-append (known ++ gap) ahead a.content (data_start + off) (omega arith) (omega arith),
        ← append_assoc (known ++ gap) a.content later,
        write_arrays-image arrays data_start (off + nbytes a) stop ((known ++ gap) ++ a.content)
            later p (omega arith) (omega arith),
        drop-drop (nbytes a) (off - start) junk,
        drop-drop (stop - (off + nbytes a)) (off - start + nbytes a) junk,
        tail,
      )
      (simp append_assoc)

-- A buffer that encode can write `total_size` bytes into: none, or a writable 1-D C-contiguous uint8
-- array that is large enough.
abbrev pub IsOutput : Externals → Option Argument → ℕ → Type 0
IsOutput ext none total_size = length (ext.empty total_size) ≡ total_size
IsOutput ext (some other) total_size = ⊥
IsOutput ext (some (array out)) total_size =
    (is_uint8 out.dtype ≡ true)
    × (ndim out ≡ 1)
    × (out.c_contiguous ≡ true)
    × (out.writeable ≡ true)
    × (total_size ≤ nbytes out)

zero_prefix : (buf : List ℕ) (n : ℕ) → n ≤ length buf → fill_zero buf 0 n ≡ zeros n ++ drop n buf
zero_prefix buf n h = fill_zero-append [] buf 0 n n refl (omega arith) h

-- A suitable buffer starts with zeros up to the data section, and has its old bytes from there on.
pub prepare_output-ok :
    (ext : Externals) (out : Option Argument) (total_size data_start : ℕ)
    → IsOutput ext out total_size
    → data_start ≤ total_size
    → (junk : List ℕ) × (prepare_output ext out total_size data_start
        ≡ ok (zeros data_start ++ junk))
      × (length junk ≡ total_size - data_start)
unfolding prepare_output
prepare_output-ok ext none total_size data_start o h = (
  drop data_start (ext.empty total_size),
  ap ok (zero_prefix _ data_start (omega arith)),
  omega (arith, length-drop data_start (ext.empty total_size)),
)
prepare_output-ok ext (some other) total_size data_start o h = elim o [ ]
prepare_output-ok ext (some (array out)) total_size data_start o h =
    let view = take total_size out.content in
    let size = length-take total_size out.content in
    (
      drop data_start view,
      ground (arith, zero_prefix view data_start (omega arith)),
      omega (arith, length-drop data_start view),
    )

-- An analysis whose header fits its fields.
pub record IsAnalysis (an : Analysis) : Type 0 where
  pub schema_id_size : length an.schema_id ≡ 16
  pub schema_version_fits : an.schema_version < 2 ^ 32
  pub metadata_fits : length an.metadata_json < 2 ^ 32
  pub total_fits : total_size_of an < 2 ^ 64
  pub data_start_eq : an.data_start ≡ align_up (header_size + length an.metadata_json) frame_size
  pub placed : IsPlaced an.arrays 0 an.data_bytes

-- The container: header, metadata, zeros up to the data section, the arrays with zeros in the gaps,
-- zeros up to the last frame's end.
unfoldable pub image : Analysis → List ℕ
image an =
    header_image (header_of an)
    ++ (an.metadata_json
        ++ (zeros (an.data_start - (header_size + length an.metadata_json))
            ++ (data_image an.arrays 0
                ++ zeros (total_size_of an - (an.data_start + an.data_bytes)))))

module _ (an : Analysis) (valid : IsAnalysis an) where
  pub layout_bounds :
      (header_size + length an.metadata_json ≤ an.data_start)
      × (an.data_start + an.data_bytes ≤ total_size_of an)
      × (frame_size ≤ total_size_of an)
  layout_bounds =
      let start = align_up_least (header_size + length an.metadata_json) frame_size (omega arith) in
      let total =
        align_up_least (max (an.data_start + an.data_bytes) frame_size) frame_size (omega arith) in
      (rw valid.data_start_eq start.0, omega (arith, total.0), omega (arith, total.0))

  pub header_of-FitsHeader : FitsHeader (header_of an)
  header_of-FitsHeader =
      let (metadata, data_end, frame) = layout_bounds in
      let total = valid.total_fits in
      record {
        magic_fits = refl;
        version_fits = omega arith;
        flags_fits = omega arith;
        frame_fits = omega arith;
        schema_id_fits = valid.schema_id_size;
        schema_version_fits = valid.schema_version_fits;
        metadata_bytes_fits = valid.metadata_fits;
        data_start_fits = omega arith;
        data_bytes_fits = omega arith;
        encoded_bytes_fits = valid.total_fits;
      }
