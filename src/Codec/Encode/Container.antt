-- ===== src/Codec/Encode/Container.antt =====
-- That encode of src/npb/_codec.py writes the image of its analysis.
use npb.Prelude.{
  ℕ, ◌+◌, ◌-◌, ◌≤◌, ◌≡◌, refl, sym, inl, inr, false, Option, List, ◌++◌, append_assoc, append-nil,
  arith, ltb, if◌then◌else◌, Bool-cases, length, length-append, drop, length-drop, zeros,
  length-zeros,
}
use npb.Errors.{ok}
use npb.Errors
use npb.Externals.{Externals}
use npb.Format.{Argument, Header, header_size}
use npb.Format.Pack.{FitsHeader, header_image, pack_header-ok, length-header_image}
use npb.Codec.Encode.{
  Analysis, assign, fill_zero, pack_into, write_arrays, total_size_of, header_of, write_container,
}
use npb.Codec.Encode.Splice.{assign-append, fill_zero-append, drop-all, drop-zeros-append}
use npb.Codec.Encode.Image.{
  IsPlaced, data_image, length-data_image, write_arrays-image, IsOutput, prepare_output-ok,
  IsAnalysis, image, layout_bounds, header_of-FitsHeader,
}

-- The header goes over the first 64 of the zeros.
pack_into-zeros :
    (h : Header) (data_start : ℕ) (junk : List ℕ)
    → FitsHeader h
    → header_size ≤ data_start
    → pack_into (zeros data_start ++ junk) h
      ≡ ok (header_image h ++ (zeros (data_start - header_size) ++ junk))
unfolding pack_into
pack_into-zeros h data_start junk fits room =
    let whole : header_size ≤ length (zeros data_start ++ junk) =
      omega (arith, length-append (zeros data_start) junk, length-zeros data_start) in
    let enough : ltb (length (zeros data_start ++ junk)) header_size ≡ false = ground arith in
    rw (pack_header-ok h fits, enough, drop-zeros-append header_size data_start junk room)

-- The metadata goes behind the header.
assign-metadata :
    (head json junk : List ℕ) (room : ℕ)
    → length head ≡ header_size
    → length json ≤ room
    → assign (head ++ (zeros room ++ junk)) header_size (header_size + length json) json
      ≡ ok (head ++ (json ++ (zeros (room - length json) ++ junk)))
assign-metadata head json junk room size fits = rw (
  assign-append head (zeros room ++ junk) json header_size (sym size)
      (omega (arith, length-append (zeros room) junk, length-zeros room)),
  drop-zeros-append (length json) room junk fits,
)

-- The frame's rest is zero, also where the test finds nothing to fill.
fill_rest :
    (known junk : List ℕ) (stop total : ℕ)
    → length known ≡ stop
    → stop + length junk ≡ total
    → (if ltb stop total then fill_zero (known ++ junk) stop total else known ++ junk)
      ≡ known ++ zeros (total - stop)
fill_rest known junk stop total here size = elim (Bool-cases (ltb stop total)) [
  | inl gap ↦ rw (
    gap,
    fill_zero-append known junk stop total (total - stop) (sym here) (omega arith) (omega arith),
    drop-all (total - stop) junk (omega arith),
    append-nil,
  )
  | inr full ↦
      let nothing : total - stop ≡ 0 = ground arith in
      let no_junk : length junk ≡ 0 = ground arith in
      rw (full, nothing, drop-all 0 junk (omega arith)) refl
]

-- What is left of write_container once the metadata is written.
fill_data :
    (an : Analysis) (known junk : List ℕ) (total : ℕ)
    → IsPlaced an.arrays 0 an.data_bytes
    → length known ≡ an.data_start
    → an.data_start + length junk ≡ total
    → an.data_start + an.data_bytes ≤ total
    → Errors.◌>>=◌ (write_arrays an.arrays an.data_start 0 (known ++ junk)) (λ filled. ok (
        if ltb (an.data_start + an.data_bytes) total
        then fill_zero filled (an.data_start + an.data_bytes) total
        else filled))
      ≡ ok (known ++ (data_image an.arrays 0 ++ zeros (total - (an.data_start + an.data_bytes))))
fill_data an known junk total placed here size fits =
    let section = data_image an.arrays 0 in
    let later = drop an.data_bytes junk in
    let all : an.data_bytes - 0 ≡ an.data_bytes = omega arith in
    let size_section = length-data_image an.arrays 0 an.data_bytes placed in
    let size_known = length-append known section in
    let size_later = length-drop an.data_bytes junk in
    rw (
      write_arrays-image an.arrays an.data_start 0 an.data_bytes known junk placed (omega arith)
          (omega arith),
      all,
      ← append_assoc known section later,
      fill_rest (known ++ section) later (an.data_start + an.data_bytes) total (omega arith)
          (omega arith),
      append_assoc known section,
    )

-- encode writes the image of the analysis, into a fresh buffer or over any bytes that the caller's
-- buffer held.
pub write_container-image :
    (ext : Externals) (out : Option Argument) (an : Analysis)
    → IsAnalysis an
    → IsOutput ext out (total_size_of an)
    → write_container ext out an ≡ ok (image an)
unfolding write_container image
write_container-image ext out an valid output =
    let (metadata, data_end, frame) = layout_bounds an valid in
    let (junk, prepared, size) =
      prepare_output-ok ext out (total_size_of an) an.data_start output (omega arith) in
    let head = header_image (header_of an) in
    let json = an.metadata_json in
    let fits = header_of-FitsHeader an valid in
    let size_head = length-header_image (header_of an) fits in
    let pad_size : an.data_start - header_size - length json
        ≡ an.data_start - (header_size + length json) =
      omega arith in
    let pad = zeros (an.data_start - (header_size + length json)) in
    let size_pad = length-zeros (an.data_start - (header_size + length json)) in
    let size_json = length-append json pad in
    let size_known = length-append head (json ++ pad) in
    rw
      (
        prepared,
        pack_into-zeros (header_of an) an.data_start junk fits (omega arith),
        assign-metadata head json junk (an.data_start - header_size) size_head (omega arith),
        pad_size,
        ← append_assoc json pad junk,
        ← append_assoc head (json ++ pad) junk,
        fill_data an (head ++ (json ++ pad)) junk (total_size_of an) valid.placed (omega arith)
            (omega arith) data_end,
      )
      (simp append_assoc)
