-- ===== src/Codec/Encode/Slices.antt =====
-- Where the parts of a container of src/npb/_codec.py are found again.
use mathlib.Core.Path.{subst}
use npb.Prelude.{
  ℕ, ◌+◌, ◌-◌, ◌≤◌, ◌≡◌, refl, sym, ap, ◌∙◌, List, [], ◌∷◌, ◌++◌, append_assoc, arith, length,
  length-append, slice, slice-append, zeros, length-zeros,
}
use npb.Value.{NdArray, nbytes}
use npb.Format.{header_size, header_at}
use npb.Format.Pack.{header_image, length-header_image, header_at-header_image}
use npb.Codec.Encode.{Analysis, header_of, total_size_of}
use npb.Codec.Encode.Image.{
  IsPlaced, IsPlaced-le, data_image, length-data_image, IsAnalysis, image, layout_bounds,
  header_of-FitsHeader,
}

-- The bytes at each array's place are the array's, and its place lies before `stop`.
abbrev pub AllHold : List ℕ → ℕ → ℕ → List (ℕ × NdArray) → Type 0
AllHold bytes base stop [] = Unit {0}
AllHold bytes base stop ((off, a) ∷ arrays) =
    (slice bytes (base + off) (nbytes a) ≡ a.content)
    × (off + nbytes a ≤ stop)
    × AllHold bytes base stop arrays

data_image-AllHold :
    (arrays : List (ℕ × NdArray)) (base start stop : ℕ) (known rest : List ℕ)
    → IsPlaced arrays start stop
    → length known ≡ base + start
    → AllHold (known ++ (data_image arrays start ++ rest)) base stop arrays
data_image-AllHold [] base start stop known rest p here = tt
data_image-AllHold ((off, a) ∷ arrays) base start stop known rest (ordered, aligned, p) here =
    let gap = zeros (off - start) in
    let more = data_image arrays (off + nbytes a) in
    let size_gap = length-zeros (off - start) in
    let size_known = length-append known gap in
    let size_read = length-append (known ++ gap) a.content in
    let regroup : known ++ ((gap ++ (a.content ++ more)) ++ rest)
        ≡ (known ++ gap) ++ (a.content ++ (more ++ rest)) =
      simp append_assoc in
    let regroup' : known ++ ((gap ++ (a.content ++ more)) ++ rest)
        ≡ ((known ++ gap) ++ a.content) ++ (more ++ rest) =
      simp append_assoc in
    (
      ap (λ t. slice t (base + off) (nbytes a)) regroup
          ∙ slice-append (known ++ gap) a.content (more ++ rest) (base + off) (nbytes a)
              (omega arith) refl,
      IsPlaced-le arrays (off + nbytes a) stop p,
      subst (λ t. AllHold t base stop arrays) (sym regroup')
          (data_image-AllHold arrays base (off + nbytes a) stop ((known ++ gap) ++ a.content) rest p
            (omega arith)),
    )

module _ (an : Analysis) (valid : IsAnalysis an) where
  -- Everything before the data section.
  abbrev front : List ℕ
  front =
      header_image (header_of an)
      ++ (an.metadata_json ++ zeros (an.data_start - (header_size + length an.metadata_json)))

  length-front : length front ≡ an.data_start
  length-front =
      let json = an.metadata_json in
      let pad = zeros (an.data_start - (header_size + length json)) in
      let bounds = layout_bounds an valid in
      omega (
        arith,
        length-header_image (header_of an) (header_of-FitsHeader an valid),
        length-zeros (an.data_start - (header_size + length json)),
        length-append json pad,
        length-append (header_image (header_of an)) (json ++ pad),
      )

  image-eq-front :
      image an
      ≡ front
        ++ (data_image an.arrays 0 ++ zeros (total_size_of an - (an.data_start + an.data_bytes)))
  unfolding image
  image-eq-front = simp append_assoc

  -- A container has the length that its header states.
  pub length-image : length (image an) ≡ total_size_of an
  length-image =
      let section = data_image an.arrays 0 in
      let rest = zeros (total_size_of an - (an.data_start + an.data_bytes)) in
      let bounds = layout_bounds an valid in
      rw image-eq-front (
        omega (
          arith,
          length-front,
          length-zeros (total_size_of an - (an.data_start + an.data_bytes)),
          length-data_image an.arrays 0 an.data_bytes valid.placed,
          length-append section rest,
          length-append front (section ++ rest),
        ))

  pub image-AllHold : AllHold (image an) an.data_start an.data_bytes an.arrays
  image-AllHold = rw image-eq-front (
      data_image-AllHold an.arrays an.data_start 0 an.data_bytes front _ valid.placed
        (omega (arith, length-front)))

  pub header_at-image : header_at (image an) ≡ header_of an
  unfolding image
  header_at-image = header_at-header_image (header_of an) _ (header_of-FitsHeader an valid)

  pub metadata-image : slice (image an) header_size (length an.metadata_json) ≡ an.metadata_json
  unfolding image
  metadata-image =
      slice-append (header_image (header_of an)) an.metadata_json _ header_size
        (length an.metadata_json)
        (length-header_image (header_of an) (header_of-FitsHeader an valid)) refl
