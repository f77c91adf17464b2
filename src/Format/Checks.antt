-- ===== src/Format/Checks.antt =====
-- What parse_header of src/npb/_format.py accepts.
use npb.Prelude.{
  ℕ, ◌+◌, ◌%◌, ◌≤◌, ◌≡◌, refl, sym, ap, ◌∙◌, ◌↔◌, ◌⊎◌, inl, inr, true, false, arith, ltb, ◌==◌,
  ==_iff, Bool-cases, list_eq_iff,
}
use npb.Errors.{Exn, ok, err, type_error, value_error, format_error}
use npb.Value.{NdArray, nbytes, ndim}
use npb.Format.{
  Header, BinaryInfo, array, magic, frame_size, header_size, is_uint8, require_binary_array,
  check_header, header_at, unpack_header, parse_header,
}

-- A 1-D C-contiguous uint8 array.
pub record IsBinary (b : NdArray) : Type 0 where
  pub uint8 : is_uint8 b.dtype ≡ true
  pub flat : ndim b ≡ 1
  pub contiguous : b.c_contiguous ≡ true

-- The layout that a container's header must describe, in a buffer of `size` bytes.
pub record IsLayout (size : ℕ) (h : Header) : Type 0 where
  pub magic_eq : h.magic_bytes ≡ magic
  pub version_eq : h.version ≡ 1
  pub flags_eq : h.flags ≡ 0
  pub frame_eq : h.frame ≡ frame_size
  pub one_frame : frame_size ≤ h.encoded_bytes
  pub in_buffer : h.encoded_bytes ≤ size
  pub whole_frames : h.encoded_bytes % frame_size ≡ 0
  pub metadata_before_data : header_size + h.metadata_bytes ≤ h.data_start
  pub data_aligned : h.data_start % frame_size ≡ 0
  pub data_inside : h.data_start + h.data_bytes ≤ h.encoded_bytes

abbrev pub info_of : Header → BinaryInfo
info_of h = record {
  format_version = h.version;
  frame_size = h.frame;
  schema_id = h.schema_id;
  schema_version = h.schema_version;
  metadata_bytes = h.metadata_bytes;
  data_start = h.data_start;
  data_bytes = h.data_bytes;
  total_bytes = h.encoded_bytes;
}

pub check_header-ok :
    (size : ℕ) (h : Header) → IsLayout size h → check_header size h ≡ ok (info_of h)
unfolding check_header
check_header-ok size h l = ground (arith, list_eq_iff h.magic_bytes magic)

pub check_header-IsLayout :
    (size : ℕ) (h : Header) {info : BinaryInfo}
    → check_header size h ≡ ok info
    → IsLayout size h × (info ≡ info_of h)
unfolding check_header
check_header-IsLayout size h e = ground (arith, list_eq_iff h.magic_bytes magic)

check_header-err :
    (size : ℕ) (h : Header) {e : Exn} → check_header size h ≡ err e → e ≡ format_error
unfolding check_header
check_header-err size h p = ground arith

-- What parse_header comes to before it looks at the header's fields.
parse_header-cases :
    (b : NdArray)
    → ((is_uint8 b.dtype ≡ false) × (parse_header (array b) ≡ err type_error))
      ⊎ ((((is_uint8 b.dtype ≡ true) × ¬ IsBinary b) × (parse_header (array b) ≡ err value_error))
          ⊎ (((IsBinary b × ¬ (header_size ≤ nbytes b))
                × (parse_header (array b) ≡ err format_error))
              ⊎ ((IsBinary b × (header_size ≤ nbytes b))
                  × (parse_header (array b) ≡ check_header (nbytes b) (header_at b.content)))))
unfolding parse_header require_binary_array unpack_header
parse_header-cases b = elim (Bool-cases (is_uint8 b.dtype)) [
  | inr another ↦ inl (another, rw another refl)
  | inl uint8 ↦ elim (Bool-cases (ndim b == 1)) [
    | inr deep ↦ inr (
        inl (
          (uint8, λ valid. ground (arith, deep, valid.flat, ==_iff (ndim b) 1)),
          rw (uint8, deep) refl,
        ))
    | inl flat ↦ elim (Bool-cases b.c_contiguous) [
      | inr strided ↦
          inr
            (inl ((uint8, λ valid. cc (strided, valid.contiguous)), rw (uint8, flat, strided) refl))
      | inl contiguous ↦
          let binary : IsBinary b = record {
            uint8 = uint8;
            flat = (==_iff (ndim b) 1).0 flat;
            contiguous = contiguous;
          } in
          elim (Bool-cases (ltb (nbytes b) header_size)) [
            | inl small ↦ inr (
                inr (
                  inl (
                    (binary, λ room. ground (arith, small, room)),
                    rw (uint8, flat, contiguous, small) refl,
                  )))
            | inr room ↦ inr (
                inr (inr ((binary, ground (arith, room)), rw (uint8, flat, contiguous, room) refl)))
          ]
    ]
  ]
]

-- On an ndarray `b`, parse_header returns `info` exactly when `b` is a 1-D C-contiguous uint8 array of
-- at least 64 bytes whose first 64 bytes describe a layout that fits `b`, and `info` is what they say.
pub parse_header_iff :
    (b : NdArray) (info : BinaryInfo)
    → (parse_header (array b) ≡ ok info) ↔ (
        IsBinary b
        × (header_size ≤ nbytes b)
        × IsLayout (nbytes b) (header_at b.content)
        × (info ≡ info_of (header_at b.content)))
parse_header_iff b info = elim (parse_header-cases b) [
  | inl (another, raised) ↦
      (λ e. cc, λ (valid, _, _, _). let never : false ≡ true = sym another ∙ valid.uint8 in cc)
  | inr (inl ((uint8, others), raised)) ↦ (λ e. cc, λ (valid, _, _, _). absurd (others valid))
  | inr (inr (inl ((binary, small), raised))) ↦ (λ e. cc, λ (_, room, _, _). absurd (small room))
  | inr (inr (inr ((binary, room), checked))) ↦ (
    λ e.
        let (layout, said) =
          check_header-IsLayout (nbytes b) (header_at b.content) {info = info} (sym checked ∙ e) in
        (binary, room, layout, said),
    λ (_, _, layout, said).
        checked ∙ check_header-ok (nbytes b) (header_at b.content) layout ∙ ap ok (sym said),
  )
]

-- What a buffer must be for its header to be accepted, from 64 bytes on.
abbrev pub HasLayout : NdArray → Type 0
HasLayout b = (header_size ≤ nbytes b) × IsLayout (nbytes b) (header_at b.content)

-- Where parse_header raises on an ndarray, it is a TypeError for another dtype than uint8, a ValueError for a
-- uint8 array that is not 1-D and C-contiguous, and a FormatError for a 1-D C-contiguous uint8 array that is too
-- small for a header or whose header describes no layout that fits it. It raises nothing else.
pub parse_header_raises :
    (b : NdArray) (e : Exn)
    → parse_header (array b) ≡ err e
    → ((e ≡ type_error) × (is_uint8 b.dtype ≡ false))
      ⊎ (((e ≡ value_error) × ((is_uint8 b.dtype ≡ true) × ¬ IsBinary b))
          ⊎ ((e ≡ format_error) × (IsBinary b × ¬ HasLayout b)))
parse_header_raises b e p = elim (parse_header-cases b) [
  | inl (another, raised) ↦ inl (cc, another)
  | inr (inl ((uint8, others), raised)) ↦ inr (inl (cc, (uint8, others)))
  | inr (inr (inl ((binary, small), raised))) ↦ inr (inr (cc, (binary, λ layout. small layout.0)))
  | inr (inr (inr ((binary, room), checked))) ↦
      let refused : check_header (nbytes b) (header_at b.content) ≡ err e = sym checked ∙ p in
      inr (
        inr (
          check_header-err (nbytes b) (header_at b.content) refused,
          (
            binary,
            λ layout.
                let accepted = check_header-ok (nbytes b) (header_at b.content) layout.1 in cc,
          ),
        ))
]
