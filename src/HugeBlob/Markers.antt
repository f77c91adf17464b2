-- ===== src/HugeBlob/Markers.antt =====
-- make_sparse_blob and check_markers of examples/iceoryx2_huge_blob/common.py.
use mathlib.Core.List.{reverse, reverse_aux}
use native.Mathlib.Nat.{zero-add}
use npb.Prelude.{
  ℕ, zero, suc, ◌+◌, ◌-◌, ◌*◌, ◌≤◌, ◌<◌, ◌≡◌, refl, sym, ap, ◌∙◌, false, List, [], ◌∷◌, ◌++◌,
  append_assoc, append-nil, arith, ltb, lt→ltb, length, length-append, take, drop, list_eq_refl,
  take-append_length, drop-append_length, zeros, length-zeros, take-append_length,
  drop-append_length,
}
use npb.Errors.{ok, err, value_error}
use npb.Value.{NdArray, nbytes}
use npb.Codec.Encode.{assign, byte_array}
use npb.Codec.Encode.Splice.{assign-append, drop-zeros-append}
use npb.HugeBlob.{count_up, marker, sparse_bytes, make_sparse_blob, check_markers}

length-count_up : (first n : ℕ) → length (count_up first n) ≡ n
unfolding count_up
length-count_up first zero = refl
length-count_up first (suc n) = ap suc (length-count_up (suc first) n)

pub length-marker : (n : ℕ) → length (marker n) ≡ n
unfolding marker
length-marker n = length-count_up 0 n

length-reverse_aux : (xs ys : List ℕ) → length (reverse_aux xs ys) ≡ length xs + length ys
length-reverse_aux [] ys = omega arith
length-reverse_aux (x ∷ xs) ys = omega (arith, length-reverse_aux xs (x ∷ ys))

length-tail : (n : ℕ) → length (reverse (marker n)) ≡ n
length-tail n = omega (arith, length-reverse_aux (marker n) [], length-marker n)

zeros-add : (n m : ℕ) → zeros (n + m) ≡ zeros n ++ zeros m
zeros-add zero m = ap zeros (zero-add m)
zeros-add (suc n) m =
    let next : suc n + m ≡ suc (n + m) = omega arith in rw next (ap (λ l. 0 ∷ l) (zeros-add n m))

drop-zeros : (n m : ℕ) → n ≤ m → drop n (zeros m) ≡ zeros (m - n)
drop-zeros n m h =
    ap (drop n) (sym (append-nil (zeros m)))
    ∙ drop-zeros-append n m [] h
    ∙ append-nil (zeros (m - n))

assign_at :
    (known junk src : List ℕ) (lo hi : ℕ)
    → lo ≡ length known
    → hi ≡ lo + length src
    → length src ≤ length junk
    → assign (known ++ junk) lo hi src ≡ ok (known ++ (src ++ drop (length src) junk))
assign_at known junk src lo hi at ends room = rw ends (assign-append known junk src lo at room)

-- Both markers, and zeros between them.
abbrev pub sparse : (marker_bytes size_bytes : ℕ) → List ℕ
sparse marker_bytes size_bytes =
    (marker marker_bytes ++ zeros (size_bytes - 2 * marker_bytes)) ++ reverse (marker marker_bytes)

module _ (marker_bytes size_bytes : ℕ) (room : 2 * marker_bytes ≤ size_bytes) where
  front_bytes :
      assign (zeros size_bytes) 0 marker_bytes (marker marker_bytes)
      ≡ ok ((marker marker_bytes ++ zeros (size_bytes - 2 * marker_bytes)) ++ zeros marker_bytes)
  front_bytes =
      let m = marker marker_bytes in
      let size = length-marker marker_bytes in
      let rest : size_bytes - marker_bytes ≡ (size_bytes - 2 * marker_bytes) + marker_bytes =
        omega arith in
      assign_at [] (zeros size_bytes) m 0 marker_bytes refl (omega arith)
        (omega (arith, length-zeros size_bytes))
      ∙ ap (λ l. ok (m ++ l))
          (ap (λ k. drop k (zeros size_bytes)) size
            ∙ drop-zeros marker_bytes size_bytes (omega arith)
            ∙ ap zeros rest
            ∙ zeros-add (size_bytes - 2 * marker_bytes) marker_bytes)
      ∙ ap ok (sym (append_assoc m (zeros (size_bytes - 2 * marker_bytes)) (zeros marker_bytes)))

  tail_bytes :
      assign
        ((marker marker_bytes ++ zeros (size_bytes - 2 * marker_bytes)) ++ zeros marker_bytes)
        (size_bytes - marker_bytes)
        size_bytes
        (reverse (marker marker_bytes))
      ≡ ok (sparse marker_bytes size_bytes)
  tail_bytes =
      let known = marker marker_bytes ++ zeros (size_bytes - 2 * marker_bytes) in
      let tail = reverse (marker marker_bytes) in
      let size = length-tail marker_bytes in
      let sum = length-append (marker marker_bytes) (zeros (size_bytes - 2 * marker_bytes)) in
      assign_at known (zeros marker_bytes) tail (size_bytes - marker_bytes) size_bytes
        (omega
          (arith, sum, length-marker marker_bytes, length-zeros (size_bytes - 2 * marker_bytes)))
        (omega (arith, size)) (omega (arith, size, length-zeros marker_bytes))
      ∙ ap (λ l. ok (known ++ l))
          (ap (λ l. tail ++ l)
              (ap (λ k. drop k (zeros marker_bytes)) size
                ∙ drop-zeros marker_bytes marker_bytes (omega arith)
                ∙ ap zeros (none_left marker_bytes))
            ∙ append-nil tail)
    where
      none_left : (n : ℕ) → n - n ≡ 0
      none_left n = omega arith

  sparse_bytes_lem : sparse_bytes marker_bytes size_bytes ≡ ok (sparse marker_bytes size_bytes)
  unfolding sparse_bytes
  sparse_bytes_lem = rw (front_bytes, tail_bytes) refl

  length-sparse : length (sparse marker_bytes size_bytes) ≡ size_bytes
  length-sparse =
      let zs = zeros (size_bytes - 2 * marker_bytes) in
      let m = marker marker_bytes in
      omega (
        arith,
        length-append (m ++ zs) (reverse m),
        length-append m zs,
        length-marker marker_bytes,
        length-tail marker_bytes,
        length-zeros (size_bytes - 2 * marker_bytes),
      )

  take-sparse : take marker_bytes (sparse marker_bytes size_bytes) ≡ marker marker_bytes
  take-sparse =
      let zs = zeros (size_bytes - 2 * marker_bytes) in
      let m = marker marker_bytes in
      ap (take marker_bytes) (append_assoc m zs (reverse m))
      ∙ take-append_length m (zs ++ reverse m) marker_bytes (length-marker marker_bytes)

  drop-sparse :
      drop (length (sparse marker_bytes size_bytes) - marker_bytes) (sparse marker_bytes size_bytes)
      ≡ reverse (marker marker_bytes)
  drop-sparse =
      let zs = zeros (size_bytes - 2 * marker_bytes) in
      let m = marker marker_bytes in
      let n = length (m ++ zs) in
      let from : length (sparse marker_bytes size_bytes) - marker_bytes ≡ n + 0 =
        omega (arith, length-append (m ++ zs) (reverse m), length-tail marker_bytes) in
      ap (λ k. drop k (sparse marker_bytes size_bytes)) from
      ∙ drop-append_length (m ++ zs) (reverse m) n 0 refl

  check_markers-sparse : check_markers marker_bytes (sparse marker_bytes size_bytes) ≡ ok tt
  unfolding check_markers
  check_markers-sparse =
      rw
        (
          take-sparse,
          drop-sparse,
          list_eq_refl (marker marker_bytes),
          list_eq_refl (reverse (marker marker_bytes)),
        )
        refl

  pub make_sparse_blob_lem :
      make_sparse_blob marker_bytes size_bytes ≡ ok (byte_array (sparse marker_bytes size_bytes))
  unfolding make_sparse_blob
  make_sparse_blob_lem =
      let wide : ltb size_bytes (2 * marker_bytes) ≡ false = ground arith in
      rw (wide, sparse_bytes_lem) refl

  -- For a size that holds both markers, make_sparse_blob returns an array of that many bytes, which passes
  -- check_markers.
  pub check_markers-make_sparse_blob :
      (blob : NdArray) × ((make_sparse_blob marker_bytes size_bytes ≡ ok blob)
        × ((nbytes blob ≡ size_bytes) × (check_markers marker_bytes blob.content ≡ ok tt)))
  check_markers-make_sparse_blob = (
    byte_array (sparse marker_bytes size_bytes),
    (make_sparse_blob_lem, (length-sparse, check_markers-sparse)),
  )

-- A smaller size is refused.
pub make_sparse_blob_small :
    (marker_bytes size_bytes : ℕ)
    → size_bytes < 2 * marker_bytes
    → make_sparse_blob marker_bytes size_bytes ≡ err value_error
unfolding make_sparse_blob
make_sparse_blob_small marker_bytes size_bytes small =
    rw (lt→ltb size_bytes (2 * marker_bytes) small) refl
