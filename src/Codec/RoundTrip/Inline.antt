-- ===== src/Codec/RoundTrip/Inline.antt =====
-- An inline array of src/npb/_codec.py is viewed where it was put.
use npb.Prelude.{ℕ, ◌+◌, ◌≤◌, ◌≡◌, refl, ap, ◌∙◌, map, arith, pos, slice}
use native.Mathlib.Nat.{mul-mod_left}
use npb.Errors.{ok, reraise}
use npb.Value.{NdArray, nbytes, product, get, text}
use npb.Externals.{Externals, IsArray, Documented, to_int, iterate}
use npb.Blob.{item_at}
use npb.Blob.RoundTrip.{to_ints-of_ints, pos_part-pos, any_negative-pos}
use npb.Codec.Manifest.{inline_fields, json_fallback}
use npb.Codec.Restore.Inline.{RawRef, read_inline, check_inline, view_inline, restore_inline}
use npb.Codec.RoundTrip.Trees.{view_of}

abbrev raw_of : ℕ → NdArray → RawRef
raw_of off a = record {
  offset = pos off;
  nbytes = pos (nbytes a);
  dtype = a.dtype;
  shape = map pos a.shape;
}

read_inline-raw_of :
    (ext : Externals) (off : ℕ) (a : NdArray)
    → ext.dtype_of (text a.dtype.name) ≡ ok a.dtype
    → read_inline ext (inline_fields off a) ≡ ok (raw_of off a)
unfolding read_inline inline_fields item_at get to_int iterate
read_inline-raw_of ext off a known = rw (known, to_ints-of_ints ext (map pos a.shape))

check_inline-ok :
    (ext : Externals) (b : NdArray) (base stop off : ℕ) (a : NdArray)
    → IsArray ext a
    → off + nbytes a ≤ stop
    → base + stop ≤ nbytes b
    → check_inline b base stop (raw_of off a) ≡ ok tt
unfolding check_inline
check_inline-ok ext b base stop off a valid fits room = ground (
  arith,
  any_negative-pos a.shape,
  pos_part-pos a.shape,
  mul-mod_left (product a.shape) a.dtype.itemsize,
)

view_inline-raw_of :
    (ext : Externals) (doc : Documented ext (json_fallback ext)) (b : NdArray) (base off : ℕ)
    (a : NdArray)
    → IsArray ext a
    → slice b.content (base + off) (nbytes a) ≡ a.content
    → base + off + nbytes a ≤ nbytes b
    → view_inline ext b base (raw_of off a) ≡ ok (view_of b.writeable a)
unfolding view_inline
view_inline-raw_of ext doc b base off a valid here room =
    let view =
      doc.from_buffer_view b a.dtype (product a.shape) (base + off) a.shape valid.plain refl
        (omega (arith, valid.filled)) in
    ap (λ shape. ext.from_buffer b a.dtype (product shape) (base + off) shape)
      (pos_part-pos a.shape)
    ∙ view
    ∙ rw (← valid.filled, here)

-- In a container that holds `a` at `off`, the reference that encode wrote is read back as a view.
pub restore_inline-holds :
    (ext : Externals) (doc : Documented ext (json_fallback ext)) (b : NdArray) (base stop off : ℕ)
    (a : NdArray)
    → IsArray ext a
    → slice b.content (base + off) (nbytes a) ≡ a.content
    → off + nbytes a ≤ stop
    → base + stop ≤ nbytes b
    → restore_inline ext b base stop (inline_fields off a) ≡ ok (view_of b.writeable a)
unfolding restore_inline reraise
restore_inline-holds ext doc b base stop off a valid here fits room =
    rw
      (
        read_inline-raw_of ext off a valid.known,
        check_inline-ok ext b base stop off a valid fits room,
      )
      (view_inline-raw_of ext doc b base off a valid here (omega arith))
