-- ===== src/VineyardChain/Facts.antt =====
-- What each stage of examples/vineyard_chain keeps of a message, and what it writes to it.
use mathlib.Core.Path.{subst}
use npb.Prelude.{ℕ, suc, ◌<◌, ◌≡◌, refl, sym, ap, ◌∙◌, some, List, [], ◌∷◌, map, arith, ℤ}
use npb.Value.{leaf, int, NdArray, dict, get, only_key}
use npb.Externals.{Externals, IsArray, IsPlain}
use npb.Codec.RoundTrip.Trees.{
  IsCarried, seen, seen_items, seen_fields, seen_option, get-seen_fields,
}
use npb.Codec.RoundTrip.External.{IsOwn}
use npb.VineyardChain.{Tensor, ChainMessage, tensor_items, message_fields, restaged}
use npb.Value.Dicts.{get-set_item_self}
use npb.VineyardChain.Carried.{seen-IsOwn, set_item-IsOwn}

-- The same elements; the flags may differ.
pub record SameArray (a b : NdArray) : Type 0 where
  pub dtype_eq : a.dtype ≡ b.dtype
  pub shape_eq : a.shape ≡ b.shape
  pub content_eq : a.content ≡ b.content

SameArray-refl : (a : NdArray) → SameArray a a
SameArray-refl a = record { dtype_eq = refl; shape_eq = refl; content_eq = refl }

SameArray-trans : {a b c : NdArray} → SameArray a b → SameArray b c → SameArray a c
SameArray-trans p q = record {
  dtype_eq = p.dtype_eq ∙ q.dtype_eq;
  shape_eq = p.shape_eq ∙ q.shape_eq;
  content_eq = p.content_eq ∙ q.content_eq;
}

pub SameArray-IsArray :
    (ext : Externals) {a b : NdArray} → SameArray a b → IsArray ext b → IsArray ext a
SameArray-IsArray ext {a} {b} same valid = record {
  plain = subst IsPlain (sym same.dtype_eq) valid.plain;
  known = rw same.dtype_eq valid.known;
  filled = rw (same.dtype_eq, same.shape_eq, same.content_eq) valid.filled;
}

abbrev pub AllSame : List Tensor → List Tensor → Type 0
AllSame [] [] = Unit {0}
AllSame (t ∷ ts) (u ∷ us) = (t.name ≡ u.name) × (SameArray t.values u.values × AllSame ts us)
AllSame _ _ = ⊥

AllSame-refl : (ts : List Tensor) → AllSame ts ts
AllSame-refl [] = tt
AllSame-refl (t ∷ ts) = (refl, (SameArray-refl t.values, AllSame-refl ts))

-- A message as decoding gives it back.
abbrev seen_tensor : (NdArray → NdArray) → Tensor → Tensor
seen_tensor view t = record t { values = view t.values }

abbrev pub seen_message : (NdArray → NdArray) → ChainMessage → ChainMessage
seen_message view m = record m {
  meta = seen_fields view m.meta;
  image = view m.image;
  tensors = map (seen_tensor view) m.tensors;
}

seen-tensor_items :
    (view : NdArray → NdArray) (ts : List Tensor)
    → seen_items view (tensor_items ts) ≡ tensor_items (map (seen_tensor view) ts)
unfolding seen tensor_items
seen-tensor_items view [] = refl
seen-tensor_items view (t ∷ ts) = rw (seen-tensor_items view ts) refl

pub seen-message_fields :
    (view : NdArray → NdArray) (m : ChainMessage)
    → seen_fields view (message_fields m) ≡ message_fields (seen_message view m)
unfolding seen message_fields
seen-message_fields view m = rw (seen-tensor_items view m.tensors) refl

-- What service `n` has of the message that the producer sent.
pub record IsRelayed (checksum : ℤ) (n : ℕ) (message m : ChainMessage) : Type 0 where
  pub frame_id_eq : m.frame_id ≡ message.frame_id
  pub stage_eq : m.stage ≡ n
  pub image_same : SameArray m.image message.image
  pub tensors_same : AllSame m.tensors message.tensors
  pub checksum_eq : 0 < n → get "last_checksum" m.meta ≡ some (leaf (int checksum))

pub IsRelayed-first :
    (checksum : ℤ) (message : ChainMessage)
    → message.stage ≡ 0
    → IsRelayed checksum 0 message message
IsRelayed-first checksum message first = record {
  frame_id_eq = refl;
  stage_eq = first;
  image_same = SameArray-refl message.image;
  tensors_same = AllSame-refl message.tensors;
  checksum_eq = λ h. absurd (omega (arith, h));
}

module _ (view : NdArray → NdArray) (keeps : (a : NdArray) → SameArray (view a) a) where
  AllSame-seen : (ts us : List Tensor) → AllSame ts us → AllSame (map (seen_tensor view) ts) us
  AllSame-seen [] [] h = tt
  AllSame-seen [] (u ∷ us) h = h
  AllSame-seen (t ∷ ts) [] h = h
  AllSame-seen (t ∷ ts) (u ∷ us) (name, (same, others)) =
      (name, (SameArray-trans (keeps t.values) same, AllSame-seen ts us others))

  pub IsRelayed-seen :
      (checksum : ℤ) (n : ℕ) (message m : ChainMessage)
      → IsRelayed checksum n message m
      → IsRelayed checksum n message (seen_message view m)
  unfolding seen
  IsRelayed-seen checksum n message m h = record {
    frame_id_eq = h.frame_id_eq;
    stage_eq = h.stage_eq;
    image_same = SameArray-trans (keeps m.image) h.image_same;
    tensors_same = AllSame-seen m.tensors message.tensors h.tensors_same;
    checksum_eq = λ late.
        get-seen_fields view "last_checksum" m.meta ∙ ap (seen_option view) (h.checksum_eq late);
  }

  pub seen_message-IsOwn :
      (ext : Externals) (m : ChainMessage)
      → IsOwn ext (dict (message_fields m))
      → IsOwn ext (dict (message_fields (seen_message view m)))
  unfolding seen
  seen_message-IsOwn ext m h =
      subst (λ fs. IsOwn ext (dict fs)) (seen-message_fields view m)
        (seen-IsOwn ext view (λ a valid. SameArray-IsArray ext (keeps a) valid)
          (dict (message_fields m)) h)

pub IsRelayed-restaged :
    (checksum : ℤ) (n : ℕ) (message m : ChainMessage)
    → IsRelayed checksum n message m
    → IsRelayed checksum (suc n) message (restaged (suc n) checksum m)
unfolding restaged
IsRelayed-restaged checksum n message m h = record {
  frame_id_eq = h.frame_id_eq;
  stage_eq = refl;
  image_same = h.image_same;
  tensors_same = h.tensors_same;
  checksum_eq = λ late. get-set_item_self "last_checksum" _ m.meta;
}

pub restaged-IsOwn :
    (ext : Externals) (stage : ℕ) (checksum : ℤ) (m : ChainMessage)
    → IsOwn ext (dict (message_fields m))
    → IsOwn ext (dict (message_fields (restaged stage checksum m)))
unfolding IsCarried message_fields restaged get only_key
restaged-IsOwn ext stage checksum m (no_blob, no_bin, (f1, u1, (f2, u2, (f3, meta, rest)))) = (
  refl,
  refl,
  (
    refl,
    tt,
    (refl, tt, (refl, set_item-IsOwn ext "last_checksum" checksum m.meta refl refl meta, rest)),
  ),
)
