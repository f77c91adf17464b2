-- ===== src/Codec/RoundTrip/Setting.antt =====
-- What encoding and decoding with src/npb/_codec.py does to arrays that go to a blob store: where they
-- go, who reads them, and what the encoder's store promises to the reader's.
use npb.Prelude.{Bool, Option, ℤ}
use npb.Value.{NdArray, BlobRef}
use npb.Blob.{BlobStore}

-- The encoder's store keeps an `S`, the reader's a `T`. `Extends s s'`: the store went from s to s' as
-- arrays were put. `Sees s t`: the reader finds all that s holds. `Later t t'`: the reader's went from
-- t to t' as arrays were read.
pub record Setting (S T : Type 0) : Type 1 where
  pub blob_store : Option (BlobStore S)
  pub externalize_min_bytes : Option ℤ
  pub reader : Option (BlobStore T)
  pub view : Bool → NdArray → NdArray
  pub Ref : BlobRef → Type 0
  pub Extends : S → S → Type 0
  pub extends_refl : (s : S) → Extends s s
  pub extends_trans : {s s' s'' : S} → Extends s s' → Extends s' s'' → Extends s s''
  pub Sees : S → T → Type 0
  pub sees_before : {s s' : S} {t : T} → Extends s s' → Sees s' t → Sees s t
  pub Later : T → T → Type 0
  pub later_refl : (t : T) → Later t t
  pub later_trans : {t t' t'' : T} → Later t t' → Later t' t'' → Later t t''
  pub sees_later : {s : S} {t t' : T} → Later t t' → Sees s t → Sees s t'
