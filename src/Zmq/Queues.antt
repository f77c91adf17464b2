-- ===== src/Zmq/Queues.antt =====
-- Sequences of models on a ZeroMQ pipeline of src/npb/_zmq.py: what the pipeline promises, and what is sent.
use npb.Prelude.{ℕ, zero, suc, ◌≡◌, Bool, Option, List, [], ◌∷◌, ◌++◌, ℤ}
use npb.Errors.{ok}
use npb.Exec.{Exec, pure, ◌>>=◌, ◌>>◌}
use npb.Value.{Fields, dict}
use npb.Externals.{Externals}
use npb.Blob.{BlobStore}
use npb.Codec.Encode.{Analysis, Model, model, analyze_model}
use npb.Codec.Encode.Image.{image}
use npb.Codec.RoundTrip.Trees.{IsCarried}
use npb.Codec.RoundTrip.Setting.{Setting}
use npb.Codec.RoundTrip.Images.{FitsFormat}
use npb.Zmq.{Pyzmq, Socket, send_model, recv_auto}

-- What ZeroMQ's documentation promises of a PUSH socket and the PULL socket that it is connected to, for
-- blocking calls: messages are received whole and in the order in which they were sent.
pub record Carries {Z : Type 0} (zmq : Pyzmq Z) (push pull : ℕ) (copy : Bool) (flags : ℤ)
    : Type 0 where
  pub waiting : Z → List (List ℕ)
  pub send_queues :
      (payload : List ℕ) (z z' : Z)
      → zmq.send push payload flags copy z ≡ (ok tt, z')
      → waiting z' ≡ waiting z ++ (payload ∷ [])
  pub recv_takes :
      (payload : List ℕ) (rest : List (List ℕ)) (z : Z)
      → waiting z ≡ payload ∷ rest
      → (z' : Z) × ((zmq.recv pull flags z ≡ (ok payload, z')) × (waiting z' ≡ rest))

-- A model, its dict, its analysis, and what the sender's store is after the analysis.
pub record Message (S : Type 0) : Type 0 where
  pub content : Model
  pub fields : Fields
  pub analysis : Analysis
  pub after : S

abbrev pub message_bytes : {S : Type 0} → Message S → List ℕ
message_bytes m = image m.analysis

-- The store after all of them.
abbrev pub last : {S : Type 0} → S → List (Message S) → S
last s [] = s
last s (m ∷ ms) = last m.after ms

-- Models that encode accepts one after the other, from a store in the state `s`.
pub record IsAccepted {S T : Type 0} (setting : Setting S T) (ext : Externals) (s : S)
    (m : Message S) : Type 0 where
  pub shape : m.content.tree ≡ dict m.fields
  pub is_carried : IsCarried ext setting.Ref (dict m.fields)
  pub analyzed :
      analyze_model ext setting.blob_store setting.externalize_min_bytes (model m.content) s
      ≡ (ok m.analysis, m.after)
  pub fits : FitsFormat m.analysis

abbrev pub AreAccepted : {S T : Type 0} → Setting S T → Externals → S → List (Message S) → Type 0
AreAccepted setting ext s [] = Unit {0}
AreAccepted setting ext s (m ∷ ms) = IsAccepted setting ext s m × AreAccepted setting ext m.after ms

module _ {S Z : Type 0} (zmq : Pyzmq Z) (ext : Externals) (blob_store : Option (BlobStore S))
    (flags : ℤ) where
  -- A loop of send_model, and a loop of recv_auto that keeps what it gets.
  unfoldable pub send_all :
      (externalize_min_bytes : Option ℤ)
      → (copy : Bool) → Socket
      → List Model
      → Exec (S × Z) (Unit {0})
  send_all least copy push [] = pure tt
  send_all least copy push (m ∷ ms) = do
    send_model zmq ext blob_store push (model m) least copy flags
    send_all least copy push ms

  unfoldable pub recv_all : Socket → ℕ → Exec (S × Z) (List Fields)
  recv_all pull zero = pure []
  recv_all pull (suc n) = do
    first ← recv_auto zmq ext blob_store pull flags
    rest ← recv_all pull n
    pure (first ∷ rest)
