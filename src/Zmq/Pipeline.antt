-- ===== src/Zmq/Pipeline.antt =====
-- send_model and recv_auto of src/npb/_zmq.py: what one end of a pipeline sends, the other receives, with
-- the large arrays in a blob store.
use mathlib.Core.Path.{subst}
use npb.Prelude.{
  ℕ, ◌*◌, ◌≡◌, refl, sym, ap, ◌∙◌, Bool, false, Option, none, some, List, [], ◌∷◌, ◌++◌, map,
  append_assoc, append-nil, arith, length, take, ℤ, slice, take-append_length, take-append_length,
}
use npb.Errors.{ok}
use npb.Exec.{bind-eq-ok}
use npb.Value.{product}
use npb.Externals.{Externals, Documented}
use npb.Format.{array, require_binary_array, is_uint8}
use npb.Codec.Manifest.{json_fallback}
use npb.Codec.Encode.{model, byte_array, encode, total_size_of}
use npb.Codec.Decode.{decode_auto}
use npb.Codec.RoundTrip.Trees.{seen_fields}
use npb.Codec.RoundTrip.Setting.{Setting}
use npb.Codec.RoundTrip.Induction.{Leaves}
use npb.Codec.RoundTrip.Stored.{Lawful, given, stored, stored-Leaves}
use npb.Blob.{BlobStore}
use npb.Codec.RoundTrip.Images.{bytes_of, decode_auto-encode-image}
use npb.Zmq.{Pyzmq, Socket, send, recv, send_model, recv_auto, uint8, bytes_object}
use npb.Zmq.Queues.{
  Carries, Message, message_bytes, last, IsAccepted, AreAccepted, send_all, recv_all,
}

module _ {S T Z : Type 0} (zmq : Pyzmq Z) (setting : Setting S T) (ext : Externals)
    (doc : Documented ext (json_fallback ext)) (leaves : Leaves setting ext) (push pull : Socket)
    (copy : Bool) (flags : ℤ) (wire : Carries zmq push.raw pull.raw copy flags) where
  send-queues :
      (payload : List ℕ) (n : ℕ) (z z' : Z)
      → send zmq push (array (byte_array payload)) copy flags z ≡ (ok n, z')
      → wire.waiting z' ≡ wire.waiting z ++ (payload ∷ [])
  unfolding send require_binary_array is_uint8
  send-queues payload n z z' h =
      let (done, (z1, (sent, h1))) = bind-eq-ok (zmq.send push.raw payload flags copy) _ z h in
      let same : z1 ≡ z' = ap (λ r. r.1) h1 in
      subst (λ y. wire.waiting y ≡ wire.waiting z ++ (payload ∷ [])) same
        (wire.send_queues payload z z1 sent)

  whole_view :
      (payload : List ℕ)
      → ext.from_buffer (bytes_object payload) uint8 (length payload) 0 (length payload ∷ [])
        ≡ ok (bytes_of false payload)
  unfolding product
  whole_view payload =
      let n = length payload in
      let view =
        doc.from_buffer_view (bytes_object payload) uint8 n 0 (n ∷ [])
          (record { no_objects = refl; no_fields = refl; sized = omega arith }) (omega arith)
          (omega arith) in
      let one : n * 1 ≡ n = omega arith in
      let all : slice payload 0 (n * 1) ≡ payload = rw one (
        subst (λ t. take n t ≡ payload) (append-nil payload)
          (take-append_length payload [] n refl)) in
      view ∙ ap (λ content. ok (record (bytes_of false payload) { content = content })) all

  recv-takes :
      (payload : List ℕ) (rest : List (List ℕ)) (z : Z)
      → wire.waiting z ≡ payload ∷ rest
      → (z' : Z) × ((recv zmq ext pull flags z ≡ (ok (bytes_of false payload), z'))
          × (wire.waiting z' ≡ rest))
  unfolding recv
  recv-takes payload rest z h =
      let (z', (taken, left)) = wire.recv_takes payload rest z h in
      (z', (rw (taken, whole_view payload) refl, left))

  encoded_image :
      (m : Message S) (s : S)
      → IsAccepted setting ext s m
      → (encode ext setting.blob_store setting.externalize_min_bytes (model m.content) none s
          ≡ (ok (byte_array (message_bytes m)), m.after))
        × (setting.Extends s m.after
            × ((w : Bool) (t : T)
                → setting.Sees m.after t
                → (t' : T) × ((decode_auto ext setting.reader
                        (array (bytes_of w (message_bytes m)))
                        t
                      ≡ (ok (seen_fields (setting.view w) m.fields), t'))
                    × setting.Later t t')))
  encoded_image m s h =
      decode_auto-encode-image setting ext doc leaves m.content m.fields none s m.after m.analysis
        h.shape h.is_carried h.analyzed h.fits (doc.empty_length (total_size_of m.analysis))

  send_model-queues :
      (m : Message S) (n : ℕ) (s : S) (u : S × Z) (z : Z)
      → IsAccepted setting ext s m
      → send_model zmq ext setting.blob_store push
          (model m.content)
          setting.externalize_min_bytes
          copy
          flags
          (s, z)
        ≡ (ok n, u)
      → (m.after ≡ u.0) × (wire.waiting u.1 ≡ wire.waiting z ++ (message_bytes m ∷ []))
  unfolding send_model
  send_model-queues m n s u z accepted h =
      let sent = rw ((encoded_image m s accepted).0) at h in
      (ap (λ r. r.1.0) sent, send-queues (message_bytes m) n z u.1 (ap (λ r. (r.0, r.1.1)) sent))

  send_all-queues :
      (ms : List (Message S)) (s s' : S) (z z' : Z)
      → AreAccepted setting ext s ms
      → send_all zmq ext setting.blob_store flags setting.externalize_min_bytes copy push
          (map (λ m. m.content) ms)
          (s, z)
        ≡ (ok tt, (s', z'))
      → (s' ≡ last s ms) × (wire.waiting z' ≡ wire.waiting z ++ map message_bytes ms)
  unfolding send_all
  send_all-queues [] s s' z z' accepted h =
      let same : z ≡ z' = ap (λ r. r.1.1) h in
      (
        sym (ap (λ r. r.1.0) h),
        subst (λ y. wire.waiting y ≡ wire.waiting z ++ []) same (sym (append-nil (wire.waiting z))),
      )
  send_all-queues (m ∷ ms) s s' z z' (accepted, others) h =
      let (n, (u, (sent, h1))) =
        bind-eq-ok
          (send_model zmq ext setting.blob_store push (model m.content)
            setting.externalize_min_bytes copy flags)
          _ (s, z) h in
      let (same, queued) = send_model-queues m n s u z accepted sent in
      let rest =
        send_all zmq ext setting.blob_store flags setting.externalize_min_bytes copy push
          (map (λ m. m.content) ms) in
      let (end, all) =
        send_all-queues ms m.after s' u.1 z' others
          (subst (λ t. rest (t, u.1) ≡ (ok tt, (s', z'))) (sym same) h1) in
      (
        end,
        all
            ∙ ap (λ q. q ++ map message_bytes ms) queued
            ∙ append_assoc (wire.waiting z) (message_bytes m ∷ []) (map message_bytes ms),
      )

  last-Extends :
      (ms : List (Message S)) (s : S) → AreAccepted setting ext s ms → setting.Extends s (last s ms)
  last-Extends [] s accepted = setting.extends_refl s
  last-Extends (m ∷ ms) s (accepted, others) =
      setting.extends_trans (encoded_image m s accepted).1.0 (last-Extends ms m.after others)

  recv_all-takes :
      (ms : List (Message S)) (s : S) (t : T) (z : Z)
      → AreAccepted setting ext s ms
      → setting.Sees (last s ms) t
      → wire.waiting z ≡ map message_bytes ms
      → (t' : T) × ((z' : Z) × ((recv_all zmq ext setting.reader flags pull (length ms) (t, z)
              ≡ (ok (map (λ m. seen_fields (setting.view false) m.fields) ms), (t', z')))
            × (wire.waiting z' ≡ [])))
  unfolding recv_all recv_auto
  recv_all-takes [] s t z accepted sees h = (t, (z, (refl, h)))
  recv_all-takes (m ∷ ms) s t z (accepted, others) sees h =
      let (z1, (taken, left)) = recv-takes (message_bytes m) (map message_bytes ms) z h in
      let (t1, (decoded, later)) =
        (encoded_image m s accepted).1.1 false t
          (setting.sees_before (last-Extends ms m.after others) sees) in
      let (t2, (z2, (rest, empty))) =
        recv_all-takes ms m.after t1 z1 others (setting.sees_later later sees) left in
      (t2, (z2, (rw (taken, decoded, rest) refl, empty)))

  all-received :
      (ms : List (Message S)) (s s' : S) (t : T) (z z' : Z)
      → AreAccepted setting ext s ms
      → wire.waiting z ≡ []
      → send_all zmq ext setting.blob_store flags setting.externalize_min_bytes copy push
          (map (λ m. m.content) ms)
          (s, z)
        ≡ (ok tt, (s', z'))
      → setting.Sees s' t
      → (t' : T) × ((z'' : Z) × ((recv_all zmq ext setting.reader flags pull (length ms) (t, z')
              ≡ (ok (map (λ m. seen_fields (setting.view false) m.fields) ms), (t', z'')))
            × (wire.waiting z'' ≡ [])))
  all-received ms s s' t z z' accepted nothing sent sees =
      let (same, queued) = send_all-queues ms s s' z z' accepted sent in
      recv_all-takes ms s t z' accepted (subst (λ x. setting.Sees x t) same sees)
        (queued ∙ ap (λ q. q ++ map message_bytes ms) nothing)

module _ {S T Z : Type 0} (zmq : Pyzmq Z) (ext : Externals)
    (doc : Documented ext (json_fallback ext)) (store : BlobStore S) (reader : BlobStore T)
    (law : Lawful ext store reader) (least : Option ℤ) (push pull : Socket) (copy : Bool)
    (flags : ℤ) (wire : Carries zmq push.raw pull.raw copy flags) where
  -- Models whose trees are dicts of JSON scalars (no datetime, no NumPy scalar, no NaN or infinity) and well-
  -- formed arrays, with each key once, without references and without a dict {"$bin": …} or {"$blob": …}, whose
  -- analysis returns and whose sizes fit the header, that a PUSH end sent, in a sequence of send_model calls that
  -- returned, into a pipeline with nothing on its way: as many calls of recv_auto at the PULL end return their
  -- trees in that order and leave nothing on its way, tuples as lists, large arrays as the reader gives them and
  -- the others as views; with any threshold, and a blob store that does what is documented, which the receiver's
  -- reader sees. ZeroMQ delivers whole messages in order.
  pub recv_all-send_all :
      (ms : List (Message S)) (s s' : S) (t : T) (z z' : Z)
      → AreAccepted (stored ext store reader law least) ext s ms
      → wire.waiting z ≡ []
      → send_all zmq ext (some store) flags least copy push (map (λ m. m.content) ms) (s, z)
        ≡ (ok tt, (s', z'))
      → law.Sees s' t
      → (t' : T) × ((z'' : Z) × ((recv_all zmq ext (some reader) flags pull (length ms) (t, z')
              ≡ (ok (map (λ m. seen_fields (given law.view least false) m.fields) ms), (t', z'')))
            × (wire.waiting z'' ≡ [])))
  unfolding stored
  recv_all-send_all ms s s' t z z' accepted nothing sent sees =
      all-received zmq (stored ext store reader law least) ext doc
        (stored-Leaves ext store reader law least doc) push pull copy flags wire ms s s' t z z'
        accepted nothing sent sees
