-- ===== src/Mstore/Protocol/Passing.antt =====
-- A message and its descriptor, from send_frame to recv_frame_with_optional_fd of mstore/protocol.py.
use npb.Prelude.{
  ℕ, zero, suc, ◌+◌, ◌-◌, ◌*◌, ◌≤◌, max, ◌≡◌, refl, sym, ap, ◌∙◌, inl, inr, true, false, Option,
  none, some, List, [], ◌∷◌, ◌++◌, map, append_assoc, append-nil, arith, ltb, ◌==◌, ==_iff,
  Bool-cases, length, length-append, take, drop, take-append-drop, length-take, take-append_length,
  take-append_length,
}
use npb.Mstore.Errors.{Result, ok, err, Result-cases}
use npb.Mstore.Json.{Members, object}
use npb.Mstore.Protocol.{
  JsonText, Socket, max_frame, pack, unpack, limit, recv, encode_frame, decode_frame,
}
use npb.Mstore.Protocol.Stream.{
  recv_exact-IsRead, limit-bounds, unpack-pack, encode_frame-IsFrame, length-pack,
  decode_frame-encode_frame,
}
use npb.Mstore.Protocol.Descriptors.{
  Outgoing, rights, Channel, take_rights, fill, sends, send_frame, recv_rest,
  recv_frame_with_optional_fd,
}

take-append_le :
    {A : Type 0} (n : ℕ) (xs ys : List A) → n ≤ length xs → take n (xs ++ ys) ≡ take n xs
take-append_le zero xs ys h = refl
take-append_le (suc n) [] ys h = let never : ⊥ = omega arith in absurd never
take-append_le (suc n) (x ∷ xs) ys h = ap (λ t. x ∷ t) (take-append_le n xs ys (omega arith))

length-zero : {A : Type 0} (xs : List A) → length xs ≡ 0 → xs ≡ []
length-zero [] h = refl
length-zero (x ∷ xs) h = let never : ⊥ = omega arith in absurd never

-- Where the first part is as long as the whole, it is the whole.
whole_part :
    {A : Type 0} (xs ys zs : List A) → xs ++ ys ≡ zs → length xs ≡ length zs → (ys ≡ []) × (xs ≡ zs)
whole_part xs ys zs h same =
    let total = sym (length-append xs ys) ∙ ap length h in
    let nothing : ys ≡ [] = length-zero ys (omega arith) in
    (nothing, sym (append-nil xs) ∙ ap (λ t. xs ++ t) (sym nothing) ∙ h)

-- buf has n bytes at least, and no byte of what was there is lost.
abbrev IsFilled : ℕ → List ℕ → Socket → Result (List ℕ) × Socket → Type 0
IsFilled n buf s r =
    (buf' : List ℕ) × ((t : Socket) × ((r ≡ (ok buf', t))
        × ((buf' ++ t.pending ≡ buf ++ s.pending) × (length buf' ≡ max n (length buf)))))

fill-IsFilled :
    (n : ℕ) (buf : List ℕ) (s : Socket)
    → n ≤ length buf + length s.pending
    → IsFilled n buf s (fill n buf s)
unfolding fill
fill-IsFilled n buf s room = elim (Bool-cases (ltb (length buf) n)) [
  | inl short ↦
      let k = n - length buf in
      let enough : k ≤ length s.pending = ground arith in
      let (t, (read, left)) = recv_exact-IsRead k s enough in
      let size =
        length-append buf (take k s.pending) ∙ ap (λ m. length buf + m) (length-take k s.pending) in
      (
        buf ++ take k s.pending,
        (
          t,
          (
            rw (short, read) refl,
            (
              ap (λ p. (buf ++ take k s.pending) ++ p) left
                  ∙ append_assoc buf (take k s.pending) (drop k s.pending)
                  ∙ ap (λ p. buf ++ p) (take-append-drop k s.pending),
              ground (arith, size, enough),
            ),
          ),
        ),
      )
  | inr long ↦ (buf, (s, (rw long refl, (refl, ground arith))))
]

-- What send_frame put on the wire.
abbrev rights_of : Option ℕ → List ℕ
rights_of none = []
rights_of (some fd) = fd ∷ []

rights_of-taken :
    (fd : Option ℕ) → take_rights (map (λ beside. rights (beside ∷ [])) (rights_of fd)) ≡ (fd, [])
unfolding take_rights
rights_of-taken none = refl
rights_of-taken (some fd) = refl

abbrev pub nothing_sent : Outgoing
nothing_sent = record { bytes = []; rights = [] }

cut_and_sent : {A : Type 0} (n : ℕ) (xs : List A) → ltb n (length xs) ≡ false → take n xs ≡ xs
cut_and_sent n [] h = length-zero (take n []) (length-take n [] ∙ omega arith)
cut_and_sent zero (x ∷ xs) h = let never : ⊥ = ground arith in absurd never
cut_and_sent (suc n) (x ∷ xs) h = ap (λ t. x ∷ t) (cut_and_sent n xs (ground arith))

module _ (text : JsonText) where
  sends-bytes :
      (sent : ℕ) (fd : Option ℕ) (frame : List ℕ) (out : Outgoing)
      → sends text true sent fd (ok frame) nothing_sent ≡ (ok tt, out)
      → (out.bytes ≡ frame) × (out.rights ≡ rights_of fd)
  sends-bytes sent none frame out h = (sym (ap (λ r. r.1.bytes) h), sym (ap (λ r. r.1.rights) h))
  sends-bytes sent (some fd) frame out h = elim (Bool-cases (ltb sent (length frame))) [
    | inl part ↦
        let h' = rw part at h in
        (sym (ap (λ r. r.1.bytes) h') ∙ take-append-drop sent frame, sym (ap (λ r. r.1.rights) h'))
    | inr all ↦
        let h' = rw all at h in
        (sym (ap (λ r. r.1.bytes) h') ∙ cut_and_sent sent frame all, sym (ap (λ r. r.1.rights) h'))
  ]

  send_frame-bytes :
      (sent : ℕ) (m : Members) (fd : Option ℕ) (out : Outgoing)
      → send_frame text true sent m fd nothing_sent ≡ (ok tt, out)
      → (encode_frame text m ≡ ok out.bytes) × (out.rights ≡ rights_of fd)
  unfolding send_frame
  send_frame-bytes sent m fd out h = elim (Result-cases (encode_frame text m)) [
    | inl (e, failed) ↦
        let h' = rw failed at h in let never : err e ≡ ok tt = ap (λ r. r.0) h' in cc
    | inr (frame, made) ↦
        let (bytes, beside) = sends-bytes sent fd frame out (rw made at h) in
        (made ∙ ap ok (sym bytes), beside)
  ]

  -- A whole frame is still to come, part of it in buf.
  recv_rest-frame :
      (m : Members) (frame first : List ℕ) (c : Channel)
      → text.loads (text.dumps m) ≡ some (object m)
      → encode_frame text m ≡ ok frame
      → first ++ c.socket.pending ≡ frame
      → (d : Channel) × ((recv_rest text first c ≡ (ok (m, (take_rights c.ancillary).0), d))
          × ((d.closed ≡ c.closed ++ (take_rights c.ancillary).1) × (d.socket.pending ≡ [])))
  unfolding recv_rest
  recv_rest-frame m frame first c loaded made parts =
      let payload = text.dumps m in
      let (small, shape) = encode_frame-IsFrame text m frame made in
      let four = length-pack (length payload) in
      let size : length frame ≡ 4 + length payload =
        ap length (sym shape)
        ∙ length-append (pack (length payload)) payload
        ∙ omega (arith, four) in
      let total = sym (length-append first c.socket.pending) ∙ ap length parts in
      let (buf, (s, (read, (kept, long)))) = fill-IsFilled 4 first c.socket (omega arith) in
      let header : take 4 buf ≡ pack (length payload) =
        sym (take-append_le 4 buf s.pending (omega arith))
        ∙ ap (take 4) (kept ∙ parts ∙ sym shape)
        ∙ take-append_length (pack (length payload)) payload 4 four in
      let known : unpack (take 4 buf) ≡ ok (length payload) =
        ap unpack header ∙ unpack-pack (length payload) (omega arith) in
      let fits : ltb max_frame (length payload) ≡ false = ground arith in
      let total' = sym (length-append buf s.pending) ∙ ap length (kept ∙ parts) in
      let (buf', (t, (read', (kept', long')))) =
        fill-IsFilled (4 + length payload) buf s (omega arith) in
      let (nothing, same) = whole_part buf' t.pending frame (kept' ∙ kept ∙ parts) (omega arith) in
      let right = (==_iff (length buf') (4 + length payload)).1 (omega arith) in
      let message : decode_frame text buf' ≡ ok m =
        ap (decode_frame text) same ∙ decode_frame-encode_frame text m frame loaded made in
      (
        record { socket = t; ancillary = []; closed = c.closed ++ (take_rights c.ancillary).1 },
        (rw (read, known, fits, read', right, message) refl, (refl, nothing)),
      )

  -- What send_frame sent on a fresh socket, with or without a descriptor, however much of it sendmsg took, is
  -- what recv_frame_with_optional_fd returns at the other end, message and descriptor, however the
  -- bytes are cut; nothing is left on the stream, and nothing is closed. json.loads reads back what
  -- json.dumps wrote, and the descriptor comes with the first bytes, alone.
  pub recv_frame_with_optional_fd-send_frame :
      (sent : ℕ) (m : Members) (fd : Option ℕ) (out : Outgoing) (c : Channel)
      → text.loads (text.dumps m) ≡ some (object m)
      → send_frame text true sent m fd nothing_sent ≡ (ok tt, out)
      → c.socket.pending ≡ out.bytes
      → c.ancillary ≡ map (λ beside. rights (beside ∷ [])) out.rights
      → (d : Channel) × ((recv_frame_with_optional_fd text true c ≡ (ok (m, fd), d))
          × ((d.closed ≡ c.closed) × (d.socket.pending ≡ [])))
  unfolding recv_frame_with_optional_fd recv take_rights
  recv_frame_with_optional_fd-send_frame sent m fd out c loaded h bytes beside =
      let (made, given) = send_frame-bytes sent m fd out h in
      let (small, shape) = encode_frame-IsFrame text m out.bytes made in
      let payload = text.dumps m in
      let size : length out.bytes ≡ 4 + length payload =
        ap length (sym shape)
        ∙ length-append (pack (length payload)) payload
        ∙ omega (arith, length-pack (length payload)) in
      let k = limit (64 * 1024) c.socket.sizes in
      let (at_most, some_bytes) = limit-bounds 65535 c.socket.sizes in
      let got = length-take k c.socket.pending in
      let all = ap length bytes in
      let going : (length (take k c.socket.pending) == 0) ≡ false =
        ground (arith, got, all, size, some_bytes) in
      let taken : take_rights c.ancillary ≡ (fd, []) =
        ap take_rights (beside ∙ ap (map (λ beside. rights (beside ∷ []))) given)
        ∙ rights_of-taken fd in
      let (d, (returned, (closed, left))) =
        recv_rest-frame m out.bytes (take k c.socket.pending)
          (record c { socket = (recv (64 * 1024) c.socket).1 }) loaded made
          (take-append-drop k c.socket.pending ∙ bytes) in
      (
        d,
        (
          rw going (returned ∙ ap (λ x. (ok (m, x.0), d)) taken),
          (closed ∙ ap (λ x. c.closed ++ x.1) taken ∙ append-nil c.closed, left),
        ),
      )
