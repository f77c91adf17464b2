-- ===== src/Mstore/Protocol/Stream.antt =====
-- recv_exact and recv_frame of mstore/protocol.py read frames whole, however the stream is cut.
use npb.Prelude.{
  ℕ, zero, suc, ◌+◌, ◌-◌, ◌^◌, ◌≤◌, ◌<◌, ◌≡◌, refl, sym, ap, ◌∙◌, inl, inr, false, some, List, [],
  ◌∷◌, ◌++◌, append_assoc, arith, ltb, ◌==◌, ==_iff, Bool-cases, length, length-append, take, drop,
  length-take, length-drop, take-append_length, take-append_length,
}
use npb.Mstore.Errors.{Exn, Result, ok, err}
use npb.Mstore.Json.{Members, object}
use npb.Codec.Encode.Splice.{drop-drop, drop-append_at}
use npb.Mstore.Protocol.{
  JsonText, Socket, max_frame, pack, unpack, limit, recv, append_to, recv_loop, recv_exact,
  encode_frame, decode_frame, recv_payload, after_header, recv_frame, require_object,
}

take-nil : {A : Type 0} (n : ℕ) → take {A = A} n [] ≡ []
take-nil zero = refl
take-nil (suc n) = refl

take-take-drop :
    {A : Type 0} (k n : ℕ) (xs : List A) → k ≤ n → take k xs ++ take (n - k) (drop k xs) ≡ take n xs
take-take-drop zero n xs h = let m : n - 0 ≡ n = omega arith in ap (λ m. take m xs) m
take-take-drop (suc k) zero xs h = let never : ⊥ = omega arith in absurd never
take-take-drop (suc k) (suc n) [] h = take-nil (suc n - suc k)
take-take-drop (suc k) (suc n) (x ∷ xs) h =
    let m : suc n - suc k ≡ n - k = omega arith in
    ap (λ m. x ∷ (take k xs ++ take m (drop k xs))) m
    ∙ ap (λ t. x ∷ t) (take-take-drop k n xs (omega arith))

pub limit-bounds :
    (n : ℕ) (sizes : List ℕ) → (limit (suc n) sizes ≤ suc n) × (0 < limit (suc n) sizes)
limit-bounds n [] = (omega arith, omega arith)
limit-bounds n (k ∷ ks) = (omega arith, omega arith)

append_to-ok :
    (chunk more : List ℕ) (r : Result (List ℕ) × Socket) (t : Socket)
    → r ≡ (ok more, t)
    → append_to chunk r ≡ (ok (chunk ++ more), t)
append_to-ok chunk more r t h = rw h refl

-- What recv_exact leaves of a socket.
abbrev pub IsRead : ℕ → Socket → Result (List ℕ) × Socket → Type 0
IsRead n s r = (t : Socket) × ((r ≡ (ok (take n s.pending), t)) × (t.pending ≡ drop n s.pending))

recv_loop-IsRead :
    (rounds n : ℕ) (s : Socket)
    → n ≤ rounds
    → n ≤ length s.pending
    → IsRead n s (recv_loop rounds n s)
unfolding recv_loop
recv_loop-IsRead rounds zero s h room = (s, (refl, refl))
recv_loop-IsRead zero (suc n) s h room = let none_left : ⊥ = omega arith in absurd none_left
recv_loop-IsRead (suc rounds) (suc n) s h room =
    let k = limit (suc n) s.sizes in
    let (at_most, some_bytes) = limit-bounds n s.sizes in
    let chunk = take k s.pending in
    let size : length chunk ≡ k = length-take k s.pending ∙ omega arith in
    let left = length-drop k s.pending in
    let (t, (read, rest)) =
      recv_loop-IsRead rounds (suc n - length chunk) (recv (suc n) s).1 (omega arith)
        (omega arith) in
    let going : (length chunk == 0) ≡ false = ground (arith, size, some_bytes) in
    let cut : suc n - length chunk ≡ suc n - k = omega arith in
    let joined : chunk ++ take (suc n - length chunk) (drop k s.pending) ≡ take (suc n) s.pending =
      ap (λ m. chunk ++ take m (drop k s.pending)) cut
      ∙ take-take-drop k (suc n) s.pending at_most in
    let whole : k + (suc n - length chunk) ≡ suc n = omega arith in
    (
      t,
      (
        rw (recv, going) (append_to-ok chunk _ _ t read ∙ ap (λ xs. (ok xs, t)) joined),
        rest ∙ drop-drop (suc n - length chunk) k s.pending ∙ ap (λ m. drop m s.pending) whole,
      ),
    )

-- recv_exact returns the next bytes of the stream and leaves the rest, however the stream is cut into
-- pieces, where that many bytes are still to come.
pub recv_exact-IsRead : (n : ℕ) (s : Socket) → n ≤ length s.pending → IsRead n s (recv_exact n s)
unfolding recv_exact
recv_exact-IsRead n s room = recv_loop-IsRead n n s (omega arith) room

pub unpack-pack : (n : ℕ) → n < 2 ^ 32 → unpack (pack n) ≡ ok n
unfolding unpack pack
unpack-pack n h = ap ok (omega arith)

-- What encode_frame has checked, and what it makes.
pub encode_frame-IsFrame :
    (text : JsonText) (m : Members) (frame : List ℕ)
    → encode_frame text m ≡ ok frame
    → (length (text.dumps m) ≤ max_frame) × (pack (length (text.dumps m)) ++ text.dumps m ≡ frame)
unfolding encode_frame
encode_frame-IsFrame text m frame h = elim (Bool-cases (ltb max_frame (length (text.dumps m)))) [
  | inl e ↦ let failed : err Exn.protocol_error ≡ ok frame = rw e at h in cc
  | inr e ↦
      let made : ok (pack (length (text.dumps m)) ++ text.dumps m) ≡ ok frame = rw e at h in
      (ground arith, cc)
]

decode_frame-parts :
    (text : JsonText) (m : Members) (header payload : List ℕ)
    → length header ≡ 4
    → unpack header ≡ ok (length payload)
    → length payload ≤ max_frame
    → text.loads payload ≡ some (object m)
    → decode_frame text (header ++ payload) ≡ ok m
unfolding decode_frame require_object
decode_frame-parts text m header payload four known small loaded =
    let size : length (header ++ payload) ≡ 4 + length payload =
      length-append header payload ∙ omega arith in
    let long : ltb (4 + length payload) 4 ≡ false = ground arith in
    let fits : ltb max_frame (length payload) ≡ false = ground arith in
    let same = (==_iff (4 + length payload) (4 + length payload)).1 refl in
    rw
      (
        size,
        long,
        take-append_length header payload 4 four,
        known,
        fits,
        same,
        drop-append_at header payload 4 0 (omega (arith, four)),
        loaded,
      )
      refl

pub length-pack : (n : ℕ) → length (pack n) ≡ 4
unfolding pack
length-pack n = refl

-- A message that encode_frame accepts is read back by decode_frame, where json.loads reads back what
-- json.dumps wrote.
pub decode_frame-encode_frame :
    (text : JsonText) (m : Members) (frame : List ℕ)
    → text.loads (text.dumps m) ≡ some (object m)
    → encode_frame text m ≡ ok frame
    → decode_frame text frame ≡ ok m
decode_frame-encode_frame text m frame loaded h =
    let (small, made) = encode_frame-IsFrame text m frame h in
    rw made at (
      decode_frame-parts text m (pack (length (text.dumps m))) (text.dumps m)
        (length-pack (length (text.dumps m))) (unpack-pack (length (text.dumps m)) (omega arith))
        small loaded)

after_header-ok :
    (text : JsonText) (header : List ℕ) (r : Result (List ℕ) × Socket) (t : Socket)
    → r ≡ (ok header, t)
    → after_header text r ≡ recv_payload text header (unpack header) t
after_header-ok text header r t h = rw h refl

recv_payload-ok :
    (text : JsonText) (header payload : List ℕ) (m : Members) (s t : Socket)
    → length payload ≤ max_frame
    → recv_exact (length payload) s ≡ (ok payload, t)
    → decode_frame text (header ++ payload) ≡ ok m
    → recv_payload text header (ok (length payload)) s ≡ (ok m, t)
unfolding recv_payload
recv_payload-ok text header payload m s t small read decoded =
    let fits : ltb max_frame (length payload) ≡ false = ground arith in
    rw (fits, read, decoded) refl

-- recv_frame returns the message of the frame that is next on the stream and leaves the rest,
-- however the stream is cut into pieces, where json.loads reads back what json.dumps wrote.
pub recv_frame-encode_frame :
    (text : JsonText) (m : Members) (frame rest : List ℕ) (s : Socket)
    → text.loads (text.dumps m) ≡ some (object m)
    → encode_frame text m ≡ ok frame
    → s.pending ≡ frame ++ rest
    → (t : Socket) × ((recv_frame text s ≡ (ok m, t)) × (t.pending ≡ rest))
unfolding recv_frame
recv_frame-encode_frame text m frame rest s loaded h sent =
    let (small, made) = encode_frame-IsFrame text m frame h in
    let payload = text.dumps m in
    let whole : s.pending ≡ pack (length payload) ++ (payload ++ rest) =
      sent ∙ ap (λ f. f ++ rest) (sym made) ∙ append_assoc (pack (length payload)) payload rest in
    let header = pack (length payload) in
    let four = length-pack (length payload) in
    let known = unpack-pack (length payload) (omega arith) in
    let total = ap length whole ∙ length-append header (payload ++ rest) in
    let total' = length-append payload rest in
    let (t, (read, left)) = recv_exact-IsRead 4 s (omega arith) in
    let first : take 4 s.pending ≡ header =
      ap (take 4) whole ∙ take-append_length header (payload ++ rest) 4 four in
    let then_left : t.pending ≡ payload ++ rest =
      left
      ∙ ap (drop 4) whole
      ∙ drop-append_at header (payload ++ rest) 4 0 (omega (arith, four)) in
    let size = ap length then_left ∙ total' in
    let (u, (read', left')) = recv_exact-IsRead (length payload) t (omega arith) in
    let second : take (length payload) t.pending ≡ payload =
      ap (take (length payload)) then_left
      ∙ take-append_length payload rest (length payload) refl in
    let last : u.pending ≡ rest =
      left'
      ∙ ap (drop (length payload)) then_left
      ∙ drop-append_at payload rest (length payload) 0 (omega arith) in
    let decoded = decode_frame-parts text m header payload four known small loaded in
    (
      u,
      (
        after_header-ok text header _ t (read ∙ ap (λ h. (ok h, t)) first)
            ∙ ap (λ r. recv_payload text header r t) known
            ∙ recv_payload-ok text header payload m t u small (read' ∙ ap (λ h. (ok h, u)) second)
                decoded,
        last,
      ),
    )
