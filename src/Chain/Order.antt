-- ===== src/Chain/Order.antt =====
-- The work of the stages of examples/zeromq_mutable_shm_chain, in any order among the messages.
use mathlib.Core.Path.{subst}
use npb.Prelude.{
  ℕ, zero, suc, ◌+◌, ◌%◌, ◌^◌, ◌≤◌, ◌<◌, ◌≡◌, refl, sym, ap, ◌∙◌, ◌≢◌, ◌⊎◌, inl, inr, false, some,
  List, [], ◌∷◌, arith, ltb, leb, ◌==◌, ==_iff, Bool-cases, length, get_elem?, set, length-set,
  replicate, length-replicate, pos, get_elem?-set_self, get_elem?-set_ne, length-set,
}
use npb.Mstore.Errors.{ok, err, other_error}
use npb.Chain.{
  ChainMessage, clear_first, messages_from, Flow, produce, is_outside, stage_frame, sum_to,
  expected_value, item_at, sink_frame,
}

-- A stage takes a message that the stage before has left.
pub data Step (generation : ℕ) : Flow → Flow → Type 0 where
  works :
      (s : Flow) (i : ℕ) (m : ChainMessage) (r : List ℕ × ChainMessage)
      → get_elem? s.messages i ≡ some m
      → stage_frame (suc m.stage) generation s.image m ≡ ok r
      → Step generation s (record { image = r.0; messages = set s.messages i r.1 })

-- Steps of stages, each on a message that the stage before left, in any order among the messages.
pub data Steps (generation : ℕ) (s : Flow) : Flow → Type 0 where
  here : Steps generation s s
  next : {t u : Flow} → Steps generation s t → Step generation t u → Steps generation s u

-- Each message has its own byte, which is what its stages made of it.
record IsInOrder (generation : ℕ) (s : Flow) : Type 0 where
  room : length s.messages ≤ length s.image
  message :
      (i : ℕ) (m : ChainMessage)
      → get_elem? s.messages i ≡ some m
      → (m.sequence ≡ pos i)
        × ((m.generation ≡ generation) × (get_elem? s.image i ≡ some (expected_value m.stage)))

get_elem?-lt : {A : Type 0} (xs : List A) (i : ℕ) {x : A} → get_elem? xs i ≡ some x → i < length xs
get_elem?-lt [] i h = cc
get_elem?-lt (y ∷ xs) zero h = omega arith
get_elem?-lt (y ∷ xs) (suc i) h = omega (arith, get_elem?-lt xs i h)

messages_from-message :
    (generation sequence n i : ℕ) (m : ChainMessage)
    → get_elem? (messages_from generation sequence n) i ≡ some m
    → (m.sequence ≡ pos (sequence + i)) × ((m.generation ≡ generation) × (m.stage ≡ 0))
unfolding messages_from
messages_from-message generation sequence zero i m h = cc
messages_from-message generation sequence (suc n) zero m h =
    let same : record { sequence = pos sequence; stage = 0; generation = generation } ≡ m = cc in
    let first : sequence ≡ sequence + 0 = omega arith in
    (
      ap (λ x. x.sequence) (sym same) ∙ ap pos first,
      (ap (λ x. x.generation) (sym same), ap (λ x. x.stage) (sym same)),
    )
messages_from-message generation sequence (suc n) (suc i) m h =
    let (at, rest) = messages_from-message generation (suc sequence) n i m h in
    let moved : suc sequence + i ≡ sequence + suc i = omega arith in (at ∙ ap pos moved, rest)

length-messages_from :
    (generation sequence n : ℕ) → length (messages_from generation sequence n) ≡ n
unfolding messages_from
length-messages_from generation sequence zero = refl
length-messages_from generation sequence (suc n) =
    ap suc (length-messages_from generation (suc sequence) n)

length-clear_first : (n : ℕ) (image : List ℕ) → length (clear_first n image) ≡ length image
unfolding clear_first
length-clear_first zero image = refl
length-clear_first (suc n) [] = refl
length-clear_first (suc n) (b ∷ image) = ap suc (length-clear_first n image)

clear_first-item :
    (n i : ℕ) (image : List ℕ)
    → i < n
    → i < length image
    → get_elem? (clear_first n image) i ≡ some 0
unfolding clear_first
clear_first-item zero i image h room = let never : ⊥ = omega arith in absurd never
clear_first-item (suc n) i [] h room = let never : ⊥ = omega arith in absurd never
clear_first-item (suc n) zero (b ∷ image) h room = refl
clear_first-item (suc n) (suc i) (b ∷ image) h room =
    clear_first-item n i image (omega arith) (omega arith)

made-IsInOrder :
    (size count generation : ℕ)
    → count ≤ size
    → IsInOrder generation (record {
      image = clear_first count (replicate size 7);
      messages = messages_from generation 0 count;
    })
unfolding expected_value sum_to
made-IsInOrder size count generation fits =
    let bytes = length-clear_first count (replicate size 7) ∙ length-replicate {A = ℕ} size 7 in
    let made = length-messages_from generation 0 count in
    record {
      room = omega arith;
      message = λ i m h.
          let (at, (same, start)) = messages_from-message generation 0 count i m h in
          let below = get_elem?-lt (messages_from generation 0 count) i h in
          let zeroed =
            clear_first-item count i (replicate size 7) (omega arith)
              (omega (arith, length-replicate {A = ℕ} size 7)) in
          let first : 0 + i ≡ i = omega arith in
          (at ∙ ap pos first, (same, zeroed ∙ ap (λ k. some (expected_value k)) (sym start)));
    }

produce-IsInOrder :
    (size count generation : ℕ) (s : Flow)
    → produce size count generation ≡ ok s
    → IsInOrder generation s
unfolding produce
produce-IsInOrder size count generation s h = elim (Bool-cases (size == 0)) [
  | inl none_there ↦ let failed : err other_error ≡ ok s = rw none_there at h in cc
  | inr some_there ↦ elim (Bool-cases (count == 0)) [
    | inl nothing ↦ let failed : err other_error ≡ ok s = rw (some_there, nothing) at h in cc
    | inr something ↦ elim (Bool-cases (ltb size count)) [
      | inl long ↦ let failed : err other_error ≡ ok s = rw (some_there, something, long) at h in cc
      | inr fits ↦
          let done = rw (some_there, something, fits) at h in
          let same : record {
            image = clear_first count (replicate size 7);
            messages = messages_from generation 0 count;
          }
              ≡ s =
            cc in
          subst (IsInOrder generation) same (made-IsInOrder size count generation (ground arith))
    ]
  ]
]

stage_frame-works :
    (stage generation i v : ℕ) (image : List ℕ) (m : ChainMessage)
    → m.sequence ≡ pos i
    → m.generation ≡ generation
    → get_elem? image i ≡ some v
    → stage_frame stage generation image m
      ≡ ok (set image i ((v + stage) % 2 ^ 8), record m { stage = stage })
unfolding stage_frame is_outside
stage_frame-works stage generation i v image m at same found =
    let right = (==_iff generation m.generation).1 (sym same) in
    let inside : leb (length image) i ≡ false = ground (arith, get_elem?-lt image i found) in
    rw (right, at, inside, found) refl

next_value : (k : ℕ) → (expected_value k + suc k) % 2 ^ 8 ≡ expected_value (suc k)
unfolding expected_value sum_to
next_value k = omega arith

set-message :
    {A : Type 0} (xs : List A) (i j : ℕ) (v x : A)
    → i < length xs
    → get_elem? (set xs i v) j ≡ some x
    → ((i ≡ j) × (v ≡ x)) ⊎ ((i ≢ j) × (get_elem? xs j ≡ some x))
set-message xs i j v x room h = elim (Bool-cases (i == j)) [
  | inl e ↦
      let same : i ≡ j = (==_iff i j).0 e in
      let found = get_elem?-set_self xs i v room in
      let this : some v ≡ some x = sym found ∙ ap (get_elem? (set xs i v)) same ∙ h in
      inl (same, cc)
  | inr e ↦
      let apart : i ≢ j = λ same. ground (arith, ==_iff i j) in
      inr (apart, sym (get_elem?-set_ne xs v apart) ∙ h)
]

worked-IsInOrder :
    (generation : ℕ) (s : Flow) (i : ℕ) (m : ChainMessage)
    → get_elem? s.messages i ≡ some m
    → IsInOrder generation s
    → IsInOrder generation (record {
      image = set s.image i ((expected_value m.stage + suc m.stage) % 2 ^ 8);
      messages = set s.messages i (record m { stage = suc m.stage });
    })
worked-IsInOrder generation s i m found inv =
    let v = (expected_value m.stage + suc m.stage) % 2 ^ 8 in
    let m' : ChainMessage = record m { stage = suc m.stage } in
    let there = get_elem?-lt s.messages i found in
    record {
      room = omega (arith, length-set s.messages i m', length-set s.image i v, inv.room);
      message = λ j x h. elim (set-message s.messages i j m' x there h) [
        | inl (place, same) ↦
            let (at, (generation_eq, byte)) = inv.message i m found in
            let written = get_elem?-set_self s.image i v (omega (arith, inv.room)) in
            (
              ap (λ y. y.sequence) (sym same) ∙ at ∙ ap pos place,
              (
                ap (λ y. y.generation) (sym same) ∙ generation_eq,
                ap (get_elem? (set s.image i v)) (sym place)
                    ∙ written
                    ∙ ap some (next_value m.stage)
                    ∙ ap (λ y. some (expected_value y.stage)) same,
              ),
            )
        | inr (apart, before) ↦
            let (at, (generation_eq, byte)) = inv.message j x before in
            (at, (generation_eq, get_elem?-set_ne s.image v apart ∙ byte))
      ];
    }

Step-IsInOrder :
    (generation : ℕ) {s t : Flow}
    → Step generation s t
    → IsInOrder generation s
    → IsInOrder generation t
Step-IsInOrder generation (works s i m r found worked) inv =
    let (at, (same, byte)) = inv.message i m found in
    let done =
      stage_frame-works (suc m.stage) generation i (expected_value m.stage) s.image m at same
        byte in
    let result : (
      set s.image i ((expected_value m.stage + suc m.stage) % 2 ^ 8),
      record m { stage = suc m.stage },
    )
        ≡ r =
      cc in
    subst (λ x. IsInOrder generation (record { image = x.0; messages = set s.messages i x.1 }))
      result (worked-IsInOrder generation s i m found inv)

Steps-IsInOrder :
    (generation : ℕ) {s t : Flow}
    → IsInOrder generation s
    → Steps generation s t
    → IsInOrder generation t
Steps-IsInOrder generation inv here = inv
Steps-IsInOrder generation inv (next before step) =
    Step-IsInOrder generation step (Steps-IsInOrder generation inv before)

-- From what the producer made, after any work of the stages in which each stage takes only messages that the stage
-- before it left (the first one those of the producer), in any order among the messages: each message is accepted
-- by the sink behind the stage that it has reached, with the value of that stage, where the sink's view is not
-- writable; and the next stage can work on it.
pub sink_frame-produce :
    (size count generation : ℕ) (s t : Flow) (i : ℕ) (m : ChainMessage)
    → produce size count generation ≡ ok s
    → Steps generation s t
    → get_elem? t.messages i ≡ some m
    → (sink_frame m.stage generation false t.image m ≡ ok (expected_value m.stage))
      × ((r : List ℕ × ChainMessage) × (stage_frame (suc m.stage) generation t.image m ≡ ok r))
unfolding sink_frame item_at
sink_frame-produce size count generation s t i m made steps found =
    let inv = Steps-IsInOrder generation (produce-IsInOrder size count generation s made) steps in
    let (at, (same, byte)) = inv.message i m found in
    let right = (==_iff generation m.generation).1 (sym same) in
    let stage = (==_iff m.stage m.stage).1 refl in
    let value = (==_iff (expected_value m.stage) (expected_value m.stage)).1 refl in
    (
      rw (right, at, byte, stage, value) refl,
      (
        _,
        stage_frame-works (suc m.stage) generation i (expected_value m.stage) t.image m at same
            byte,
      ),
    )
