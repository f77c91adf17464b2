-- ===== src/Mstore/Exec.antt =====
-- Methods of the example mstore that change an object and may raise one of its exceptions.
use npb.Prelude.{◌≡◌, refl, ap, Bool, true, false, if◌then◌else◌}
use npb.Mstore.Errors.{Exn, Result, ok, err}

abbrev pub Exec : Type 0 → Type 0 → Type 0
Exec S A = S → Result A × S

module _ {S A : Type 0} where
  abbrev pub pure : A → Exec S A
  pure a s = (ok a, s)

  abbrev pub raise : Exn → Exec S A
  raise e s = (err e, s)

  -- A call that does not touch the state.
  abbrev pub lift : Result A → Exec S A
  lift r s = (r, s)

-- A call that cannot raise.
abbrev pub modify : {S : Type 0} → (S → S) → Exec S (Unit {0})
modify f s = (ok tt, f s)

module _ {S A B : Type 0} where
  abbrev pub continue : Result A → (A → Exec S B) → Exec S B
  continue (ok a) f s = f a s
  continue (err e) f s = (err e, s)

  infixl 5 ◌>>=◌ ◌>>◌
  abbrev pub ◌>>=◌ : Exec S A → (A → Exec S B) → Exec S B
  ◌>>=◌ m f s = continue (m s).0 f (m s).1

  abbrev pub ◌>>◌ : Exec S A → Exec S B → Exec S B
  m >> n = m >>= λ _. n

-- A chain whose first call returned goes on from the state that the call left.
pub bind-ok :
    {S A B : Type 0} (m : Exec S A) (f : A → Exec S B) (s : S) {a : A} {t : S}
    → m s ≡ (ok a, t)
    → (m >>= f) s ≡ f a t
bind-ok m f s e = rw e refl

continue-eq-ok :
    {S A B : Type 0} (r : Result A) (f : A → Exec S B) (s : S) {b : B} {t : S}
    → continue r f s ≡ (ok b, t)
    → (a : A) × ((r ≡ ok a) × (f a s ≡ (ok b, t)))
continue-eq-ok (ok a) f s h = (a, (refl, h))
continue-eq-ok (err e) f s {b} {t} h = let failed : err e ≡ ok b = ap (λ p. p.0) h in cc

-- What a chain that returned has passed.
pub bind-eq-ok :
    {S A B : Type 0} (m : Exec S A) (f : A → Exec S B) (s : S) {b : B} {t : S}
    → (m >>= f) s ≡ (ok b, t)
    → (a : A) × ((u : S) × ((m s ≡ (ok a, u)) × (f a u ≡ (ok b, t))))
bind-eq-ok m f s h =
    let (a, (found, rest)) = continue-eq-ok (m s).0 f (m s).1 h in
    (a, ((m s).1, (ap (λ r. (r, (m s).1)) found, rest)))

-- What a method returns, where it returns.
pub record Returns {S A : Type 0} (m : Exec S A) (P : A → Type 0) : Type 0 where
  pub returned : (s t : S) (a : A) → m s ≡ (ok a, t) → P a

module _ {S A : Type 0} {P : A → Type 0} where
  pub pure-Returns : (a : A) → P a → Returns {S = S} (pure a) P
  pure-Returns a h = record {
    returned = λ s t b e.
        let same : ok a ≡ ok b = ap (λ p. p.0) e in let path : a ≡ b = cc in rw (← path) h;
  }

  pub raise-Returns : (exn : Exn) → Returns {S = S} (raise exn) P
  raise-Returns exn = record {
    returned = λ s t b e. let failed : err exn ≡ ok b = ap (λ p. p.0) e in cc;
  }

  pub if-Returns :
      (b : Bool) (m n : Exec S A) → Returns m P → Returns n P → Returns (if b then m else n) P
  if-Returns true m n h k = h
  if-Returns false m n h k = k

pub then-Returns :
    {S A B : Type 0} {P : B → Type 0} (m : Exec S A) (f : A → Exec S B)
    → ((a : A) (s t : S) → m s ≡ (ok a, t) → Returns (f a) P)
    → Returns (m >>= f) P
then-Returns m f h = record {
  returned = λ s t b e.
      let (a, (u, (first, rest))) = bind-eq-ok m f s e in (h a s u first).returned u t b rest;
}

-- Two calls, the second in the state that the first left.
pub both-Returns :
    {S A B C : Type 0} {P : C → Type 0} (m : Exec S A) (f : Exec S B) (g : B → Exec S C)
    → ((a : A) (b : B) (s t u : S) → m s ≡ (ok a, t) → f t ≡ (ok b, u) → Returns (g b) P)
    → Returns (m >>= λ _. f >>= g) P
both-Returns m f g h = record {
  returned = λ s t c e.
      let (a, (u, (first, rest))) = bind-eq-ok m _ s e in
      let (b, (v, (second, last))) = bind-eq-ok f g u rest in
      (h a b s u v first second).returned v t c last;
}
