-- ===== src/Exec.antt =====
-- Methods that change an object and may raise. What was changed before a raise stays changed, so the
-- state comes back beside the error too.
use npb.Prelude.{◌≡◌, refl, ap}
use npb.Errors.{Exn, Result, ok, err}

abbrev pub Exec : Type 0 → Type 0 → Type 0
Exec S A = S → Result A × S

module _ {S A : Type 0} where
  abbrev pub pure : A → Exec S A
  pure a s = (ok a, s)

  abbrev pub raise : Exn → Exec S A
  raise e s = (err e, s)

  -- A call that does not touch the state.
  abbrev pub lift : Result A → Exec S A
  lift r s = (r, s)

module _ {S A B : Type 0} where
  abbrev pub continue : Result A → (A → Exec S B) → Exec S B
  continue (ok a) f s = f a s
  continue (err e) f s = (err e, s)

  infixl 5 ◌>>=◌ ◌>>◌
  abbrev pub ◌>>=◌ : Exec S A → (A → Exec S B) → Exec S B
  ◌>>=◌ m f s = continue (m s).0 f (m s).1

  abbrev pub ◌>>◌ : Exec S A → Exec S B → Exec S B
  m >> n = m >>= λ _. n

-- A chain whose first call returned goes on from the state that the call left.
pub bind-ok :
    {S A B : Type 0} (m : Exec S A) (f : A → Exec S B) (s : S) {a : A} {t : S}
    → m s ≡ (ok a, t)
    → (m >>= f) s ≡ f a t
bind-ok m f s e = rw e refl

continue-eq-ok :
    {S A B : Type 0} (r : Result A) (f : A → Exec S B) (s : S) {b : B} {t : S}
    → continue r f s ≡ (ok b, t)
    → (a : A) × ((r ≡ ok a) × (f a s ≡ (ok b, t)))
continue-eq-ok (ok a) f s h = (a, (refl, h))
continue-eq-ok (err e) f s {b} {t} h = let failed : err e ≡ ok b = ap (λ p. p.0) h in cc

-- What a chain that returned has passed.
pub bind-eq-ok :
    {S A B : Type 0} (m : Exec S A) (f : A → Exec S B) (s : S) {b : B} {t : S}
    → (m >>= f) s ≡ (ok b, t)
    → (a : A) × ((u : S) × ((m s ≡ (ok a, u)) × (f a u ≡ (ok b, t))))
bind-eq-ok m f s h =
    let (a, (found, rest)) = continue-eq-ok (m s).0 f (m s).1 h in
    (a, ((m s).1, (ap (λ r. (r, (m s).1)) found, rest)))
