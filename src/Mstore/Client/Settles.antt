-- ===== src/Mstore/Client/Settles.antt =====
-- Calls of the client of mstore/client.py that leave no descriptor open, and how they follow one another.
use npb.Prelude.{ℕ, ◌≡◌, ap, Option, none, some, [], ◌∷◌, ◌++◌}
use npb.Mstore.Errors.{Result, ok, err}
use npb.Mstore.Exec.{Exec, lift, continue, ◌>>=◌}
use npb.Mstore.Json.{Members}
use npb.Mstore.Client.{State, close_fd, take_fd}

pub record IsSettled {W : Type 0} (c : State W) : Type 0 where
  pub all_closed : c.closed_fds ≡ c.taken

-- Where one is at hand, all the others were.
pub record IsAllBut {W : Type 0} (fd : Option ℕ) (c : State W) : Type 0 where
  pub others_closed : IsSettled (close_fd fd c)

-- A call that ends with no descriptor at hand, or with the one that it returns.
pub record Settles {W A : Type 0} (m : Exec (State W) A) : Type 0 where
  pub settled : (c : State W) → IsSettled c → IsSettled (m c).1

abbrev pub AtHand : {W : Type 0} → Result (Members × Option ℕ) × State W → Type 0
AtHand (ok (result, fd), c) = IsAllBut fd c
AtHand (err exc, c) = IsSettled c

module _ {W A B : Type 0} where
  pub continue-Settles :
      (r : Result A) (f : A → Exec (State W) B) (c : State W)
      → ((a : A) → Settles (f a))
      → IsSettled c
      → IsSettled (continue r f c).1
  continue-Settles (ok a) f c h s = (h a).settled c s
  continue-Settles (err exc) f c h s = s

  pub then-Settles :
      (m : Exec (State W) A) (f : A → Exec (State W) B)
      → Settles m
      → ((a : A) → Settles (f a))
      → Settles (m >>= f)
  then-Settles m f h k = record {
    settled = λ c s. continue-Settles (m c).0 f (m c).1 k (h.settled c s);
  }

pub lift-Settles : {W A : Type 0} (r : Result A) → Settles {W = W} (lift r)
lift-Settles r = record { settled = λ c s. s }

-- A call that ends with the descriptor that it returns at hand, and no other.
pub record Gives {W : Type 0} (m : Exec (State W) (Members × Option ℕ)) : Type 0 where
  pub at_hand : (c : State W) → IsSettled c → AtHand (m c)

pub continue-AtHand :
    {W A : Type 0} (r : Result A) (f : A → Exec (State W) (Members × Option ℕ)) (c : State W)
    → ((a : A) → Gives (f a))
    → IsSettled c
    → AtHand (continue r f c)
continue-AtHand (ok a) f c h s = (h a).at_hand c s
continue-AtHand (err exc) f c h s = s

pub then-Gives :
    {W A : Type 0} (m : Exec (State W) A) (f : A → Exec (State W) (Members × Option ℕ))
    → Settles m
    → ((a : A) → Gives (f a))
    → Gives (m >>= f)
then-Gives m f h k = record { at_hand = λ c s. continue-AtHand (m c).0 f (m c).1 k (h.settled c s) }

pub pass-AtHand :
    {W : Type 0} (r : Result (Members × Option ℕ) × State W)
    (f : Members × Option ℕ → Exec (State W) (Members × Option ℕ))
    → AtHand r
    → ((result : Members) (fd : Option ℕ) (c : State W) → IsAllBut fd c → AtHand (f (result, fd) c))
    → AtHand (continue r.0 f r.1)
pass-AtHand (ok (result, fd), c) f h k = k result fd c h
pass-AtHand (err exc, c) f h k = h

pub pass-Gives :
    {W : Type 0} (m : Exec (State W) (Members × Option ℕ))
    (f : Members × Option ℕ → Exec (State W) (Members × Option ℕ))
    → Gives m
    → ((result : Members) (fd : Option ℕ) (c : State W) → IsAllBut fd c → AtHand (f (result, fd) c))
    → Gives (m >>= f)
pass-Gives m f h k = record { at_hand = λ c s. pass-AtHand (m c) f (h.at_hand c s) k }

pub end-Settled :
    {W A : Type 0} (r : Result (Members × Option ℕ) × State W)
    (f : Members × Option ℕ → Exec (State W) A)
    → AtHand r
    → ((result : Members) (fd : Option ℕ) (c : State W)
        → IsAllBut fd c
        → IsSettled (f (result, fd) c).1)
    → IsSettled (continue r.0 f r.1).1
end-Settled (ok (result, fd), c) f h k = k result fd c h
end-Settled (err exc, c) f h k = h

pub end-Settles :
    {W A : Type 0} (m : Exec (State W) (Members × Option ℕ))
    (f : Members × Option ℕ → Exec (State W) A)
    → Gives m
    → ((result : Members) (fd : Option ℕ) (c : State W)
        → IsAllBut fd c
        → IsSettled (f (result, fd) c).1)
    → Settles (m >>= f)
end-Settles m f h k = record { settled = λ c s. end-Settled (m c) f (h.at_hand c s) k }

pub close_fd-IsSettled :
    {W : Type 0} (fd : Option ℕ) (c : State W) → IsAllBut fd c → IsSettled (close_fd fd c)
close_fd-IsSettled fd c h = h.others_closed

pub take_fd-IsAllBut :
    {W : Type 0} (fd : Option ℕ) (c : State W) → IsSettled c → IsAllBut fd (take_fd fd c)
unfolding take_fd close_fd
take_fd-IsAllBut none c h = record { others_closed = h }
take_fd-IsAllBut (some fd) c h = record {
  others_closed = record { all_closed = ap (λ fds. fds ++ (fd ∷ [])) h.all_closed };
}
