-- ===== src/Mstore/Server/Listening/Stops.antt =====
-- The accept loops of mstore/server.py once shutdown has set `_stop`.
use npb.Prelude.{
  ℕ, ◌≡◌, refl, ◌∙◌, ◌⊎◌, inl, inr, Bool, true, false, ◌&&◌, ◌||◌, Option, none, some, List, [],
  ◌∷◌, ◌++◌, arith, if◌then◌else◌,
}
use npb.Mstore.Errors.{Exn}
use npb.Mstore.Server.Listening.{
  Accept, connection, timeout, failure, got, or_break, is_os_error, is_pipe_error, start_or_close,
  close_connection, _start_worker, _register_connection, ServerState, Event, worker_ends,
  worker_handles, sets_stop, closes_listener, closes_pipe, closes_connections, happen, happen_all,
  finish_worker, close_listener, close_connections, _unregister_connection, Turn, Next, go_on,
  break, raises, Progress, ended, proceed, AcceptStep, accept_loop, accept_socket, accept_pipe,
}

-- shutdown has set `_stop`.
abbrev pub is_stop : Event → Bool
is_stop (worker_ends conn) = false
is_stop (worker_handles registry) = false
is_stop sets_stop = true
is_stop closes_listener = false
is_stop closes_pipe = false
is_stop closes_connections = false

unfoldable pub any_stop : List Event → Bool
any_stop [] = false
any_stop (event ∷ events) = is_stop event || any_stop events

close_listener-stopped :
    (l : Option ℕ) (s : ServerState) → (close_listener l s).is_stopped ≡ s.is_stopped
unfolding close_listener
close_listener-stopped none s = refl
close_listener-stopped (some l) s = refl

happen-stopped :
    (event : Event) (s : ServerState)
    → (happen event s).is_stopped ≡ (is_stop event || s.is_stopped)
unfolding happen finish_worker _unregister_connection close_connections
happen-stopped (worker_ends conn) s = refl
happen-stopped (worker_handles registry) s = refl
happen-stopped sets_stop s = refl
happen-stopped closes_listener s = close_listener-stopped s.socket_listener s
happen-stopped closes_pipe s = close_listener-stopped s.pipe_listener s
happen-stopped closes_connections s = refl

pub happen_all-stopped :
    (events : List Event) (s : ServerState)
    → (happen_all events s).is_stopped ≡ (any_stop events || s.is_stopped)
unfolding happen_all any_stop
happen_all-stopped [] s = refl
happen_all-stopped (event ∷ events) s =
    ground (arith, happen_all-stopped events (happen event s), happen-stopped event s)

abbrev pub accept_step : (on_pipe : Bool) → AcceptStep
accept_step true = accept_pipe
accept_step false = accept_socket

-- What accept gives as long as nothing fails, where a pipe has no timeouts.
abbrev pub IsPatient : (on_pipe : Bool) → Accept → Type 0
IsPatient on_pipe (connection conn) = Unit {0}
IsPatient false timeout = Unit {0}
IsPatient true timeout = ⊥
IsPatient on_pipe (failure exc) = ⊥

-- What the loop goes on with or breaks for, once `_stop` is set.
abbrev pub IsExpected : (on_pipe : Bool) → Accept → Type 0
IsExpected on_pipe (connection conn) = Unit {0}
IsExpected false timeout = Unit {0}
IsExpected true timeout = ⊥
IsExpected false (failure exc) = is_os_error exc ≡ true
IsExpected true (failure exc) = is_pipe_error exc ≡ true

abbrev pub ArePatient : (on_pipe : Bool) → List Turn → Type 0
ArePatient on_pipe [] = Unit {0}
ArePatient on_pipe (turn ∷ turns) = IsPatient on_pipe turn.accept × ArePatient on_pipe turns

-- The loop is over, with `_stop` set.
abbrev IsOver : Progress × ServerState → Type 0
IsOver r = (r.0 ≡ ended) × (r.1.is_stopped ≡ true)

start_worker-stopped :
    (conn : ℕ) (s : ServerState) → (_start_worker conn s).is_stopped ≡ s.is_stopped
unfolding _start_worker _register_connection
start_worker-stopped conn s = refl

-- A turn of the loop goes on, on a pipe only where `_stop` is not set, or breaks where it is.
abbrev pub IsTurn : (on_pipe : Bool) → Next × ServerState → Type 0
IsTurn on_pipe r =
    ((r.0 ≡ go_on) × ((on_pipe && r.1.is_stopped) ≡ false))
    ⊎ ((r.0 ≡ break) × (r.1.is_stopped ≡ true))

told-IsTurn :
    (on_pipe b : Bool) (exc : Exn) (u : ServerState)
    → b ≡ true
    → u.is_stopped ≡ b
    → IsTurn on_pipe ((if b then break else raises exc), u)
told-IsTurn on_pipe true exc u stops e = inr (refl, e)
told-IsTurn on_pipe false exc u stops e = cc

broken :
    (on_pipe caught : Bool) (exc : Exn) (u : ServerState) (b : Bool)
    → caught ≡ true
    → b ≡ true
    → u.is_stopped ≡ b
    → ((or_break caught exc u).1.is_stopped ≡ b) × IsTurn on_pipe (or_break caught exc u)
broken on_pipe true exc u b expected stops e =
    (e, told-IsTurn on_pipe u.is_stopped exc u (e ∙ stops) refl)
broken on_pipe false exc u b expected stops e = cc

chosen-IsTurn :
    (conn : ℕ) (u : ServerState) (b : Bool)
    → u.is_stopped ≡ b
    → let r : Next × ServerState =
        if b then (break, close_connection conn u) else (go_on, _start_worker conn u) in
      (r.1.is_stopped ≡ b) × IsTurn true r
chosen-IsTurn conn u true e = (e, inr (refl, e))
chosen-IsTurn conn u false e =
    let same = start_worker-stopped conn u in (same ∙ e, inl (refl, same ∙ e))

starts :
    (conn : ℕ) (u : ServerState) (b : Bool)
    → u.is_stopped ≡ b
    → ((start_or_close conn u).1.is_stopped ≡ b) × IsTurn true (start_or_close conn u)
starts conn u b e = let (same, turn) = chosen-IsTurn conn u u.is_stopped refl in (same ∙ e, turn)

pub step-IsTurn :
    (on_pipe : Bool) (a : Accept) (meanwhile : List Event) (t : ServerState)
    → IsExpected on_pipe a
    → IsPatient on_pipe a ⊎ ((any_stop meanwhile || t.is_stopped) ≡ true)
    → let r = accept_step on_pipe a meanwhile t in
      (r.1.is_stopped ≡ (any_stop meanwhile || t.is_stopped)) × IsTurn on_pipe r
unfolding accept_socket accept_pipe
step-IsTurn false (connection conn) meanwhile t expected h = (
  start_worker-stopped conn (happen_all meanwhile (got conn t))
      ∙ happen_all-stopped meanwhile (got conn t),
  inl (refl, refl),
)
step-IsTurn false timeout meanwhile t expected h =
    (happen_all-stopped meanwhile t, inl (refl, refl))
step-IsTurn false (failure exc) meanwhile t expected (inl never) = absurd never
step-IsTurn false (failure exc) meanwhile t expected (inr stops) =
    broken false (is_os_error exc) exc (happen_all meanwhile t) _ expected stops
      (happen_all-stopped meanwhile t)
step-IsTurn true (connection conn) meanwhile t expected h =
    starts conn (happen_all meanwhile (got conn t)) _ (happen_all-stopped meanwhile (got conn t))
step-IsTurn true timeout meanwhile t expected h = absurd expected
step-IsTurn true (failure exc) meanwhile t expected (inl never) = absurd never
step-IsTurn true (failure exc) meanwhile t expected (inr stops) =
    broken true (is_pipe_error exc) exc (happen_all meanwhile t) _ expected stops
      (happen_all-stopped meanwhile t)

proceed-IsOver :
    (on_pipe : Bool) (r : Next × ServerState) (rest : ServerState → Progress × ServerState)
    → IsTurn on_pipe r
    → ((on_pipe && r.1.is_stopped) ≡ false → IsOver (rest r.1))
    → IsOver (proceed r rest)
proceed-IsOver on_pipe (go_on, s) rest (inl (_, runs)) later = later runs
proceed-IsOver on_pipe (go_on, s) rest (inr (never, _)) later = cc
proceed-IsOver on_pipe (break, s) rest (inl (never, _)) later = cc
proceed-IsOver on_pipe (break, s) rest (inr (_, stops)) later = (refl, stops)
proceed-IsOver on_pipe (raises exc, s) rest (inl (never, _)) later = cc
proceed-IsOver on_pipe (raises exc, s) rest (inr (never, _)) later = cc

if-IsOver :
    (b : Bool) (s : ServerState) (q : Progress × ServerState)
    → s.is_stopped ≡ b
    → (b ≡ false → IsOver q)
    → IsOver (if b then (ended, s) else q)
if-IsOver true s q e h = (refl, e)
if-IsOver false s q e h = h refl

-- The loop reads `_stop` before it accepts.
stopped-IsOver :
    (step : AcceptStep) (turn : Turn) (turns : List Turn) (s : ServerState)
    → s.is_stopped ≡ true
    → IsOver (accept_loop step (turn ∷ turns) s)
unfolding accept_loop
stopped-IsOver step turn turns s stops =
    if-IsOver (happen_all turn.before s).is_stopped _ _ refl
      λ runs. absurd (ground (arith, runs, stops, happen_all-stopped turn.before s))

turn-IsOver :
    (on_pipe : Bool) (turn : Turn) (turns : List Turn) (s : ServerState)
    → IsExpected on_pipe turn.accept
    → IsPatient on_pipe turn.accept ⊎ ((any_stop turn.before || any_stop turn.meanwhile) ≡ true)
    → ((u : ServerState)
        → u.is_stopped ≡ (any_stop turn.meanwhile || (happen_all turn.before s).is_stopped)
        → (on_pipe && u.is_stopped) ≡ false
        → IsOver (accept_loop (accept_step on_pipe) turns u))
    → IsOver (accept_loop (accept_step on_pipe) (turn ∷ turns) s)
unfolding accept_loop
turn-IsOver on_pipe turn turns s expected h later =
    let t = happen_all turn.before s in
    if-IsOver t.is_stopped t _ refl λ runs.
      let told : IsPatient on_pipe turn.accept
          ⊎ ((any_stop turn.meanwhile || t.is_stopped) ≡ true) =
        elim h [
          | inl patient ↦ inl patient
          | inr stops ↦ inr (ground (arith, stops, runs, happen_all-stopped turn.before s))
        ] in
      let (e, next) = step-IsTurn on_pipe turn.accept turn.meanwhile t expected told in
      proceed-IsOver on_pipe (accept_step on_pipe turn.accept turn.meanwhile t) _ next
        λ quiet. later (accept_step on_pipe turn.accept turn.meanwhile t).1 e quiet

pub patient-IsExpected : (on_pipe : Bool) (a : Accept) → IsPatient on_pipe a → IsExpected on_pipe a
patient-IsExpected on_pipe (connection conn) h = tt
patient-IsExpected false timeout h = tt
patient-IsExpected true timeout h = h
patient-IsExpected on_pipe (failure exc) h = absurd h

-- Sockets are told by the turn behind.
abbrev pub IsFollowed : (on_pipe : Bool) → List Turn → Type 0
IsFollowed true later = Unit {0}
IsFollowed false [] = ⊥
IsFollowed false (turn ∷ later) = Unit {0}

module _ (on_pipe : Bool) (turn : Turn) (expected : IsExpected on_pipe turn.accept)
    (stops : (any_stop turn.before || any_stop turn.meanwhile) ≡ true) where
  followed-IsOver :
      (pipes : Bool) (later : List Turn) (s u : ServerState)
      → IsFollowed pipes later
      → u.is_stopped ≡ (any_stop turn.meanwhile || (happen_all turn.before s).is_stopped)
      → (pipes && u.is_stopped) ≡ false
      → IsOver (accept_loop (accept_step pipes) later u)
  followed-IsOver true later s u followed e runs =
      absurd (ground (arith, stops, e, runs, happen_all-stopped turn.before s))
  followed-IsOver false [] s u followed e runs = absurd followed
  followed-IsOver false (next ∷ later) s u followed e runs =
      stopped-IsOver accept_socket next later u
        (ground (arith, stops, e, happen_all-stopped turn.before s))

  pub accept_loop-IsOver :
      (earlier later : List Turn) (s : ServerState)
      → ArePatient on_pipe earlier
      → IsFollowed on_pipe later
      → IsOver (accept_loop (accept_step on_pipe) (earlier ++ (turn ∷ later)) s)
  accept_loop-IsOver [] later s patient followed =
      turn-IsOver on_pipe turn later s expected (inr stops)
        λ u e runs. followed-IsOver on_pipe later s u followed e runs
  accept_loop-IsOver (first ∷ earlier) later s (here, patient) followed =
      turn-IsOver on_pipe first (earlier ++ (turn ∷ later)) s
        (patient-IsExpected on_pipe first.accept here) (inl here)
        λ u e runs. accept_loop-IsOver earlier later u patient followed
