-- ===== src/Mstore/Server/Listening/Ends.antt =====
-- How serve_forever of mstore/server.py ends: told to stop, or by an exception of accept.
use npb.Prelude.{
  ℕ, ◌≡◌, refl, sym, ap, ◌∙◌, ◌≢◌, ◌⊎◌, inl, inr, Bool, true, false, ◌||◌, List, [], ◌∷◌, ◌++◌,
  arith, if◌then◌else◌, ℤ,
}
use npb.Mstore.Errors.{Exn, ok}
use npb.Mstore.Endpoint.{unix, tcp, pipe, parse_endpoint}
use npb.Mstore.Server.Listening.{
  failure, or_break, is_os_error, is_pipe_error, ServerState, Event, happen_all, Turn, Next, go_on,
  break, raises, Progress, waiting, ended, raised, proceed, accept_loop, accept_socket, accept_pipe,
}
use npb.Mstore.Server.Listening.Forever.{
  Setup, _serve_socket_forever, _serve_pipe_forever, with_cleanup, finally_cleanup, _cleanup,
  serve_forever,
}
use npb.Mstore.Server.Listening.Stops.{
  any_stop, happen_all-stopped, accept_step, IsExpected, ArePatient, IsTurn, step-IsTurn,
  patient-IsExpected, IsFollowed, accept_loop-IsOver,
}

-- shutdown does not set `_stop` in these turns.
abbrev pub AreQuiet : List Turn → Type 0
AreQuiet [] = Unit {0}
AreQuiet (turn ∷ turns) =
    ((any_stop turn.before || any_stop turn.meanwhile) ≡ false) × AreQuiet turns

-- The loop has come to this, with `_stop` set just where it ended.
abbrev pub is_ended : Progress → Bool
is_ended waiting = false
is_ended ended = true
is_ended (raised exc) = false

abbrev IsAt : Progress → Progress × ServerState → Type 0
IsAt progress r = (r.0 ≡ progress) × (r.1.is_stopped ≡ is_ended progress)

quiet-raises :
    (caught : Bool) (exc : Exn) (u : ServerState) (b : Bool)
    → b ≡ false
    → u.is_stopped ≡ b
    → (or_break caught exc u).0 ≡ raises exc
quiet-raises false exc u b quiet e = refl
quiet-raises true exc u b quiet e = rw (e ∙ quiet) refl

step-raises :
    (on_pipe : Bool) (exc : Exn) (meanwhile : List Event) (t : ServerState)
    → (any_stop meanwhile || t.is_stopped) ≡ false
    → let r = accept_step on_pipe (failure exc) meanwhile t in
      (r.0 ≡ raises exc) × (r.1.is_stopped ≡ false)
unfolding accept_socket accept_pipe
step-raises false exc meanwhile t quiet =
    let e = happen_all-stopped meanwhile t in
    (quiet-raises (is_os_error exc) exc (happen_all meanwhile t) _ quiet e, e ∙ quiet)
step-raises true exc meanwhile t quiet =
    let e = happen_all-stopped meanwhile t in
    (quiet-raises (is_pipe_error exc) exc (happen_all meanwhile t) _ quiet e, e ∙ quiet)

proceed-raised :
    (exc : Exn) (r : Next × ServerState) (rest : ServerState → Progress × ServerState)
    → (r.0 ≡ raises exc) × (r.1.is_stopped ≡ false)
    → IsAt (raised exc) (proceed r rest)
proceed-raised exc (go_on, s) rest (never, _) = cc
proceed-raised exc (break, s) rest (never, _) = cc
proceed-raised exc (raises other, s) rest (same, quiet) = (cc, quiet)

proceed-goes :
    (progress : Progress) (on_pipe : Bool) (r : Next × ServerState)
    (rest : ServerState → Progress × ServerState)
    → IsTurn on_pipe r
    → r.1.is_stopped ≡ false
    → IsAt progress (rest r.1)
    → IsAt progress (proceed r rest)
proceed-goes progress on_pipe (go_on, s) rest turn quiet later = later
proceed-goes progress on_pipe (break, s) rest (inl (never, _)) quiet later = cc
proceed-goes progress on_pipe (break, s) rest (inr (_, stops)) quiet later = cc
proceed-goes progress on_pipe (raises exc, s) rest (inl (never, _)) quiet later = cc
proceed-goes progress on_pipe (raises exc, s) rest (inr (never, _)) quiet later = cc

if-quiet :
    (progress : Progress) (b : Bool) (s : ServerState) (q : Progress × ServerState)
    → b ≡ false
    → IsAt progress q
    → IsAt progress (if b then (ended, s) else q)
if-quiet progress true s q e h = cc
if-quiet progress false s q e h = h

accept_loop-raised :
    (on_pipe : Bool) (turn : Turn) (exc : Exn) (earlier later : List Turn) (s : ServerState)
    → turn.accept ≡ failure exc
    → (any_stop turn.before || any_stop turn.meanwhile) ≡ false
    → ArePatient on_pipe earlier
    → AreQuiet earlier
    → s.is_stopped ≡ false
    → IsAt (raised exc) (accept_loop (accept_step on_pipe) (earlier ++ (turn ∷ later)) s)
unfolding accept_loop
accept_loop-raised on_pipe turn exc [] later s fails quiet patient none_stops runs =
    let t = happen_all turn.before s in
    let still : t.is_stopped ≡ false =
      ground (arith, quiet, runs, happen_all-stopped turn.before s) in
    let told : (any_stop turn.meanwhile || t.is_stopped) ≡ false = ground (arith, quiet, still) in
    if-quiet (raised exc) t.is_stopped t _ still (
      rw fails (
        proceed-raised exc (accept_step on_pipe (failure exc) turn.meanwhile t) _
          (step-raises on_pipe exc turn.meanwhile t told)))
accept_loop-raised on_pipe turn exc (first ∷ earlier) later s fails quiet (here, patient)
      (calm, none_stops) runs =
    let t = happen_all first.before s in
    let r = accept_step on_pipe first.accept first.meanwhile t in
    let still : t.is_stopped ≡ false =
      ground (arith, calm, runs, happen_all-stopped first.before s) in
    let (e, goes) =
      step-IsTurn on_pipe first.accept first.meanwhile t
        (patient-IsExpected on_pipe first.accept here) (inl here) in
    let after : r.1.is_stopped ≡ false = ground (arith, calm, still, e) in
    if-quiet (raised exc) t.is_stopped t _ still (
      proceed-goes (raised exc) on_pipe r _ goes after (
        accept_loop-raised on_pipe turn exc earlier later r.1 fails quiet patient none_stops after))

-- What the last turn comes to: it ends the loop, with `_stop` set in it, or accept fails in it, with `_stop` not set.
abbrev pub IsLast :
    (on_pipe : Bool)
    → (earlier : List Turn) → Turn
    → (later : List Turn) → ServerState
    → Progress
    → Type 0
IsLast on_pipe earlier turn later s waiting = ⊥
IsLast on_pipe earlier turn later s ended =
    ((any_stop turn.before || any_stop turn.meanwhile) ≡ true)
    × (IsExpected on_pipe turn.accept × IsFollowed on_pipe later)
IsLast on_pipe earlier turn later s (raised exc) =
    ((any_stop turn.before || any_stop turn.meanwhile) ≡ false)
    × ((turn.accept ≡ failure exc) × (AreQuiet earlier × (s.is_stopped ≡ false)))

accept_loop-IsAt :
    (on_pipe : Bool) (earlier later : List Turn) (turn : Turn) (s : ServerState)
    (progress : Progress)
    → ArePatient on_pipe earlier
    → IsLast on_pipe earlier turn later s progress
    → IsAt progress (accept_loop (accept_step on_pipe) (earlier ++ (turn ∷ later)) s)
accept_loop-IsAt on_pipe earlier later turn s waiting patient last = absurd last
accept_loop-IsAt on_pipe earlier later turn s ended patient (stops, (expected, followed)) =
    accept_loop-IsOver on_pipe turn expected stops earlier later s patient followed
accept_loop-IsAt on_pipe earlier later turn s (raised exc) patient (quiet, (fails, (calm, runs))) =
    accept_loop-raised on_pipe turn exc earlier later s fails quiet patient calm runs

module _ (setup : Setup) where
  -- The listener for the endpoint can be made.
  abbrev pub IsReady : (on_pipe : Bool) → ServerState → Type 0
  IsReady true s =
      ((name : List ℕ) × (parse_endpoint setup.int_other s.endpoint ≡ ok (pipe name)))
      × ((listener : ℕ) × (setup.pipe_listener s.endpoint ≡ ok listener))
  IsReady false s =
      (((path : List ℕ) × (parse_endpoint setup.int_other s.endpoint ≡ ok (unix path)))
        ⊎ ((host : List ℕ) × (port : ℤ) × (parse_endpoint setup.int_other s.endpoint
              ≡ ok (tcp host port))))
      × ((made : ℕ × List ℕ) × (setup.socket_listener s.endpoint ≡ ok made))

  IsCleaned : Progress → Progress × ServerState → Type 0
  IsCleaned progress r =
      (u : ServerState) × ((u.is_stopped ≡ is_ended progress)
        × (r ≡ with_cleanup setup progress (_cleanup setup u)))

  cleaned :
      (progress : Progress) (r : Progress × ServerState)
      → progress ≢ waiting
      → IsAt progress r
      → IsCleaned progress (finally_cleanup setup r)
  unfolding IsCleaned
  cleaned progress (waiting, u) done (here, stops) = absurd (done (sym here))
  cleaned progress (ended, u) done (here, stops) =
      (u, (stops, ap (λ x. with_cleanup setup x (_cleanup setup u)) here))
  cleaned progress (raised exc, u) done (here, stops) =
      (u, (stops, ap (λ x. with_cleanup setup x (_cleanup setup u)) here))

  address-IsCleaned :
      (on_pipe : Bool) (turns : List Turn) (s : ServerState) (progress : Progress)
      → IsReady on_pipe s
      → progress ≢ waiting
      → ((t : ServerState)
          → t.is_stopped ≡ s.is_stopped
          → IsAt progress (accept_loop (accept_step on_pipe) turns t))
      → IsCleaned progress (serve_forever setup turns s)
  unfolding serve_forever _serve_socket_forever _serve_pipe_forever
  address-IsCleaned true turns s progress ((name, parsed), (listener, made)) done over =
      rw (parsed, made) (cleaned progress _ done (over _ refl))
  address-IsCleaned false turns s progress (inl (path, parsed), (listener, made)) done over =
      rw (parsed, made) (cleaned progress _ done (over _ refl))
  address-IsCleaned false turns s progress (inr (host, port, parsed), (listener, made)) done over =
      rw (parsed, made) (cleaned progress _ done (over _ refl))

  last-ends :
      (on_pipe : Bool) (earlier later : List Turn) (turn : Turn) (s : ServerState)
      (progress : Progress)
      → IsLast on_pipe earlier turn later s progress
      → progress ≢ waiting
  last-ends on_pipe earlier later turn s waiting last = absurd last
  last-ends on_pipe earlier later turn s ended last = λ e. cc
  last-ends on_pipe earlier later turn s (raised exc) last = λ e. cc

  same-IsLast :
      (on_pipe : Bool) (earlier later : List Turn) (turn : Turn) (s t : ServerState)
      (progress : Progress)
      → t.is_stopped ≡ s.is_stopped
      → IsLast on_pipe earlier turn later s progress
      → IsLast on_pipe earlier turn later t progress
  same-IsLast on_pipe earlier later turn s t waiting same last = last
  same-IsLast on_pipe earlier later turn s t ended same last = last
  same-IsLast on_pipe earlier later turn s t (raised exc) same (quiet, (fails, (calm, runs))) =
      (quiet, (fails, (calm, same ∙ runs)))

  -- Where the listener is made, and accept gave connections (on sockets, or timeouts) until the last turn. If
  -- shutdown sets _stop in that turn, before accept is called or while it blocks, and accept gives a connection, a
  -- timeout of a socket, or an exception that the loop catches, the accept loop ends without an exception, with
  -- _stop set, on a pipe in that turn, on sockets before accept is called once more at the latest. If _stop is
  -- never set and accept fails in the last turn, the loop raises that exception. In both cases _cleanup runs then,
  -- and serve_forever ends so, or raises what _cleanup raises.
  pub serve_forever-ends :
      (on_pipe : Bool) (earlier later : List Turn) (turn : Turn) (s : ServerState)
      (progress : Progress)
      → IsReady on_pipe s
      → ArePatient on_pipe earlier
      → IsLast on_pipe earlier turn later s progress
      → (u : ServerState) × ((u.is_stopped ≡ is_ended progress)
          × (serve_forever setup (earlier ++ (turn ∷ later)) s
              ≡ with_cleanup setup progress (_cleanup setup u)))
  unfolding IsCleaned
  serve_forever-ends on_pipe earlier later turn s progress ready patient last =
      address-IsCleaned on_pipe (earlier ++ (turn ∷ later)) s progress ready
        (last-ends on_pipe earlier later turn s progress last)
        λ t same.
          accept_loop-IsAt on_pipe earlier later turn t progress patient
            (same-IsLast on_pipe earlier later turn s t progress same last)
