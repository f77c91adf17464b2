-- ===== src/Mstore/Server/Listening/Tended.antt =====
-- That the server of mstore/server.py keeps track of the connections and the listeners that it gets.
use npb.Prelude.{
  ℕ, ◌≡◌, refl, inl, inr, Bool, true, false, ◌||◌, Option, none, some, List, [], ◌∷◌, ◌++◌, arith,
  ◌==◌, if◌then◌else◌, ==_iff, Bool-cases,
}
use npb.Mstore.Server.Listening.{
  ServerState, contains, add, discard, _register_connection, _start_worker, close_connection, Event,
  worker_ends, worker_handles, sets_stop, closes_listener, closes_pipe, closes_connections,
  finish_worker, close_listener, close_connections, happen, happen_all, Accept, connection, timeout,
  failure, Turn, Next, go_on, break, raises, got, accept_socket, accept_pipe, start_or_close,
  AcceptStep, Progress, proceed, accept_loop,
}

pub contains-append :
    (c : ℕ) (xs ys : List ℕ) → contains c (xs ++ ys) ≡ (contains c xs || contains c ys)
unfolding contains
contains-append c [] ys = refl
contains-append c (x ∷ xs) ys = ground (arith, contains-append c xs ys)

pub contains-nil : (c : ℕ) → contains c [] ≡ false
unfolding contains
contains-nil c = refl

pub contains-single : (c d : ℕ) → contains c (d ∷ []) ≡ (c == d)
unfolding contains
contains-single c d = ground arith

add_known :
    (c d : ℕ) (xs : List ℕ) → contains d xs ≡ true → contains c xs ≡ (c == d || contains c xs)
add_known c d xs old = elim (Bool-cases (c == d)) [
  | inl same ↦ rw (same, (==_iff c d).0 same) old
  | inr other ↦ rw other refl
]

contains-add : (c d : ℕ) (xs : List ℕ) → contains c (add d xs) ≡ (c == d || contains c xs)
unfolding add contains
contains-add c d xs = elim (Bool-cases (contains d xs)) [
  | inl old ↦ rw old (add_known c d xs old)
  | inr new ↦ rw new refl
]

pub contains-discard :
    (c d : ℕ) (xs : List ℕ) → contains c xs ≡ true → (contains c (discard d xs) || c == d) ≡ true
unfolding contains discard
contains-discard c d [] h = cc
contains-discard c d (x ∷ xs) h = ground (arith, contains-discard c d xs)

abbrev pub listener_list : Option ℕ → List ℕ
listener_list none = []
listener_list (some l) = l ∷ []

-- Every connection that accept gave is at hand, registered or closed, and every listener that was made is kept.
pub record IsTended (held : List ℕ) (s : ServerState) : Type 0 where
  pub tended :
      (c : ℕ)
      → contains c s.accepted ≡ true
      → (contains c held || (contains c s.connections || contains c s.closed)) ≡ true
  pub kept : s.made_listeners ≡ listener_list s.socket_listener ++ listener_list s.pipe_listener

finish_worker-IsTended :
    (held : List ℕ) (conn : ℕ) (s : ServerState)
    → IsTended held s
    → IsTended held (finish_worker conn s)
unfolding finish_worker
finish_worker-IsTended held conn s h = record {
  tended = λ c a. ground (
    arith,
    h.tended c a,
    contains-append c s.closed (conn ∷ []),
    contains-single c conn,
    contains-discard c conn s.connections,
  );
  kept = h.kept;
}

close_connections-IsTended :
    (held : List ℕ) (s : ServerState) → IsTended held s → IsTended held (close_connections s)
unfolding close_connections
close_connections-IsTended held s h = record {
  tended = λ c a. ground (arith, h.tended c a, contains-append c s.closed s.connections);
  kept = h.kept;
}

close_listener-IsTended :
    (held : List ℕ) (l : Option ℕ) (s : ServerState)
    → IsTended held s
    → IsTended held (close_listener l s)
unfolding close_listener
close_listener-IsTended held none s h = h
close_listener-IsTended held (some l) s h = record { tended = h.tended; kept = h.kept }

happen-IsTended :
    (held : List ℕ) (event : Event) (s : ServerState)
    → IsTended held s
    → IsTended held (happen event s)
unfolding happen
happen-IsTended held (worker_ends conn) s h = finish_worker-IsTended held conn s h
happen-IsTended held (worker_handles registry) s h = record { tended = h.tended; kept = h.kept }
happen-IsTended held sets_stop s h = record { tended = h.tended; kept = h.kept }
happen-IsTended held closes_listener s h = close_listener-IsTended held s.socket_listener s h
happen-IsTended held closes_pipe s h = close_listener-IsTended held s.pipe_listener s h
happen-IsTended held closes_connections s h = close_connections-IsTended held s h

happen_all-IsTended :
    (held : List ℕ) (events : List Event) (s : ServerState)
    → IsTended held s
    → IsTended held (happen_all events s)
unfolding happen_all
happen_all-IsTended held [] s h = h
happen_all-IsTended held (event ∷ events) s h =
    happen_all-IsTended held events (happen event s) (happen-IsTended held event s h)

start-IsTended :
    (conn : ℕ) (s : ServerState) → IsTended (conn ∷ []) s → IsTended [] (_start_worker conn s)
unfolding _start_worker _register_connection
start-IsTended conn s h = record {
  tended = λ c a.
      ground (arith, h.tended c a, contains-single c conn, contains-add c conn s.connections);
  kept = h.kept;
}

got-IsTended : (conn : ℕ) (s : ServerState) → IsTended [] s → IsTended (conn ∷ []) (got conn s)
got-IsTended conn s h = record {
  tended = λ c a. ground (
    arith,
    a,
    h.tended c,
    contains-nil c,
    contains-append c s.accepted (conn ∷ []),
    contains-single c conn,
  );
  kept = h.kept;
}

close-IsTended :
    (conn : ℕ) (s : ServerState) → IsTended (conn ∷ []) s → IsTended [] (close_connection conn s)
close-IsTended conn s h = record {
  tended = λ c a.
      ground (arith, h.tended c a, contains-single c conn, contains-append c s.closed (conn ∷ []));
  kept = h.kept;
}

pub accept_socket-IsTended :
    (a : Accept) (meanwhile : List Event) (s : ServerState)
    → IsTended [] s
    → IsTended [] (accept_socket a meanwhile s).1
unfolding accept_socket
accept_socket-IsTended (connection conn) meanwhile s h =
    start-IsTended conn (happen_all meanwhile (got conn s))
      (happen_all-IsTended (conn ∷ []) meanwhile (got conn s) (got-IsTended conn s h))
accept_socket-IsTended timeout meanwhile s h = happen_all-IsTended [] meanwhile s h
accept_socket-IsTended (failure exc) meanwhile s h = happen_all-IsTended [] meanwhile s h

if-Kept :
    {A : Type 0} (b : Bool) (p q : A × ServerState)
    → IsTended [] p.1
    → IsTended [] q.1
    → IsTended [] (if b then p else q).1
if-Kept true p q h k = h
if-Kept false p q h k = k

start_or_close-IsTended :
    (conn : ℕ) (s : ServerState) → IsTended (conn ∷ []) s → IsTended [] (start_or_close conn s).1
start_or_close-IsTended conn s h =
    if-Kept s.is_stopped (break, close_connection conn s) (go_on, _start_worker conn s)
      (close-IsTended conn s h) (start-IsTended conn s h)

pub accept_pipe-IsTended :
    (a : Accept) (meanwhile : List Event) (s : ServerState)
    → IsTended [] s
    → IsTended [] (accept_pipe a meanwhile s).1
unfolding accept_pipe
accept_pipe-IsTended (connection conn) meanwhile s h =
    start_or_close-IsTended conn (happen_all meanwhile (got conn s))
      (happen_all-IsTended (conn ∷ []) meanwhile (got conn s) (got-IsTended conn s h))
accept_pipe-IsTended timeout meanwhile s h = happen_all-IsTended [] meanwhile s h
accept_pipe-IsTended (failure exc) meanwhile s h = happen_all-IsTended [] meanwhile s h

proceed-IsTended :
    (next : Next × ServerState) (rest : ServerState → Progress × ServerState)
    → IsTended [] next.1
    → ((s : ServerState) → IsTended [] s → IsTended [] (rest s).1)
    → IsTended [] (proceed next rest).1
proceed-IsTended (go_on, s) rest h later = later s h
proceed-IsTended (break, s) rest h later = h
proceed-IsTended (raises exc, s) rest h later = h

pub accept_loop-IsTended :
    (step : AcceptStep)
    → ((a : Accept) (meanwhile : List Event) (s : ServerState)
        → IsTended [] s
        → IsTended [] (step a meanwhile s).1)
    → (turns : List Turn) (s : ServerState) → IsTended [] s
    → IsTended [] (accept_loop step turns s).1
unfolding accept_loop
accept_loop-IsTended step keeps [] s h = h
accept_loop-IsTended step keeps (turn ∷ turns) s h =
    let t = happen_all turn.before s in
    let k = happen_all-IsTended [] turn.before s h in
    if-Kept t.is_stopped _ _ k (
      proceed-IsTended (step turn.accept turn.meanwhile t) (accept_loop step turns)
        (keeps turn.accept turn.meanwhile t k) (accept_loop-IsTended step keeps turns))
