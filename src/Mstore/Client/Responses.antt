-- ===== src/Mstore/Client/Responses.antt =====
-- The requests of the client of mstore/client.py close the descriptors that they do not return.
use npb.Prelude.{
  ℕ, String, inl, inr, Bool, true, false, Option, none, some, ◌==◌, if◌then◌else◌, Bool-cases,
}
use npb.Mstore.Errors.{Result, ok, err}
use npb.Mstore.Json.{Json, Members, object, text, null, boolean, integer, real, array}
use npb.Mstore.Server.{member_of}
use npb.Mstore.Client.{
  System, State, _after_fork_if_needed, connected, existing, _ensure_connection, _drop_connection,
  or_drop, got, exchange, result_of, check_response, _request, in_world, is_lost, truthy_member,
}
use npb.Mstore.Client.Settles.{
  IsSettled, IsAllBut, Settles, AtHand, Gives, then-Gives, pass-Gives, take_fd-IsAllBut,
}

module _ {W : Type 0} (sys : System W) (endpoint : String) where
  or_drop-Settles :
      {A : Type 0} (r : Result A × State W) → IsSettled r.1 → IsSettled (or_drop sys endpoint r).1
  unfolding _drop_connection
  or_drop-Settles (ok a, c) s = s
  or_drop-Settles (err exc, c) s = elim (Bool-cases (is_lost exc)) [
    | inl lost ↦ rw lost (record { all_closed = s.all_closed })
    | inr kept ↦ rw kept s
  ]

  connected-Settles :
      (r : Result ℕ × State W) → IsSettled r.1 → IsSettled (connected sys endpoint r).1
  connected-Settles (ok conn, c) s = record { all_closed = s.all_closed }
  connected-Settles (err exc, c) s = s

  existing-Settles :
      (conn : Option ℕ) (c : State W) → IsSettled c → IsSettled (existing sys endpoint conn c).1
  existing-Settles (some conn) c s = s
  existing-Settles none c s =
      connected-Settles (in_world (sys.connect_control endpoint) c)
        (record { all_closed = s.all_closed })

  _after_fork_if_needed-IsSettled :
      (c : State W) → IsSettled c → IsSettled (_after_fork_if_needed sys endpoint c)
  unfolding _after_fork_if_needed
  _after_fork_if_needed-IsSettled c s = elim (Bool-cases (sys.getpid c.world == c.pid)) [
    | inl same ↦ rw same s
    | inr forked ↦ rw forked (record { all_closed = s.all_closed })
  ]

  pub if-Settled :
      {A : Type 0} (b : Bool) (x y : Result A × State W)
      → IsSettled x.1
      → IsSettled y.1
      → IsSettled (if b then x else y).1
  if-Settled true x y h k = h
  if-Settled false x y h k = k

  _ensure_connection-Settles : Settles (_ensure_connection sys endpoint)
  unfolding _ensure_connection
  _ensure_connection-Settles = record {
    settled = λ c s.
        let c' = _after_fork_if_needed sys endpoint c in
        let s' = _after_fork_if_needed-IsSettled c s in
        if-Settled c'.is_closed _ _ s' (existing-Settles c'.conn c' s');
  }

  got-AtHand :
      (r : Result (Members × Option ℕ) × State W) → IsSettled r.1 → AtHand (got sys endpoint r)
  got-AtHand (ok (response, fd), c) s = take_fd-IsAllBut fd c s
  got-AtHand (err exc, c) s = s

  exchange-Gives :
      (conn : ℕ) (op : String) (args : Members) → Gives (exchange sys endpoint conn op args)
  unfolding exchange
  exchange-Gives conn op args =
      then-Gives (λ c. or_drop sys endpoint (in_world (sys.send conn op args) c)) _
        (record {
          settled = λ c s.
              or_drop-Settles (in_world (sys.send conn op args) c)
                (record { all_closed = s.all_closed });
        })
        λ done. record {
          at_hand = λ c s.
              got-AtHand (or_drop sys endpoint (in_world (sys.recv conn) c)) (
                or_drop-Settles (in_world (sys.recv conn) c)
                  (record { all_closed = s.all_closed }));
        }

  result_of-AtHand :
      (r : Option Json) (fd : Option ℕ) (c : State W)
      → IsAllBut fd c
      → AtHand (result_of sys endpoint r fd c)
  result_of-AtHand (some (object result)) fd c h = h
  result_of-AtHand none fd c h = h.others_closed
  result_of-AtHand (some null) fd c h = h.others_closed
  result_of-AtHand (some (boolean b)) fd c h = h.others_closed
  result_of-AtHand (some (integer z)) fd c h = h.others_closed
  result_of-AtHand (some (real f)) fd c h = h.others_closed
  result_of-AtHand (some (text t)) fd c h = h.others_closed
  result_of-AtHand (some (array vs)) fd c h = h.others_closed

  check_response-AtHand :
      (response : Members) (fd : Option ℕ) (c : State W)
      → IsAllBut fd c
      → AtHand (check_response sys endpoint (response, fd) c)
  unfolding check_response
  check_response-AtHand response fd c h =
      elim (Bool-cases (truthy_member (member_of "ok" response))) [
        | inl fine ↦ rw fine (result_of-AtHand (member_of "result" response) fd c h)
        | inr failed ↦ rw failed h.others_closed
      ]

  pub _request-Gives : (op : String) (args : Members) → Gives (_request sys endpoint op args)
  unfolding _request
  _request-Gives op args =
      then-Gives (_ensure_connection sys endpoint) _ _ensure_connection-Settles λ conn.
        pass-Gives (exchange sys endpoint conn op args) (check_response sys endpoint)
          (exchange-Gives conn op args) check_response-AtHand
