-- ===== src/Mstore/Server/Answers.antt =====
-- _serve_connection of mstore/server.py answers every request of a connection, in order.
use npb.Prelude.{
  ℕ, ◌≡◌, refl, sym, ap, ◌∙◌, Bool, false, Option, none, some, List, [], ◌∷◌, ◌++◌, map,
  append_assoc, append-nil,
}
use npb.Mstore.Errors.{Exn, Result, ok, err}
use npb.Mstore.Json.{Members}
use npb.Mstore.Records.{Platform, Registry}
use npb.Mstore.Server.{Services, Draws, Reply, handle}
use npb.Mstore.Server.Serve.{
  Response, success, _error_payload, Round, Session, Next, go_on, break, raises, proceed, take_fd,
  close_fd, report, respond, answer, serve_request, serve_round, serve_loop, _serve_connection,
}

-- The response to what _handle returns or raises.
unfoldable pub response_to : (debug : Bool) → Result (Reply × Option ℕ) → Response
response_to debug (ok (reply, fd)) = success reply fd
response_to debug (err exc) = _error_payload debug exc

-- A request, with what it draws, on a connection that works, from a server that is not stopped.
abbrev pub round_of : Members × Draws → Round
round_of (request, draws) = record {
  stopping = false;
  incoming = ok (request, none);
  draws = draws;
  result_sent = ok tt;
  error_sent = ok tt;
}

module _ (p : Platform) (services : Services) (debug : Bool) where
  -- The requests handled one after the other: the responses, and the registry.
  unfoldable pub responses : List (Members × Draws) → Registry → List Response
  unfolding response_to
  responses [] r = []
  responses ((request, draws) ∷ qs) r =
      let handled = handle p services request draws r in
      response_to debug handled.0 ∷ responses qs handled.1

  unfoldable pub handle_all : List (Members × Draws) → Registry → Registry
  handle_all [] r = r
  handle_all ((request, draws) ∷ qs) r = handle_all qs (handle p services request draws r).1

  -- What a round changes but the descriptors.
  record IsAnswered (s : Session) (response : Response) (r : Registry) (after : Next × Session)
      : Type 0 where
    goes_on : after.0 ≡ go_on
    sent_eq : after.1.sent ≡ s.sent ++ (response ∷ [])
    registry_eq : after.1.registry ≡ r

  close_fd-sent :
      (fd : Option ℕ) (s : Session)
      → ((close_fd fd s).sent ≡ s.sent) × ((close_fd fd s).registry ≡ s.registry)
  unfolding close_fd
  close_fd-sent none s = (refl, refl)
  close_fd-sent (some fd) s = (refl, refl)

  respond-IsAnswered :
      (r : Result (Reply × Option ℕ)) (q : Members × Draws) (s : Session)
      → IsAnswered s (response_to debug r) s.registry (respond p services debug r (round_of q) s)
  unfolding respond report response_to take_fd close_fd
  respond-IsAnswered (err exc) q s = record { goes_on = refl; sent_eq = refl; registry_eq = refl }
  respond-IsAnswered (ok (reply, none)) q s = record {
    goes_on = refl;
    sent_eq = refl;
    registry_eq = refl;
  }
  respond-IsAnswered (ok (reply, some fd)) q s = record {
    goes_on = refl;
    sent_eq = refl;
    registry_eq = refl;
  }

  serve_round-IsAnswered :
      (q : Members × Draws) (s : Session)
      → let handled = handle p services q.0 q.1 s.registry in
        IsAnswered s
          (response_to debug handled.0)
          handled.1
          (serve_round p services debug (round_of q) s)
  unfolding serve_round serve_request answer
  serve_round-IsAnswered (request, draws) s =
      let handled = handle p services request draws s.registry in
      let found =
        respond-IsAnswered handled.0 (request, draws) (record s { registry = handled.1 }) in
      record { goes_on = found.goes_on; sent_eq = found.sent_eq; registry_eq = found.registry_eq }

  proceed-go_on :
      (r : Next × Session) (rest : Session → Option Exn × Session)
      → r.0 ≡ go_on
      → proceed p services debug r rest ≡ rest r.1
  proceed-go_on (go_on, s) rest h = refl
  proceed-go_on (break, s) rest h = cc
  proceed-go_on (raises exc, s) rest h = cc

  serve_loop-responses :
      (qs : List (Members × Draws)) (s : Session)
      → let done = serve_loop p services debug (map round_of qs) s in
        (done.0 ≡ none)
        × ((done.1.sent ≡ s.sent ++ responses qs s.registry)
            × (done.1.registry ≡ handle_all qs s.registry))
  unfolding serve_loop responses handle_all
  serve_loop-responses [] s = (refl, (sym (append-nil s.sent), refl))
  serve_loop-responses (q ∷ qs) s =
      let first = serve_round-IsAnswered q s in
      let t = (serve_round p services debug (round_of q) s).1 in
      let (ended, (sent, registry)) = serve_loop-responses qs t in
      let handled = handle p services q.0 q.1 s.registry in
      let e =
        proceed-go_on (serve_round p services debug (round_of q) s)
          (serve_loop p services debug (map round_of qs)) first.goes_on in
      (
        ap (λ d. d.0) e ∙ ended,
        (
          ap (λ d. d.1.sent) e
              ∙ sent
              ∙ ap (λ r. t.sent ++ responses qs r) first.registry_eq
              ∙ ap (λ l. l ++ responses qs handled.1) first.sent_eq
              ∙ append_assoc s.sent (response_to debug handled.0 ∷ []) (responses qs handled.1),
          ap (λ d. d.1.registry) e ∙ registry ∙ ap (handle_all qs) first.registry_eq,
        ),
      )

  -- Any requests without descriptors, on a connection that works, until the peer closes it, where the
  -- server is not stopped: each is answered, in order, with what _handle returns or raises on the registry
  -- that the ones before left; then the worker ends, with the registry that they all left, and the connection closed.
  pub _serve_connection-responses :
      (qs : List (Members × Draws)) (s : Session)
      → let done = _serve_connection p services debug (map round_of qs) s in
        (done.0 ≡ none)
        × ((done.1.sent ≡ s.sent ++ responses qs s.registry)
            × ((done.1.registry ≡ handle_all qs s.registry) × (done.1.is_open ≡ false)))
  unfolding _serve_connection
  _serve_connection-responses qs s =
      let (ended, (sent, registry)) = serve_loop-responses qs s in (ended, (sent, (registry, refl)))
