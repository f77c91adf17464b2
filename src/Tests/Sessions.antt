-- ===== src/Tests/Sessions.antt =====
-- A connection to a server with one object: an open, a request with a descriptor, a lost connection.
use npb.Prelude.{◌≡◌, true, false, none, some, List, [], ◌∷◌, ◌++◌, map}
use npb.Mstore.Errors.{ok, err, os_error}
use npb.Mstore.Records.{new_registry}
use npb.Mstore.Registry.Invariant.{run}
use npb.Mstore.Server.Serve.{Round, Session, _serve_connection}
use npb.Mstore.Server.Answers.{round_of, responses, handle_all, _serve_connection-responses}
use npb.Tests.Stores.{platform, calls}
use npb.Tests.Requests.{services, draws, request}

abbrev new_session : Session
new_session = record {
  registry = run platform calls new_registry;
  sent = [];
  taken = [];
  closed = [];
  is_open = true;
  is_registered = true;
}

-- The reply is not sent, the error is; then a descriptor comes.
abbrev rounds : List Round
rounds =
    record (round_of (request, draws)) { result_sent = err os_error }
    ∷ record (round_of (request, draws)) { incoming = ok (request, some 9) }
    ∷ []

_serve_connection-responses_example :
    let done =
      _serve_connection platform services false
        (map round_of ((request, draws) ∷ (request, draws) ∷ []))
        new_session in
    (done.0 ≡ none)
    × ((done.1.sent
          ≡ []
            ++ responses platform services false
                ((request, draws) ∷ (request, draws) ∷ [])
                new_session.registry)
        × ((done.1.registry
              ≡ handle_all platform services false
                  ((request, draws) ∷ (request, draws) ∷ [])
                  new_session.registry)
            × (done.1.is_open ≡ false)))
_serve_connection-responses_example =
    _serve_connection-responses platform services false ((request, draws) ∷ (request, draws) ∷ [])
      new_session
