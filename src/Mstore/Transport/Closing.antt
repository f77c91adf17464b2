-- ===== src/Mstore/Transport/Closing.antt =====
-- The sockets that connect_control and close of mstore/transport.py leave open.
use npb.Prelude.{ℕ, ◌≡◌, refl, sym, ap, ◌∙◌, inl, inr, List, [], ◌∷◌, ◌++◌, append-nil, Bool-cases}
use npb.Mstore.Errors.{Exn, Result, ok, err}
use npb.Mstore.Exec.{Exec, continue}
use npb.Mstore.Json.{Float}
use npb.Mstore.Endpoint.{Address, unix, tcp, pipe, parse_endpoint}
use npb.Mstore.Transport.{
  Network, Net, ControlConnection, socket_connection, pipe_connection, took, new_socket,
  close_socket, closing, connected, connect_socket, connect_address, connect_control, af_unix,
  af_inet, tcp_nodelay,
}

-- The sockets of a connection.
abbrev pub sockets : ControlConnection → List ℕ
sockets (socket_connection sock) = sock ∷ []
sockets (pipe_connection conn) = []

abbrev pub Balanced : {W : Type 0} → (open_sockets : List ℕ) → Net W → Type 0
Balanced open_sockets s = s.closed ++ open_sockets ≡ s.taken

-- Where a connection came of it, its socket is the one that is open, and else all are closed.
abbrev pub Outcome : {W : Type 0} → Result ControlConnection × Net W → Type 0
Outcome (ok conn, s) = Balanced (sockets conn) s
Outcome (err exc, s) = Balanced [] s

module _ {W : Type 0} (net : Network W) where
  close_socket-Balanced :
      (sock : ℕ) (s : Net W) → Balanced (sock ∷ []) s → Balanced [] (close_socket net sock s).1
  unfolding close_socket
  close_socket-Balanced sock s h = append-nil _ ∙ h

  closing-Outcome :
      (exc : Exn) (r : Result (Unit {0}) × Net W) → Balanced [] r.1 → Outcome (closing net exc r)
  closing-Outcome exc (ok done, s) h = h
  closing-Outcome exc (err other, s) h = h

  connected-Outcome :
      (sock : ℕ) (r : Result (Unit {0}) × Net W)
      → Balanced (sock ∷ []) r.1
      → Outcome (connected net sock r)
  connected-Outcome sock (ok done, s) h = h
  connected-Outcome sock (err exc, s) h =
      closing-Outcome exc (close_socket net sock s) (close_socket-Balanced sock s h)

  continue-Outcome :
      {A : Type 0} (r : Result A) (f : A → Exec (Net W) ControlConnection) (s : Net W)
      → ((exc : Exn) → r ≡ err exc → Balanced [] s)
      → ((a : A) → r ≡ ok a → Outcome (f a s))
      → Outcome (continue r f s)
  continue-Outcome (ok a) f s h k = k a refl
  continue-Outcome (err exc) f s h k = h exc refl

  -- Options are set before the `try`.
  module _ (timeout : Float)
      (settable : (sock : ℕ) (w : W) → (net.settimeout sock timeout w).0 ≡ ok tt)
      (no_delay : (sock : ℕ) (w : W) → (net.setsockopt sock tcp_nodelay w).0 ≡ ok tt) where
    connect_socket-Outcome :
        (sock : ℕ) (address : Address) (s : Net W)
        → Balanced (sock ∷ []) s
        → Outcome (connect_socket net sock address timeout s)
    unfolding connect_socket
    connect_socket-Outcome sock address s h =
        rw (settable sock s.world) (connected-Outcome sock _ h)

    took-Outcome :
        (r : Result ℕ × W) (s : Net W) (f : ℕ → Exec (Net W) ControlConnection)
        → Balanced [] s
        → ((sock : ℕ) (t : Net W) → Balanced (sock ∷ []) t → Outcome (f sock t))
        → Outcome (continue (took net r s).0 f (took net r s).1)
    took-Outcome (ok sock, w) s f h k =
        k sock _ (ap (λ l. l ++ (sock ∷ [])) ((sym (append-nil s.closed)) ∙ h))
    took-Outcome (err exc, w) s f h k = h

    connect_address-Outcome :
        (address : Address) (s : Net W)
        → Balanced [] s
        → Outcome (connect_address net address timeout s)
    unfolding connect_address new_socket
    connect_address-Outcome (unix path) s h = elim (Bool-cases net.is_windows) [
      | inl windows ↦ rw windows h
      | inr posix ↦ rw posix (
          took-Outcome (net.socket af_unix s.world) s _ h
            λ sock t b. connect_socket-Outcome sock (unix path) t b)
    ]
    connect_address-Outcome (tcp host port) s h =
        took-Outcome (net.socket af_inet s.world) s _ h
          λ sock t b. rw (no_delay sock t.world) (connect_socket-Outcome sock (tcp host port) _ b)
    connect_address-Outcome (pipe name) s h = elim (Bool-cases net.is_windows) [
      | inl windows ↦
          rw windows (continue-Outcome (net.pipe_client name s.world).0 _ _ (λ _ _. h) (λ _ _. h))
      | inr posix ↦ rw posix h
    ]

    -- Whatever connect_control returns or raises: of the sockets that the process got, all but that of the
    -- connection that it returns are closed, once each and in order, if that held of all before. Of setsockopt and
    -- settimeout, which the code calls before its `try`, it is assumed that they do not raise.
    pub connect_control-Outcome :
        (endpoint : List ℕ) (s : Net W)
        → Balanced [] s
        → Outcome (connect_control net endpoint timeout s)
    unfolding connect_control
    connect_control-Outcome endpoint s h =
        continue-Outcome (parse_endpoint net.int_other endpoint) _ s (λ _ _. h)
          λ address _. connect_address-Outcome address s h
