-- ===== src/Server/Connection.antt =====
-- `Server::serve` and `Server::handle_connection` of src/server.rs. What quinn and h3_webtransport hand
-- over, one event after the other until the endpoint or the connection is closed, is a list; a spawned
-- task is recorded by what it works on, in the order of spawning.
pub mod Accepts
use quic_serve.Prelude.{String, ◌<>◌, str_eq, List, [], ◌∷◌, if◌then◌else◌}
use quic_serve.Error.{Error, http3, web_transport, Result, ok, err}

-- A request for a WebTransport session: its path, and the outcomes of accepting and of rejecting it.
pub record AcceptRequest (Session : Type 0) : Type 0 where
  pub path : String
  pub accept : Result String Session
  pub reject : Result String (Unit {0})

abbrev pub Spawned : Type 0 → Type 0
Spawned Session = Result Error (Unit {0}) × List Session

module _ {Session : Type 0} where
  -- An accepted session is handled by a task of its own; a failure is logged.
  abbrev spawn_session : Result String Session → Spawned Session → Spawned Session
  spawn_session (ok session) (r, tasks) = (r, session ∷ tasks)
  spawn_session (err e) rest = rest

  -- `reject(…).await.map_err(…)?`
  abbrev after_reject : Result String (Unit {0}) → Spawned Session → Spawned Session
  after_reject (ok _) rest = rest
  after_reject (err e) rest = (err (web_transport ("Failed to reject session: " <> e)), [])

  unfoldable pub accept_loop : List (AcceptRequest Session) → Spawned Session
  accept_loop [] = (ok tt, [])
  accept_loop (request ∷ requests) =
      let rest = accept_loop requests in
      if str_eq request.path "/rpc"
      then spawn_session request.accept rest
      else after_reject request.reject rest

  -- The outcomes of the HTTP/3 handshake and of the session acceptor come first.
  unfoldable pub handle_connection :
      Result String (Unit {0}) → Result String (List (AcceptRequest Session)) → Spawned Session
  unfolding accept_loop
  handle_connection (err e) acceptor =
      (err (http3 ("Failed to create HTTP/3 connection: " <> e)), [])
  handle_connection (ok _) (err e) =
      (err (web_transport ("Failed to create WebTransport server: " <> e)), [])
  handle_connection (ok _) (ok requests) = accept_loop requests

-- `serve`: a connection attempt that fails is logged and skipped; the loop ends when the endpoint is
-- closed.
unfoldable pub serve :
    {Connection : Type 0}
    → List (Result String Connection)
    → Result Error (Unit {0}) × List Connection
serve [] = (ok tt, [])
serve (ok connection ∷ attempts) = let (r, tasks) = serve attempts in (r, connection ∷ tasks)
serve (err e ∷ attempts) = serve attempts
