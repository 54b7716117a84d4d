-- ===== src/Client/Lifecycle.antt =====
-- `Client::new`, `connect` and `close` of src/client.rs. What quinn, h3 and h3_webtransport return is
-- a parameter.
use quic_serve.Prelude.{ℕ, String, ◌<>◌, Option, none, some, List, [], ◌∷◌, ◌++◌, Assoc}
use quic_serve.Error.{
  Error, quic, http3, web_transport, connection_closed, Result, ok, err, ◌>>=◌, map_err,
}
use quic_serve.Message.{Bytes}
use quic_serve.Transport.{BidiStream}
use quic_serve.Transport
use quic_serve.Config.{Config, SocketAddr}
use quic_serve.Config.Quinn
use quic_serve.Config.Quinn.{Outcome, done, lift, ClientConfig, Tls}
use quic_serve.Config.Client.{build_client_config}
use quic_serve.Client.{Channel, Shared, initial}

pub record Client (Session Endpoint : Type 0) : Type 0 where
  pub config : Config
  pub endpoint : Endpoint
  pub shared : Shared Session

module _ {Session Endpoint Store : Type 0} (tls : Tls Store)
    (make_endpoint : Result String Endpoint)
    (set_default_client_config : ClientConfig Store → Endpoint → Endpoint) where
  -- `make_endpoint` is the outcome of quinn's `Endpoint::client("[::]:0")`.
  unfoldable pub new : Config → Outcome (Client Session Endpoint)
  new config = Quinn.◌>>=◌ (build_client_config tls config) λ client_config.
      Quinn.◌>>=◌ (lift (map_err (λ e. quic ("Failed to create endpoint: " <> e)) make_endpoint))
        λ endpoint. done (record {
          config = config;
          endpoint = set_default_client_config client_config endpoint;
          shared = initial;
        })

-- `unwrap_or("localhost")`
abbrev pub or_localhost : Option String → String
or_localhost none = "localhost"
or_localhost (some name) = name

-- The outcomes of the calls that `connect` makes, each given what it is asked for.
pub record Network (Session : Type 0) : Type 0 where
  pub dial : SocketAddr → String → Result String (Unit {0})
  pub handshake : Result String (Unit {0})
  pub h3_connection : Result String (Unit {0})
  pub build_session : Result String (Unit {0})
  pub connect_path : String → Result String Session
  pub open_bi : Session → Result String BidiStream

-- `for (_, sender) in pending_guard.drain() { let _ = sender.send(Err(Error::ConnectionClosed)); }`
abbrev pub closings : Assoc ℕ Channel → List (Channel × Result Error Bytes)
closings [] = []
closings ((_, c) ∷ pending) = (c, err connection_closed) ∷ closings pending

module _ {Session : Type 0} where
  -- The session and the stream, up to the first step that fails.
  unfoldable pub establish : Network Session → Config → Result Error (Session × BidiStream)
  establish net config = do
    _ ←
        map_err (λ e. quic ("Failed to connect: " <> e))
          (net.dial config.addr (or_localhost config.server_name))
    _ ← map_err (λ e. quic ("Connection failed: " <> e)) net.handshake
    _ ← map_err (λ e. http3 ("Failed to create HTTP/3 connection: " <> e)) net.h3_connection
    _ ←
        map_err (λ e. web_transport ("Failed to create WebTransport client: " <> e))
          net.build_session
    session ←
        map_err (λ e. web_transport ("Failed to connect to RPC endpoint: " <> e))
          (net.connect_path "/rpc")
    stream ←
        map_err (λ e. web_transport ("Failed to open bidirectional stream: " <> e))
          (net.open_bi session)
    ok (session, stream)

  -- Both are stored; the response handler is then spawned, and starts when the runtime gets to it.
  unfoldable pub connected : Session → BidiStream → Shared Session → Shared Session
  connected session stream s = record s {
    session = some session;
    message_stream = some (Transport.new stream);
  }

  abbrev store :
      Result Error (Session × BidiStream)
      → Shared Session
      → Result Error (Unit {0}) × Shared Session
  store (err e) s = (err e, s)
  store (ok (session, stream)) s = (ok tt, connected session stream s)

  unfoldable pub connect :
      Network Session → Config → Shared Session → Result Error (Unit {0}) × Shared Session
  unfolding establish connected
  connect net config s = store (establish net config) s

  unfoldable pub close : Shared Session → Result Error (Unit {0}) × Shared Session
  close s = (
    ok tt,
    record s {
      session = none;
      message_stream = none;
      pending = [];
      delivered = s.delivered ++ closings s.pending;
    },
  )

-- `Drop`: `close_endpoint` is quinn's `Endpoint::close` with code 0 and no reason. What the tasks share
-- stays, for as long as one of them holds it.
unfoldable pub drop :
    {Session Endpoint : Type 0}
    → (Endpoint → Endpoint)
    → Client Session Endpoint
    → Client Session Endpoint
drop close_endpoint client = record client { endpoint = close_endpoint client.endpoint }
