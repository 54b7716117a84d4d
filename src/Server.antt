-- ===== src/Server.antt =====
-- `Server` of src/server.rs: its state, `new` and `register_service`.
pub mod Session
pub mod Sessions
pub mod Connection
pub mod Registry
pub mod Starting
use quic_serve.Prelude.{String, ◌<>◌, [], Assoc, insert, string_eq}
use quic_serve.Error.{Error, quic, Result, ok, map_err}
use quic_serve.Config.{Config, SocketAddr}
use quic_serve.Config.Quinn.{Outcome, done, ◌>>=◌, lift, ServerConfig, Tls}
use quic_serve.Config.Server.{build_server_config}
use quic_serve.Service.{Service}

-- `HashMap<String, Arc<dyn Service>>`
abbrev pub Services : Type 0 → Type 0
Services World = Assoc String (Service World)

-- `Endpoint` is quinn's.
pub record Server (World Endpoint : Type 0) : Type 0 where
  pub config : Config
  pub endpoint : Endpoint
  pub services : Services World

module _ {World Endpoint Store : Type 0} (tls : Tls Store)
    (bind : ServerConfig → SocketAddr → Result String Endpoint)
    (set_protocols : Endpoint → Endpoint) where
  -- `Server::new`; `bind` is quinn's `Endpoint::server`.
  unfoldable pub new : Config → Outcome (Server World Endpoint)
  new config = do
    server_config ← build_server_config tls config
    endpoint ←
        lift (
          map_err (λ e. quic ("Failed to create endpoint: " <> e)) (bind server_config config.addr))
    done (record { config = config; endpoint = set_protocols endpoint; services = [] })

unfoldable pub register_service :
    {World Endpoint : Type 0}
    → String
    → Service World
    → Server World Endpoint
    → Result Error (Unit {0}) × Server World Endpoint
register_service name service server =
    (ok tt, record server { services = insert name service server.services })
