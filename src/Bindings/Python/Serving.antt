-- ===== src/Bindings/Python/Serving.antt =====
-- `PyClient` and `PyServer` of src/bindings/python.rs. The interpreter lock and the runtime, on which
-- they block, are left out.
use quic_serve.Prelude.{
  String, ◌<>◌, Bool, true, false, Option, none, some, List, [], ◌∷◌, Assoc, insert, string_eq,
}
use quic_serve.Error.{Result, ok, err, map_err}
use quic_serve.Message.{SerializationFormat}
use quic_serve.Config.{Config, SocketAddr}
use quic_serve.Config
use quic_serve.Config.Quinn.{Tls, ServerConfig, Outcome}
use quic_serve.Service.{Service}
use quic_serve.Server.{Services, Server, register_service}
use quic_serve.Server
use quic_serve.Server.Connection
use quic_serve.Bindings.Python.{
  PyErr, err_to_py, value_error, runtime_error, Ending, returned, raised, panicking, ◌>>=◌, try,
  try_outcome, Python,
}
use quic_serve.Bindings.Python.Options.{given, client_options, server_options}

-- `PyClient`; `Client` is what `Client::new` makes.
pub record PyClient (Client : Type 0) : Type 0 where
  pub client : Client
  pub format : SerializationFormat

pub record PyServer (World Endpoint : Type 0) : Type 0 where
  pub server : Option (Server World Endpoint)
  pub config : Config
  pub services : Services World

-- `parse` is `SocketAddr::from_str`, `runtime` the outcome of `Runtime::new`.
module _ {Value : Type 0} (python : Python Value) (parse : String → Result String SocketAddr)
    (runtime : Result String (Unit {0})) where
  abbrev configured :
      (Assoc String Value → Config → Result PyErr Config)
      → String
      → Option (Assoc String Value)
      → Ending Config
  configured apply addr options = do
    socket_addr ← try (map_err (λ e. value_error ("Invalid address: " <> e)) (parse addr))
    config ← try (given python apply options (Config.new socket_addr))
    _ ← try (map_err (λ e. runtime_error ("Failed to create Tokio runtime: " <> e)) runtime)
    returned config

  unfoldable pub new_client :
      {Client : Type 0}
      → (Config → Outcome Client)
      → String
      → Option (Assoc String Value)
      → Ending (PyClient Client)
  unfolding client_options Config.new
  new_client make addr options = do
    config ← configured (client_options python) addr options
    client ← try_outcome (make config)
    returned (record { client = client; format = config.format })

  unfoldable pub new_server :
      {World Endpoint : Type 0}
      → String
      → Option (Assoc String Value)
      → Ending (PyServer World Endpoint)
  unfolding server_options Config.new
  new_server addr options = do
    config ← configured (server_options python) addr options
    returned (record { server = none; config = config; services = [] })

abbrev must_have : {A : Type 0} → Result PyErr Bool → Ending A → Ending A
must_have (ok true) rest = rest
must_have (ok false) rest =
    raised (value_error "Service must implement 'call(method, payload)' and 'methods()' methods")
must_have (err e) rest = raised e

module _ {Value World Endpoint : Type 0} (python : Python Value) where
  -- `bridge` is the `PythonServiceBridge` around the object.
  unfoldable pub register :
      (Value → Service World)
      → String
      → Value
      → PyServer World Endpoint
      → Ending (PyServer World Endpoint)
  register bridge name service self = must_have (python.hasattr "call" service) (
      must_have (python.hasattr "methods" service)
        (returned (record self { services = insert name (bridge service) self.services })))

-- `for (name, service) in services { server.register_service(&name, service).await.map_err(…)?; }`
module _ {World Endpoint : Type 0} where
  unfoldable pub register_all :
      Services World → Server World Endpoint → Ending (Server World Endpoint)
  unfolding err_to_py register_service
  register_all [] server = returned server
  register_all ((name, service) ∷ services) server = do
    _ ← try (map_err err_to_py (register_service name service server).0)
    register_all services (register_service name service server).1

  module _ {Store : Type 0} (tls : Tls Store)
      (bind : ServerConfig → SocketAddr → Result String Endpoint)
      (set_protocols : Endpoint → Endpoint) where
    -- The server that `serve` and `serve_in_background` start.
    unfoldable pub start : PyServer World Endpoint → Ending (Server World Endpoint)
    unfolding register_all
    start self = do
      server ← try_outcome (Server.new tls bind set_protocols self.config)
      register_all self.services server

    -- `serve`, given the connection attempts until the endpoint is closed: the connections that are
    -- handled, and the object that is left.
    abbrev serve_on :
        {Connection : Type 0}
        → List (Result String Connection)
        → Ending (Server World Endpoint)
        → PyServer World Endpoint
        → Ending (List Connection) × PyServer World Endpoint
    serve_on attempts (raised e) self = (raised e, self)
    serve_on attempts panicking self = (panicking, self)
    serve_on attempts (returned server) self =
        let (r, connections) = Connection.serve attempts in
        (
          try (map_err err_to_py r) >>= (λ _. returned connections),
          record self { server = some server },
        )

    unfoldable pub serve :
        {Connection : Type 0}
        → List (Result String Connection)
        → PyServer World Endpoint
        → Ending (List Connection) × PyServer World Endpoint
    unfolding start err_to_py Connection.serve
    serve attempts self = serve_on attempts (start self) self
