-- ===== src/Bindings/Node/Objects.antt =====
-- The functions of src/bindings/node.rs that JavaScript calls, on the client or the server that an object
-- holds as its external data. `runtime` is the outcome of `Runtime::new`, with the text of its error.
-- The objects, functions and promises that napi makes are taken to be made. What a promise settles to
-- stands beside the object.
use quic_serve.Prelude.{String, ◌<>◌, Option, none, some, [], Assoc, insert, string_eq}
use quic_serve.Error.{Error, to_string, Result, ok, err, ◌>>=◌, map_err}
use quic_serve.Message.{Bytes}
use quic_serve.Config.{Config, SocketAddr}
use quic_serve.Config.Quinn.{Outcome, done, failed, panicked}
use quic_serve.Service.{Service}
use quic_serve.Server.{Server}
use quic_serve.Server
use quic_serve.Bindings.Node.{JsError, new, generic_failure, Napi, JsService, store_methods}
use quic_serve.Bindings.Node.Options.{js_config_to_config}

pub record JsClient (Value Client : Type 0) : Type 0 where
  pub client : Client
  pub event_callback : Option Value

pub record JsServer (Value World Endpoint : Type 0) : Type 0 where
  pub server : Server World Endpoint
  pub services : Assoc String (JsService Value)
  pub event_callback : Option Value

pub data Settled : Type 0 where
  resolved : Settled
  rejected : JsError → Settled

-- `Error::new(Status::GenericFailure, format!("…{}", e))`
abbrev pub failure : String → Error → JsError
failure what e = new generic_failure (what <> to_string e)

unfoldable pub js_runtime_new : Result String (Unit {0}) → Result JsError (Unit {0})
js_runtime_new runtime =
    map_err (λ e. new generic_failure ("Failed to create runtime: " <> e)) runtime

-- The `match` in a promise's thread; the value with which it is resolved is always undefined.
abbrev pub settle : {A : Type 0} → String → Result Error A → Settled
settle what (ok _) = resolved
settle what (err e) = rejected (failure what e)

-- What a constructor made, or how it failed; a panic is the whole function's.
abbrev pub made : {A : Type 0} → String → Outcome A → Option (Result JsError A)
made what (done a) = some (ok a)
made what (failed e) = some (err (failure what e))
made what panicked = none

abbrev pub mapped : {A B : Type 0} → (A → B) → Option (Result JsError A) → Option (Result JsError B)
mapped f none = none
mapped f (some (err e)) = some (err e)
mapped f (some (ok a)) = some (ok (f a))

-- `none` is a panic.
abbrev pub built :
    {A : Type 0}
    → (Config → Option (Result JsError A))
    → Result JsError Config
    → Option (Result JsError A)
built make (err e) = some (err e)
built make (ok config) = make config

module _ {Value : Type 0} (js : Napi Value) (parse : String → Result String SocketAddr)
    (runtime : Result String (Unit {0})) where
  -- What both functions begin with.
  unfoldable pub configured : Value → Result JsError Config
  unfolding js_runtime_new
  configured js_config = do
    object ← js.as_object js_config
    config ← js_config_to_config js parse object
    _ ← js_runtime_new runtime
    ok config

  -- `create_client`, given what `Client::new` does.
  unfoldable pub create_client :
      {Client : Type 0}
      → (Config → Outcome Client)
      → Value
      → Option (Result JsError (JsClient Value Client))
  unfolding configured
  create_client client_new js_config =
      built
        (λ config.
          mapped (λ c. record { client = c; event_callback = none })
            (made "Failed to create client: " (client_new config)))
        (configured js_config)

  -- `create_server`, given what `Server::new` does.
  unfoldable pub create_server :
      {World Endpoint : Type 0}
      → (Config → Outcome (Server World Endpoint))
      → Value
      → Option (Result JsError (JsServer Value World Endpoint))
  unfolding configured
  create_server server_new js_config =
      built
        (λ config.
          mapped (λ s. record { server = s; services = []; event_callback = none })
            (made "Failed to create server: " (server_new config)))
        (configured js_config)

module _ {Value Client : Type 0} (js : Napi Value) (runtime : Result String (Unit {0})) where
  abbrev settled :
      {A : Type 0}
      → JsClient Value Client
      → String
      → Result Error A × Client
      → Settled × JsClient Value Client
  settled self what (r, client) = (settle what r, record self { client = client })

  -- `connect` and `close`.
  unfoldable pub client_connect :
      (Client → Result Error (Unit {0}) × Client)
      → JsClient Value Client
      → Result JsError (Settled × JsClient Value Client)
  unfolding js_runtime_new
  client_connect connect self = do
    _ ← js_runtime_new runtime
    ok (settled self "Failed to connect: " (connect self.client))

  unfoldable pub client_close :
      (Client → Result Error (Unit {0}) × Client)
      → JsClient Value Client
      → Result JsError (Settled × JsClient Value Client)
  unfolding js_runtime_new
  client_close close self = do
    _ ← js_runtime_new runtime
    ok (settled self "Failed to close: " (close self.client))

  -- `call`: the request is not converted, no bytes are sent in its place, and the response is dropped.
  unfoldable pub client_call :
      (String → Bytes → Client → Result Error Bytes × Client)
      → Value
      → Value
      → JsClient Value Client
      → Result JsError (Settled × JsClient Value Client)
  unfolding js_runtime_new
  client_call call method_arg request_arg self = do
    method_string ← js.as_string method_arg
    method ← js.text method_string
    request_obj ← js.as_object request_arg
    _ ← js_runtime_new runtime
    ok (settled self "RPC call failed: " (call method [] self.client))

  -- `on`: the name of the event is read, and the one callback replaced.
  unfoldable pub client_on :
      Value → Value → JsClient Value Client → Result JsError (JsClient Value Client)
  client_on event_arg callback_arg self = do
    event_string ← js.as_string event_arg
    event ← js.text event_string
    callback ← js.as_function callback_arg
    ok (record self { event_callback = some callback })

-- `serve` spawns a thread, whose runtime may fail to start; then the promise is rejected.
abbrev served : Result String (Unit {0}) → Result Error (Unit {0}) → Settled
served (err e) r = rejected (new generic_failure ("Failed to create runtime: " <> e))
served (ok _) r = settle "Server error: " r

module _ {Value World Endpoint : Type 0} (js : Napi Value) (runtime : Result String (Unit {0}))
    (as_service : JsService Value → Service World) where
  abbrev stored :
      String
      → JsService Value
      → JsServer Value World Endpoint
      → Result Error (Unit {0}) × Server World Endpoint
      → Result JsError (JsServer Value World Endpoint)
  stored name js_service self (ok _, server) =
      ok (record self { server = server; services = insert name js_service self.services })
  stored name js_service self (err e, server) = err (failure "Failed to register service: " e)

  unfoldable pub registered :
      JsService Value
      → JsServer Value World Endpoint
      → Result JsError (JsServer Value World Endpoint)
  unfolding Server.register_service
  registered js_service self =
      stored js_service.name js_service self
        (Server.register_service js_service.name (as_service js_service) self.server)

  -- `registerService`; `as_service` is the implementation of `Service` for `JsService`.
  unfoldable pub register_service :
      Value → Value → JsServer Value World Endpoint → Result JsError (JsServer Value World Endpoint)
  unfolding js_runtime_new store_methods registered
  register_service name_arg handler_arg self = do
    name_string ← js.as_string name_arg
    name ← js.text name_string
    handler_obj ← js.as_object handler_arg
    names ← js.get_property_names handler_obj
    length ← js.get_array_length names
    methods ← store_methods js handler_obj names length 0 []
    _ ← js_runtime_new runtime
    registered (record { name = name; methods = methods }) self

  -- `serve`, given how the server's loop ends.
  unfoldable pub server_serve :
      (Server World Endpoint → Result Error (Unit {0})) → JsServer Value World Endpoint → Settled
  server_serve serve self = served runtime (serve self.server)

  unfoldable pub server_on :
      Value → Value → JsServer Value World Endpoint → Result JsError (JsServer Value World Endpoint)
  server_on event_arg callback_arg self = do
    event_string ← js.as_string event_arg
    event ← js.text event_string
    callback ← js.as_function callback_arg
    ok (record self { event_callback = some callback })
