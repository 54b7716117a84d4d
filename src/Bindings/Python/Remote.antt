-- ===== src/Bindings/Python/Remote.antt =====
-- The methods of `PyClient` that wait for the client, and `serve_in_background` of `PyServer`, in
-- src/bindings/python.rs. What they call of the client is an argument; `call_raw` is not in
-- src/client.rs.
use quic_serve.Prelude.{String, ◌<>◌, List, [], ◌∷◌, some}
use quic_serve.Error.{Error, to_string, Result, ok, err, map_err}
use quic_serve.Message.{Bytes}
use quic_serve.Config.{SocketAddr}
use quic_serve.Config.Quinn.{Tls, ServerConfig}
use quic_serve.Server.{Server}
use quic_serve.Server.Connection
use quic_serve.Bindings.Python.{PyErr, err_to_py, Ending, returned, raised, panicking, try, Python}
use quic_serve.Bindings.Python.Calls.{payload_of}
use quic_serve.Bindings.Python.Serving.{PyClient, PyServer, start}

module _ {Client : Type 0} where
  -- `….await.map_err(err_to_py)`
  abbrev awaited :
      {A : Type 0} → PyClient Client → Result Error A × Client → Ending A × PyClient Client
  awaited self (r, client) = (try (map_err err_to_py r), record self { client = client })

  unfoldable pub connect :
      (Client → Result Error (Unit {0}) × Client)
      → PyClient Client
      → Ending (Unit {0}) × PyClient Client
  unfolding err_to_py
  connect client_connect self = awaited self (client_connect self.client)

  unfoldable pub close :
      (Client → Result Error (Unit {0}) × Client)
      → PyClient Client
      → Ending (Unit {0}) × PyClient Client
  unfolding err_to_py
  close client_close self = awaited self (client_close self.client)

  abbrev with_payload :
      (String → Bytes → Client → Result Error Bytes × Client)
      → String
      → Result PyErr Bytes
      → PyClient Client
      → Ending Bytes × PyClient Client
  with_payload call_raw method (err e) self = (raised e, self)
  with_payload call_raw method (ok payload) self =
      awaited self (call_raw method payload self.client)

  unfoldable pub call :
      {Value : Type 0}
      → Python Value
      → (String → Bytes → Client → Result Error Bytes × Client)
      → String
      → Value
      → PyClient Client
      → Ending Bytes × PyClient Client
  unfolding err_to_py payload_of
  call python call_raw method args self = with_payload call_raw method (payload_of python args) self

-- What the thread prints on the error output.
abbrev printed : {A : Type 0} → Result Error A → List String
printed (ok _) = []
printed (err e) = ("Server error: " <> to_string e) ∷ []

module _ {World Endpoint Store : Type 0} (tls : Tls Store)
    (bind : ServerConfig → SocketAddr → Result String Endpoint)
    (set_protocols : Endpoint → Endpoint) where
  abbrev background_on :
      {Connection : Type 0}
      → List (Result String Connection)
      → Ending (Server World Endpoint)
      → PyServer World Endpoint
      → Ending (List Connection × List String) × PyServer World Endpoint
  background_on attempts (raised e) self = (raised e, self)
  background_on attempts panicking self = (panicking, self)
  background_on attempts (returned server) self =
      let (r, connections) = Connection.serve attempts in
      (returned (connections, printed r), record self { server = some server })

  -- Once the server is made it returns, whatever becomes of it: the thread is joined, its error printed.
  unfoldable pub serve_in_background :
      {Connection : Type 0}
      → List (Result String Connection)
      → PyServer World Endpoint
      → Ending (List Connection × List String) × PyServer World Endpoint
  unfolding start Connection.serve
  serve_in_background attempts self =
      background_on attempts (start tls bind set_protocols self) self
