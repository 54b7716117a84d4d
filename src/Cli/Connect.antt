-- ===== src/Cli/Connect.antt =====
-- `run_client` of src/bin/quicserve.rs.
use quic_serve.Prelude.{String, Option, none, some, []}
use quic_serve.Error.{Error, Result, ok, err}
use quic_serve.Message.{Bytes, SerializationFormat}
use quic_serve.Utils.Format.{parse_format}
use quic_serve.Utils.Address.{parse_socket_addr}
use quic_serve.Config.{Config, SocketAddr}
use quic_serve.Config
use quic_serve.Config.Quinn.{Tls, ClientConfig}
use quic_serve.Client.{Shared}
use quic_serve.Client.Lifecycle.{Client, Network, close}
use quic_serve.Client.Lifecycle
use quic_serve.Cli.{ClientArgs}
use quic_serve.Cli.Exit.{
  Exit, from_error, finished, exited, crashed, ◌>>=◌, try, try_context, try_io, try_io_context,
  try_outcome,
}

unfoldable pub client_config : ClientArgs → SocketAddr → SerializationFormat → Config
unfolding Config.new
client_config args addr format = record (Config.new addr) {
  ca_path = args.ca;
  server_name = some args.host;
  format = format;
  timeout_ms = args.timeout;
  keep_alive_ms = some args.keep_alive;
  idle_timeout_ms = some args.idle_timeout;
}

-- `meanwhile` is what the client's other tasks do between `connect` and `close`, `after` what they do
-- between `close` and the drop of the client.
module _ {Session Endpoint Store : Type 0} (tls : Tls Store)
    (make_endpoint : Result String Endpoint)
    (set_default_client_config : ClientConfig Store → Endpoint → Endpoint) (net : Network Session)
    (parse : String → Result String SocketAddr) (read : String → Result String Bytes)
    (ctrl_c : Result String (Unit {0})) (meanwhile after : Shared Session → Shared Session) where
  unfoldable pub prepare_client : ClientArgs → Exit (Client Session Endpoint)
  unfolding client_config
  prepare_client args = do
    addr ← try_context "Failed to parse server address" (parse_socket_addr parse args.addr 4433)
    format ← try_context "Failed to parse serialization format" (parse_format args.format)
    try_outcome
        (Lifecycle.new tls make_endpoint set_default_client_config (client_config args addr format))

  -- The data that a call would be given; without a method the client waits for Ctrl+C.
  abbrev pub read_input : Option String → Exit Bytes
  read_input none = finished []
  read_input (some path) = try_io_context "Failed to read input file" (read path)

  abbrev pub input_or_wait : Option String → Option String → Exit (Unit {0})
  input_or_wait (some method_name) input = do input_data ← read_input input; finished tt
  input_or_wait none input = try_io ctrl_c

  abbrev pub then_close : Exit (Unit {0}) → Shared Session → Exit (Unit {0}) × Shared Session
  then_close (finished _) s = let (r, s') = close s in (try r, after s')
  then_close (exited e) s = (exited e, s)
  then_close crashed s = (crashed, s)

  abbrev pub after_connect :
      ClientArgs → Result Error (Unit {0}) × Shared Session → Exit (Unit {0}) × Shared Session
  after_connect args (err e, s) = (exited (from_error e), s)
  after_connect args (ok _, s) = then_close (input_or_wait args.method args.input) (meanwhile s)

  abbrev pub with_client :
      ClientArgs → Exit (Client Session Endpoint) → Exit (Unit {0}) × Option (Shared Session)
  with_client args (exited e) = (exited e, none)
  with_client args crashed = (crashed, none)
  with_client args (finished client) =
      let (r, s) = after_connect args (Lifecycle.connect net client.config client.shared) in
      (r, some s)

  -- How the command ends, and in what state the client is dropped, if there is one.
  unfoldable pub run_client : ClientArgs → Exit (Unit {0}) × Option (Shared Session)
  unfolding prepare_client Lifecycle.connect close
  run_client args = with_client args (prepare_client args)
