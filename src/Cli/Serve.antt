-- ===== src/Cli/Serve.antt =====
-- `run_server` of src/bin/quicserve.rs.
use quic_serve.Prelude.{String, Option, none, some}
use quic_serve.Error.{Result}
use quic_serve.Message.{SerializationFormat}
use quic_serve.Utils.Format.{parse_format}
use quic_serve.Utils.Address.{parse_socket_addr}
use quic_serve.Config.{Config, SocketAddr}
use quic_serve.Config
use quic_serve.Config.Quinn.{Tls, ServerConfig}
use quic_serve.Server.{Server}
use quic_serve.Server
use quic_serve.Cli.{ServerArgs}
use quic_serve.Cli.Exit.{Exit, finished, exited, crashed, ◌>>=◌, try_context, try_io, try_outcome}

unfoldable pub server_config : ServerArgs → SocketAddr → SerializationFormat → Config
unfolding Config.new
server_config args addr format = record (Config.new addr) {
  cert_path = some args.cert;
  key_path = some args.key;
  ca_path = args.ca;
  verify_peer = args.verify_client;
  format = format;
  max_concurrent_streams = args.max_streams;
  keep_alive_ms = some args.keep_alive;
  idle_timeout_ms = some args.idle_timeout;
}

module _ {World Endpoint Store : Type 0} (tls : Tls Store)
    (bind : ServerConfig → SocketAddr → Result String Endpoint)
    (set_protocols : Endpoint → Endpoint) (parse : String → Result String SocketAddr)
    (ctrl_c : Result String (Unit {0})) where
  -- Up to the server that is to be started.
  unfoldable pub prepare_server : ServerArgs → Exit (Server World Endpoint)
  unfolding server_config
  prepare_server args = do
    addr ← try_context "Failed to parse server address" (parse_socket_addr parse args.addr 4433)
    format ← try_context "Failed to parse serialization format" (parse_format args.format)
    try_outcome (Server.new tls bind set_protocols (server_config args addr format))

  -- The server whose `serve` is spawned, if any, and how the wait for Ctrl+C ends.
  abbrev pub spawn_serve :
      Exit (Server World Endpoint) → Option (Server World Endpoint) × Exit (Unit {0})
  spawn_serve (finished server) = (some server, try_io ctrl_c)
  spawn_serve (exited e) = (none, exited e)
  spawn_serve crashed = (none, crashed)

  unfoldable pub run_server : ServerArgs → Option (Server World Endpoint) × Exit (Unit {0})
  unfolding prepare_server
  run_server args = spawn_serve (prepare_server args)
