-- ===== src/Cli/Serving.antt =====
-- What the server is that `run_server` of src/bin/quicserve.rs starts.
use quic_serve.Prelude.{String, ◌≡◌, refl, sym, subst, none, some, List, [], ◌∷◌, get, string_eq}
use quic_serve.Error.{Result, ok}
use quic_serve.Message.{default_timeout_ms, Request, SerializationFormat}
use quic_serve.Utils.Format.{parse_format, splitn}
use quic_serve.Utils.Address.{parse_socket_addr}
use quic_serve.Config.{SocketAddr, Config}
use quic_serve.Config
use quic_serve.Config.Quinn.{Tls, ServerConfig, done}
use quic_serve.Config.Server.{build_server_config}
use quic_serve.Service.{Timer}
use quic_serve.Server.{Server}
use quic_serve.Server.Session.{dispatch, route, failure}
use quic_serve.Server.Starting.{new-done}
use quic_serve.Cli.{ServerArgs}
use quic_serve.Cli.Exit.{
  Exit, finished, exited, crashed, >>=-eq-finished, try_context, try_context-eq-finished,
  try_outcome-eq-finished,
}
use quic_serve.Cli.Serve.{server_config, prepare_server, spawn_serve, run_server}

-- Each argument stands in the configuration under its own name, and what none is given for has its
-- default.
pub record IsConfigured (args : ServerArgs) (address : SocketAddr) (format : SerializationFormat)
    (config : Config) : Type 0 where
  pub addr : config.addr ≡ address
  pub cert : config.cert_path ≡ some args.cert
  pub key : config.key_path ≡ some args.key
  pub ca : config.ca_path ≡ args.ca
  pub verify_client : config.verify_peer ≡ args.verify_client
  pub format_name : config.format ≡ format
  pub max_streams : config.max_concurrent_streams ≡ args.max_streams
  pub keep_alive : config.keep_alive_ms ≡ some args.keep_alive
  pub idle_timeout : config.idle_timeout_ms ≡ some args.idle_timeout
  pub timeout : config.timeout_ms ≡ default_timeout_ms
  pub server_name : config.server_name ≡ none

server_config-IsConfigured :
    (args : ServerArgs) (address : SocketAddr) (format : SerializationFormat)
    → IsConfigured args address format (server_config args address format)
unfolding server_config Config.new
server_config-IsConfigured args address format = record {
  addr = refl;
  cert = refl;
  key = refl;
  ca = refl;
  verify_client = refl;
  format_name = refl;
  max_streams = refl;
  keep_alive = refl;
  idle_timeout = refl;
  timeout = refl;
  server_name = refl;
}

module _ {World Endpoint Store : Type 0} (tls : Tls Store)
    (bind : ServerConfig → SocketAddr → Result String Endpoint)
    (set_protocols : Endpoint → Endpoint) (parse : String → Result String SocketAddr)
    (ctrl_c : Result String (Unit {0})) where
  -- The server has the configuration that the arguments ask for, from files that could be used, and
  -- no service.
  pub record IsServing (args : ServerArgs) (server : Server World Endpoint) : Type 0 where
    pub address : SocketAddr
    pub format : SerializationFormat
    pub address_parsed : parse_socket_addr parse args.addr 4433 ≡ ok address
    pub format_parsed : parse_format args.format ≡ ok format
    pub configured : IsConfigured args address format server.config
    pub built : (s : ServerConfig) × (build_server_config tls server.config ≡ done s)
    pub serviceless : server.services ≡ []

  prepare_server-IsServing :
      (args : ServerArgs) (server : Server World Endpoint)
      → prepare_server tls bind set_protocols parse ctrl_c args ≡ finished server
      → IsServing args server
  unfolding prepare_server
  prepare_server-IsServing args server e =
      let (addr, parsed, rest) =
        >>=-eq-finished
          (try_context "Failed to parse server address" (parse_socket_addr parse args.addr 4433)) _
          e in
      let (format, known, made) =
        >>=-eq-finished
          (try_context "Failed to parse serialization format" (parse_format args.format)) _ rest in
      let (c, built, none_yet) =
        new-done tls bind set_protocols (server_config args addr format) server
          (try_outcome-eq-finished _ made) in
      record {
        address = addr;
        format = format;
        address_parsed = try_context-eq-finished _ (parse_socket_addr parse args.addr 4433) parsed;
        format_parsed = try_context-eq-finished _ (parse_format args.format) known;
        configured =
            subst (IsConfigured args addr format) (sym c)
              (server_config-IsConfigured args addr format);
        built =
            subst (λ x. (s : ServerConfig) × (build_server_config tls x ≡ done s)) (sym c) built;
        serviceless = none_yet;
      }

  spawned :
      (x : Exit (Server World Endpoint)) (server : Server World Endpoint)
      → (spawn_serve tls bind set_protocols parse ctrl_c x).0 ≡ some server
      → x ≡ finished server
  spawned (finished s) server e = cc
  spawned (exited a) server e = cc
  spawned crashed server e = cc

  route-serviceless :
      (timer : Timer) (config : Config) (request : Request) (parts : List String) (w : World)
      → (e : String) × (route timer config [] request parts w ≡ (failure request.id e, w))
  unfolding get
  route-serviceless timer config request (a ∷ b ∷ []) w = (_, refl)
  route-serviceless timer config request _ w = (_, refl)

  -- If the server command gets to start a server, then address and format could be parsed and the
  -- certificate files used, and every argument stands in the field of the server's configuration that it
  -- is for: the certificate, the key, the CA file, whether clients are verified, the format, the number of
  -- streams and the two times; the call timeout and the server's name have their defaults. The server has
  -- no service: it answers every request with an error.
  pub run_server-IsServing :
      (args : ServerArgs) (server : Server World Endpoint) (timer : Timer) (request : Request)
      (w : World)
      → (run_server tls bind set_protocols parse ctrl_c args).0 ≡ some server
      → IsServing args server
        × ((e : String) × (dispatch timer server.config server.services request w
              ≡ (failure request.id e, w)))
  unfolding run_server dispatch
  run_server-IsServing args server timer request w e =
      let serving = prepare_server-IsServing args server (spawned _ server e) in
      (
        serving,
        rw serving.serviceless
            (route-serviceless timer server.config request (splitn request.method) w),
      )
