-- ===== src/Tests/Commands.antt =====
-- The commands of the program at concrete inputs.
use quic_serve.Prelude.{
  List, ◌∷◌, ◌+◌, ℕ, ◌≡◌, refl, String, true, Option, none, some, [], contains, to_lowercase,
  decimal,
}
use quic_serve.Error.{Result, ok, err}
use quic_serve.Message.{json}
use quic_serve.Utils.Format.{parse_format}
use quic_serve.Utils.Address.{parse_socket_addr}
use quic_serve.Config.{SocketAddr}
use quic_serve.Config.Quinn.{ServerConfig}
use quic_serve.Config.Client.{build_client_config}
use quic_serve.Config.Server.{build_server_config}
use quic_serve.Server.{Server}
use quic_serve.Server
use quic_serve.Server.Session.{dispatch, failure}
use quic_serve.Client.{Shared}
use quic_serve.Client.Lifecycle.{Network}
use quic_serve.Client.Lifecycle
use quic_serve.Cli.{ServerArgs, ClientArgs, Cli, serve, default_server_args, default_client_args}
use quic_serve.Cli.Exit.{finished}
use quic_serve.Cli.Serve.{server_config, run_server}
use quic_serve.Cli.Connect.{run_client}
use quic_serve.Cli.Main.{configure_logging, set_log_level, main, Logging}
use quic_serve.Cli.Serving.{IsServing, run_server-IsServing}
use quic_serve.Cli.Closes.{run_client-Closes}
use quic_serve.Client.Closing.{IsDropped}
use quic_serve.Bindings.Python.{returned, panicking}
use quic_serve.Bindings.Python.Module.{
  PyModules, PyClass, py_client, py_server, py_serialization_format, quicserve,
}
use quic_serve.Tests.Setup.{timer, asking}
use quic_serve.Tests.Configs.{tls}
use quic_serve.Tests.Helpers.{parse}

abbrev pub bind : ServerConfig → SocketAddr → Result String ℕ
bind config addr = ok 0

abbrev server_args : ServerArgs
server_args = record (default_server_args "server.crt" "server.key") {
  addr = "10.0.0.1";
  format = "JSON";
}

abbrev server : Server ℕ ℕ
unfolding server_config
server = record {
  config = server_config server_args (record { ip = "10.0.0.1"; port = 4433 }) json;
  endpoint = 1;
  services = [];
}

run_server-IsServing_example :
    IsServing tls bind (λ e. 1) parse (ok tt) server_args server
    × ((e : String) × (dispatch timer server.config server.services
            (record { id = 7; method = "math.add"; payload = [] })
            0
          ≡ (failure 7 e, 0)))
unfolding run_server parse_socket_addr parse_format contains to_lowercase decimal Server.new
    build_server_config
run_server-IsServing_example =
    run_server-IsServing tls bind (λ e. 1) parse (ok tt) server_args server timer
      (record { id = 7; method = "math.add"; payload = [] }) 0 refl

abbrev pub net : Network String
net = record {
  dial = λ addr name. ok tt;
  handshake = ok tt;
  h3_connection = ok tt;
  build_session = ok tt;
  connect_path = λ path. ok path;
  open_bi = λ session. ok (record { inbox = []; sent = [] });
}

abbrev client_args : ClientArgs
client_args = record default_client_args { addr = "10.0.0.1"; method = some "echo.say" }

abbrev made : Result String ℕ
made = ok 0

-- The response handler ends once the client is closed.
abbrev late : Shared String → Shared String
late s = record s { message_stream = some asking }

run_client-Closes_example :
    (s : Shared String) × ((run_client tls made
        (λ c e. e)
        net
        parse
        (λ path. ok [])
        (err "no signal")
        (λ s. s)
        late
        client_args).1
      ≡ some s)
    × IsDropped late s
unfolding run_client parse_socket_addr parse_format contains to_lowercase decimal Lifecycle.new
    Lifecycle.connect build_client_config
run_client-Closes_example =
    run_client-Closes tls made (λ c e. e) net parse (λ path. ok []) (err "no signal") (λ s. s) late
      client_args refl

-- A process is the value of RUST_LOG and the filter of its logger.
abbrev Process : Type 0
Process = Option String × Option String

abbrev or_error : Option String → String
or_error none = "error"
or_error (some filter) = filter

abbrev try_init : Process → Result String (Unit {0}) × Process
try_init (v, none) = (ok tt, (v, some (or_error v)))
try_init (v, some filter) = (err "already set", (v, some filter))

try_init_ok : (p q : Process) → try_init p ≡ (ok tt, q) → (filter : String) × (q.1 ≡ some filter)
try_init_ok (v, none) q e = (or_error v, cc)
try_init_ok (v, some filter) q e = cc

try_init_stays :
    (p : Process) (filter : String) → p.1 ≡ some filter → (try_init p).1.1 ≡ some filter
try_init_stays (v, none) filter e = cc
try_init_stays (v, some f) filter e = e

abbrev logging : Logging Process
logging = record {
  rust_log = λ p. p.0;
  set_rust_log = λ filter p. (some filter, p.1);
  try_init = try_init;
  installed = λ p. p.1;
  installed-set_rust_log = λ filter p. refl;
  try_init-ok = try_init_ok;
  try_init-stays = try_init_stays;
}

abbrev verbose : Cli
verbose = record { debug = true; command = serve server_args }

-- The logger keeps the filter that it was set with, though RUST_LOG changes.
main_run :
    main logging (λ args. finished tt) (λ args. finished tt) verbose (none, none)
    ≡ (finished tt, some (some "debug,quicserve=trace", some "info,quicserve=debug"))
unfolding main configure_logging set_log_level
main_run = refl

-- A second import in one process finds the logger set.
abbrev module_of : PyModules (List PyClass) String ℕ
module_of = record {
  new = λ name. ok [];
  add_class = λ c m. ok (c ∷ m);
  import = λ name. ok name;
  getattr = λ name object. ok name;
  set_item = λ table name m interpreter. ok (interpreter + 1);
}

quicserve_run : quicserve module_of logging (λ filter p. try_init p) [] (none, none) ≡ (
  returned (py_serialization_format ∷ py_server ∷ py_client ∷ []),
  (some "info,quicserve=debug", some "info,quicserve=debug"),
)
unfolding quicserve
quicserve_run = refl

quicserve_run_again :
    (quicserve module_of logging (λ filter p. try_init p) [] (some "warn", some "warn")).0
    ≡ panicking
unfolding quicserve
quicserve_run_again = refl
