-- ===== src/Tests/Configs.antt =====
-- Building configurations at concrete inputs.
use quic_serve.Prelude.{
  ◌^◌, ◌-◌, ◌≡◌, refl, str_eq, true, false, some, List, [], ◌∷◌, if◌then◌else◌,
}
use quic_serve.Error.{ok}
use quic_serve.Message.{Bytes}
use quic_serve.Config.{Config, default}
use quic_serve.Config.Quinn.{Tls, ServerConfig, panicked}
use quic_serve.Config.Client.{build_client_config}
use quic_serve.Config.Client.Ignored.{build_client_config-Agrees}
use quic_serve.Config.Server.{build_server_config}
use quic_serve.Config.Server.Requires.{IsBuilt, build_server_config-IsBuilt}

-- Files whose content is a list of numbers, each of them one certificate or key.
abbrev each : Bytes → List Bytes
each [] = []
each (b ∷ bs) = (b ∷ []) ∷ each bs

abbrev pub tls : Tls Bytes
tls = record {
  read = λ path.
      if str_eq path "server.crt"
      then ok (1 ∷ 2 ∷ [])
      else if str_eq path "server.key"
      then ok (9 ∷ [])
      else ok [];
  add_root = λ c. ok c.der;
  default_sni = true;
  certs = λ b. ok (each b);
  pkcs8_private_keys = λ b. ok (each b);
  with_single_cert = λ chain key. ok tt;
  varint_max = 2 ^ 62 - 1;
}

abbrev insecure : Config
insecure = record default { verify_peer = false; max_concurrent_streams = 7 }

build_client_config-Agrees_example :
    build_client_config tls insecure ≡ build_client_config tls default
build_client_config-Agrees_example =
    build_client_config-Agrees tls insecure default
      (record { ca_path = refl; server_name = refl; keep_alive_ms = refl; idle_timeout_ms = refl })

abbrev endless : Config
endless = record default { idle_timeout_ms = some (2 ^ 62) }

endless_run : build_client_config tls endless ≡ panicked
unfolding build_client_config
endless_run = refl

abbrev pub serving : Config
serving = record default { cert_path = some "server.crt"; key_path = some "server.key" }

abbrev built : ServerConfig
built = record {
  cert_chain = record { der = 1 ∷ [] } ∷ record { der = 2 ∷ [] } ∷ [];
  key = 9 ∷ [];
  transport = record {
    keep_alive_interval = some 5000;
    max_idle_timeout = some 30000;
    max_concurrent_uni_streams = some 100;
  };
}

build_server_config-IsBuilt_example : IsBuilt tls serving built
unfolding build_server_config
build_server_config-IsBuilt_example = build_server_config-IsBuilt tls serving built refl

abbrev keyless : Config
keyless = record serving { key_path = some "empty.key" }

keyless_run : build_server_config tls keyless ≡ panicked
unfolding build_server_config
keyless_run = refl
