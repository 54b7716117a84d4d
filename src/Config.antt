-- ===== src/Config.antt =====
-- `Config` of src/config.rs: the record, its defaults and `Config::new`.
-- A path is its text, a socket address an address and a port.
pub mod Quinn
pub mod Client
pub mod Server
use quic_serve.Prelude.{ℕ, String, Bool, true, Option, none, some}
use quic_serve.Message.{SerializationFormat, default_timeout_ms, protobuf}

pub record SocketAddr : Type 0 where
  pub ip : String
  pub port : ℕ

pub record Config : Type 0 where
  pub addr : SocketAddr
  pub cert_path : Option String
  pub key_path : Option String
  pub ca_path : Option String
  pub verify_peer : Bool
  pub format : SerializationFormat
  pub timeout_ms : ℕ
  pub max_concurrent_streams : ℕ
  pub keep_alive_ms : Option ℕ
  pub idle_timeout_ms : Option ℕ
  pub server_name : Option String

-- `Default`; the text that the source parses for `addr` is "[::1]:4433".
abbrev pub default : Config
default = record {
  addr = record { ip = "::1"; port = 4433 };
  cert_path = none;
  key_path = none;
  ca_path = none;
  verify_peer = true;
  format = protobuf;
  timeout_ms = default_timeout_ms;
  max_concurrent_streams = 100;
  keep_alive_ms = some 5000;
  idle_timeout_ms = some 30000;
  server_name = none;
}

unfoldable pub new : SocketAddr → Config
new addr = record default { addr = addr }
