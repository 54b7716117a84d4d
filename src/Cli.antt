-- ===== src/Cli.antt =====
-- src/bin/quicserve.rs: the arguments, as clap hands them over, and their defaults.
pub mod Exit
pub mod Serve
pub mod Connect
pub mod Main
pub mod Serving
pub mod Closes
pub mod Debug
use quic_serve.Prelude.{ℕ, String, Bool, false, Option, none}

pub record ServerArgs : Type 0 where
  pub addr : String
  pub cert : String
  pub key : String
  pub ca : Option String
  pub verify_client : Bool
  pub format : String
  pub max_streams : ℕ
  pub keep_alive : ℕ
  pub idle_timeout : ℕ

pub record ClientArgs : Type 0 where
  pub addr : String
  pub host : String
  pub ca : Option String
  pub format : String
  pub timeout : ℕ
  pub keep_alive : ℕ
  pub idle_timeout : ℕ
  pub method : Option String
  pub input : Option String

pub data Commands : Type 0 where
  serve : ServerArgs → Commands
  connect : ClientArgs → Commands

pub record Cli : Type 0 where
  pub debug : Bool
  pub command : Commands

-- What a user gets who gives the required arguments only.
abbrev pub default_server_args : String → String → ServerArgs
default_server_args cert key = record {
  addr = "[::1]:4433";
  cert = cert;
  key = key;
  ca = none;
  verify_client = false;
  format = "protobuf";
  max_streams = 100;
  keep_alive = 5000;
  idle_timeout = 30000;
}

abbrev pub default_client_args : ClientArgs
default_client_args = record {
  addr = "[::1]:4433";
  host = "localhost";
  ca = none;
  format = "protobuf";
  timeout = 30000;
  keep_alive = 5000;
  idle_timeout = 30000;
  method = none;
  input = none;
}
