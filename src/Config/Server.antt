-- ===== src/Config/Server.antt =====
-- `Config::build_server_config` of src/config.rs.
pub mod Requires
use quic_serve.Prelude.{ℕ, String, ◌<>◌, Option, none, some, List, [], ◌∷◌}
use quic_serve.Error.{Error, invalid_config, certificate_error, map_err, ok_or}
use quic_serve.Message.{Bytes}
use quic_serve.Utils.Streams.{Certificate, certificates}
use quic_serve.Config.{Config}
use quic_serve.Config.Quinn.{
  Outcome, done, panicked, ◌>>=◌, lift, TransportConfig, ServerConfig, Tls, to_varint,
}
use quic_serve.Config.Client.{idle_timeout}

-- `keys.remove(0)` of a `Vec`.
abbrev pub remove_first : List Bytes → Outcome Bytes
remove_first [] = panicked
remove_first (key ∷ _) = done key

-- The chain and the key of a server.
pub record Identity : Type 0 where
  pub cert_chain : List Certificate
  pub key : Bytes

module _ {Store : Type 0} (tls : Tls Store) where
  -- The two files as they are read, the certificate first.
  unfoldable pub read_files : Option String → Option String → Outcome (Bytes × Bytes)
  read_files cert key = do
    cert_path ← lift (ok_or (invalid_config "Certificate file path is required for server") cert)
    key_path ← lift (ok_or (invalid_config "Private key file path is required for server") key)
    cert_chain ← lift (
        map_err (λ e. certificate_error ("Failed to read certificate file: " <> e))
          (tls.read cert_path))
    key_bytes ← lift (
        map_err (λ e. certificate_error ("Failed to read private key file: " <> e))
          (tls.read key_path))
    done (cert_chain, key_bytes)

  unfoldable pub parse_identity : Bytes → Bytes → Outcome Identity
  parse_identity cert_chain key_bytes = do
    certs ← lift (
        map_err (λ e. certificate_error ("Failed to parse certificate: " <> e))
          (tls.certs cert_chain))
    keys ← lift (
        map_err (λ e. certificate_error ("Failed to parse private key: " <> e))
          (tls.pkcs8_private_keys key_bytes))
    key ← remove_first keys
    _ ← lift (
        map_err (λ e. certificate_error ("Invalid certificate: " <> e))
          (tls.with_single_cert (certificates certs) key))
    done (record { cert_chain = certificates certs; key = key })

  unfoldable pub server_transport : Config → Outcome TransportConfig
  server_transport c = do
    idle ← idle_timeout tls c.idle_timeout_ms
    streams ← to_varint tls.varint_max c.max_concurrent_streams
    done (record {
      keep_alive_interval = c.keep_alive_ms;
      max_idle_timeout = idle;
      max_concurrent_uni_streams = some streams;
    })

  unfoldable pub build_server_config : Config → Outcome ServerConfig
  unfolding read_files parse_identity server_transport
  build_server_config c = do
    files ← read_files c.cert_path c.key_path
    identity ← parse_identity files.0 files.1
    transport ← server_transport c
    done (record { cert_chain = identity.cert_chain; key = identity.key; transport = transport })
