-- ===== src/Config/Client.antt =====
-- `Config::build_client_config` of src/config.rs.
pub mod Ignored
use quic_serve.Prelude.{ℕ, String, ◌<>◌, Bool, true, Option, none, some}
use quic_serve.Error.{Error, certificate_error, map_err}
use quic_serve.Utils.Streams.{Certificate}
use quic_serve.Config.{Config}
use quic_serve.Config.Quinn.{
  Outcome, done, ◌>>=◌, lift, TransportConfig, default_transport, Roots, custom, native_roots,
  ClientConfig, Tls, to_varint,
}

module _ {Store : Type 0} (tls : Tls Store) where
  -- `if let Some(server_name) = … { crypto.enable_sni = true }`
  abbrev sni : Option String → Bool
  sni none = tls.default_sni
  sni (some _) = true

  -- The file is taken for one DER certificate as it is.
  unfoldable pub client_roots : Option String → Option String → Outcome (Roots Store)
  client_roots none server_name = done native_roots
  client_roots (some ca_path) server_name = do
    ca_cert ←
        lift (map_err (λ e. certificate_error ("Failed to read CA cert: " <> e)) (tls.read ca_path))
    store ← lift (
        map_err (λ e. certificate_error ("Failed to add CA cert: " <> e))
          (tls.add_root (record { der = ca_cert })))
    done (custom store (sni server_name))

  -- `if let Some(idle_timeout_ms) = … { … try_into().unwrap() … }`
  abbrev pub idle_timeout : Option ℕ → Outcome (Option ℕ)
  idle_timeout none = done none
  idle_timeout (some ms) = do t ← to_varint tls.varint_max ms; done (some t)

  unfoldable pub build_client_config : Config → Outcome (ClientConfig Store)
  unfolding client_roots
  build_client_config c = do
    roots ← client_roots c.ca_path c.server_name
    idle ← idle_timeout c.idle_timeout_ms
    done (record {
      roots = roots;
      transport = record default_transport {
        keep_alive_interval = c.keep_alive_ms;
        max_idle_timeout = idle;
      };
    })
