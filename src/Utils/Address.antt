-- ===== src/Utils/Address.antt =====
-- `parse_socket_addr` of src/utils.rs. `SocketAddr::from_str` of the standard library is a parameter,
-- `parse`, with the text of its error; `Addr` is the type of socket addresses.
pub mod Default
use quic_serve.Prelude.{ℕ, String, ◌<>◌, contains, decimal, if◌then◌else◌}
use quic_serve.Error.{Error, invalid_config, Result, map_err}

module _ {Addr : Type 0} (parse : String → Result String Addr) where
  unfoldable pub parse_socket_addr : String → ℕ → Result Error Addr
  parse_socket_addr addr default_port =
      if contains b':' addr
      then map_err (λ e. invalid_config ("Invalid socket address: " <> e)) (parse addr)
      else map_err (λ e. invalid_config ("Invalid socket address: " <> e))
          (parse (addr <> (":" <> decimal default_port)))
