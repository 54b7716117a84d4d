-- ===== src/Server/Starting.antt =====
-- What `Server::new` of src/server.rs makes.
use quic_serve.Prelude.{String, ◌<>◌, ◌≡◌, []}
use quic_serve.Error.{Result, map_err, quic}
use quic_serve.Config.{SocketAddr, Config}
use quic_serve.Config.Quinn.{Tls, ServerConfig, done, lift, >>=-eq-done}
use quic_serve.Config.Server.{build_server_config}
use quic_serve.Server.{Server}
use quic_serve.Server

module _ {World Endpoint Store : Type 0} (tls : Tls Store)
    (bind : ServerConfig → SocketAddr → Result String Endpoint)
    (set_protocols : Endpoint → Endpoint) where
  -- A new server has the configuration that it was given, from which a configuration of quinn could be
  -- built, and no service.
  pub new-done :
      (c : Config) (server : Server World Endpoint)
      → Server.new tls bind set_protocols c ≡ done server
      → (server.config ≡ c)
        × ((s : ServerConfig) × (build_server_config tls c ≡ done s))
        × (server.services ≡ [])
  unfolding Server.new
  new-done c server e =
      let (s, built, rest) = >>=-eq-done (build_server_config tls c) _ e in
      let (endpoint, bound, made) =
        >>=-eq-done
          (lift (map_err (λ x. quic ("Failed to create endpoint: " <> x)) (bind s c.addr))) _
          rest in
      (cc, (s, built), cc)
