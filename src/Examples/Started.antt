-- ===== src/Examples/Started.antt =====
-- The server that `main` of examples/rpc_server.rs starts. Its last step, `serve`, is that of src/server.rs.
use quic_serve.Prelude.{
  ℕ, ◌<◌, String, contains, ◌≡◌, refl, sym, ap, subst, ◌∙◌, some, get, insert, remove, string_eq,
  arith,
}
use quic_serve.Error.{Result}
use quic_serve.Message.{Bytes, protobuf}
use quic_serve.Utils.Format.{format_method_name}
use quic_serve.Config.{Config, SocketAddr, default}
use quic_serve.Config.Quinn.{Outcome, done, ◌>>=◌, >>=-eq-done, ServerConfig, Tls}
use quic_serve.Service.{Service, Timer}
use quic_serve.Server.{Server, register_service}
use quic_serve.Server
use quic_serve.Server.Starting.{new-done}
use quic_serve.Server.Session.{to_response, dispatch}
use quic_serve.Server.Session.Dispatch.{dispatch-in_time}
use quic_serve.Examples.Certificates.{Rcgen, Files, prepare}
use quic_serve.Examples.Echo.{EchoCodecs, call, echo_service}

abbrev pub config : Config
config = record default {
  addr = record { ip = "127.0.0.1"; port = 4433 };
  cert_path = some "certs/server.crt";
  key_path = some "certs/server.key";
  format = protobuf;
}

module _ {World Endpoint Store DistinguishedName Certificate Disk : Type 0}
    (rcgen : Rcgen DistinguishedName Certificate) (files : Files Disk) (tls : Disk → Tls Store)
    (bind : ServerConfig → SocketAddr → Result String Endpoint)
    (set_protocols : Endpoint → Endpoint) (codecs : EchoCodecs) (now : World → ℕ)
    (compute_service : Service World) where
  abbrev registered : Server World Endpoint → Server World Endpoint
  registered server =
      (register_service "compute" compute_service
        (register_service "echo" (echo_service codecs now) server).1).1

  abbrev with_certificates : Outcome (Unit {0}) × Disk → Outcome (Server World Endpoint) × Disk
  with_certificates (prepared, d) = (
    do
      _ ← prepared
      server ← Server.new (tls d) bind set_protocols config
      done (registered server),
    d,
  )

  -- `main` up to the call of `serve`.
  unfoldable pub start : Disk → Outcome (Server World Endpoint) × Disk
  unfolding prepare register_service echo_service
  start d = with_certificates (prepare rcgen files d)

  echo-registered :
      (server : Server World Endpoint)
      → get "echo" (registered server).services ≡ some (echo_service codecs now)
  unfolding get insert remove register_service
  echo-registered server = refl

  config-registered : (server : Server World Endpoint) → (registered server).config ≡ server.config
  unfolding register_service
  config-registered server = refl

  -- The server that is started has the configuration of `main`, and `EchoService` under "echo".
  pub start-HasEcho :
      (d d' : Disk) (server : Server World Endpoint)
      → start d ≡ (done server, d')
      → (server.config ≡ config) × (get "echo" server.services ≡ some (echo_service codecs now))
  unfolding start
  start-HasEcho d d' server e =
      let (prepared, d1) = prepare rcgen files d in
      let (_, _, rest) = >>=-eq-done prepared _ (ap (λ x. x.0) e) in
      let (made, new, rest') = >>=-eq-done (Server.new (tls d1) bind set_protocols config) _ rest in
      let (same, _, _) = new-done (tls d1) bind set_protocols config made new in
      let served : registered made ≡ server = cc rest' in
      (
        sym (ap (λ s. s.config) served) ∙ config-registered made ∙ same,
        subst (λ s. get "echo" s.services ≡ some (echo_service codecs now)) served
            (echo-registered made),
      )

  -- Where the example server starts, it answers a request for any method of the service "echo" with the
  -- result of `EchoService::call`, and nothing is changed by it.
  pub start-echo :
      (timer : Timer) (d d' : Disk) (server : Server World Endpoint) (id : ℕ) (method : String)
      (payload : Bytes) (w : World)
      → start d ≡ (done server, d')
      → dispatch timer server.config server.services
          (record { id = id; method = format_method_name "echo" method; payload = payload })
          w
        ≡ (to_response id (call codecs now method payload w), w)
  unfolding echo_service contains
  start-echo timer d d' server id method payload w e =
      let (same, found) = start-HasEcho d d' server e in
      dispatch-in_time timer server.config server.services id "echo" method payload
        (echo_service codecs now) w 0 refl found refl
        (subst (λ c. 0 < c.timeout_ms) (sym same) (omega arith))
