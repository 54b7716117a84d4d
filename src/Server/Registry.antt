-- ===== src/Server/Registry.antt =====
-- What registering a service changes in the answers.
use quic_serve.Prelude.{
  ℕ, ◌<◌, String, contains, ◌≡◌, ◌≢◌, refl, ◌∙◌, false, some, get, get-insert, string_eq, str_eq,
  eq_iff, eq_refl, if◌then◌else◌, arith,
}
use quic_serve.Message.{Bytes}
use quic_serve.Utils.Format.{format_method_name}
use quic_serve.Utils.Format.Methods.{splitn-format_method_name}
use quic_serve.Service.{Service, Timer}
use quic_serve.Server.{Server, register_service}
use quic_serve.Server.Session.{to_response, dispatch}
use quic_serve.Server.Session.Dispatch.{dispatch-in_time}

module _ {World Endpoint : Type 0} (timer : Timer) (server : Server World Endpoint) (name : String)
    (service : Service World) where
  get-register_service :
      (j : String)
      → get j (register_service name service server).1.services
        ≡ (if str_eq name j then some service else get j server.services)
  unfolding register_service
  get-register_service j = get-insert name j service server.services

  -- Once a service is registered under a name with no dot, a request for one of its methods gets the
  -- result of this service's call, if that completes in time, whatever was registered before.
  pub dispatch-register_service :
      (id : ℕ) (method : String) (payload : Bytes) (w : World) (took : ℕ)
      → contains b'.' name ≡ false
      → (service.call method payload w).took ≡ some took
      → took < server.config.timeout_ms
      → dispatch timer server.config
          (register_service name service server).1.services
          (record { id = id; method = format_method_name name method; payload = payload })
          w
        ≡ (
          to_response id (service.call method payload w).outcome,
          (service.call method payload w).after,
        )
  dispatch-register_service id method payload w took dotless takes soon =
      dispatch-in_time timer server.config (register_service name service server).1.services id name
        method payload service w took dotless (get-register_service name ∙ rw (eq_refl name) refl)
        takes soon

  ne-false : (j : String) → name ≢ j → str_eq name j ≡ false
  ne-false j h = ground (arith, eq_iff name j)

  -- Requests for the services of other names are answered as before.
  pub dispatch-register_service_other :
      (id : ℕ) (other method : String) (payload : Bytes) (w : World)
      → contains b'.' other ≡ false
      → name ≢ other
      → dispatch timer server.config
          (register_service name service server).1.services
          (record { id = id; method = format_method_name other method; payload = payload })
          w
        ≡ dispatch timer server.config server.services
            (record { id = id; method = format_method_name other method; payload = payload })
            w
  unfolding dispatch
  dispatch-register_service_other id other method payload w dotless differs =
      rw
        (
          splitn-format_method_name other method dotless,
          get-register_service other,
          ne-false other differs,
        )
        refl
