-- ===== src/Server/Session/Dispatch.antt =====
-- What the server answers to one request.
use quic_serve.Prelude.{
  ℕ, ◌<◌, String, ◌<>◌, contains, ◌≡◌, refl, ◌⊎◌, inl, inr, false, Option, none, some, List, [],
  ◌∷◌, get, string_eq,
}
use quic_serve.Error.{Error, to_string, Result, ok, err}
use quic_serve.Message.{Bytes, Request, Response}
use quic_serve.Utils.Format.{splitn, format_method_name}
use quic_serve.Utils.Format.Methods.{splitn-format_method_name}
use quic_serve.Config.{Config}
use quic_serve.Service.{Service, Timer, timeout}
use quic_serve.Server.{Services}
use quic_serve.Server.Session.{failure, to_response, or_timeout, run_service, route, dispatch}

-- A response answers the request of this number: it has its id, and either a payload or an error.
pub record IsAnswer (id : ℕ) (r : Response) : Type 0 where
  pub same_id : r.id ≡ id
  pub one_side :
      ((b : Bytes) × (r.payload ≡ some b) × (r.error ≡ none))
      ⊎ ((e : String) × (r.payload ≡ none) × (r.error ≡ some e))

pub failure-IsAnswer : (id : ℕ) (e : String) → IsAnswer id (failure id e)
failure-IsAnswer id e = record { same_id = refl; one_side = inr (e, refl, refl) }

pub to_response-IsAnswer : (id : ℕ) (r : Result Error Bytes) → IsAnswer id (to_response id r)
unfolding to_response
to_response-IsAnswer id (ok b) = record { same_id = refl; one_side = inl (b, refl, refl) }
to_response-IsAnswer id (err e) = failure-IsAnswer id (to_string e)

module _ {World : Type 0} (timer : Timer) (config : Config) (services : Services World) where
  run_service-IsAnswer :
      (request : Request) (service_name method_name : String) (s : Option (Service World))
      (w : World)
      → IsAnswer request.id
          (run_service timer config services request service_name method_name s w).0
  run_service-IsAnswer request service_name method_name none w =
      failure-IsAnswer request.id ("Service not found: " <> service_name)
  run_service-IsAnswer request service_name method_name (some s) w =
      to_response-IsAnswer request.id
        (or_timeout (timeout timer config.timeout_ms (s.call method_name request.payload w)).0)

  route-IsAnswer :
      (request : Request) (parts : List String) (w : World)
      → IsAnswer request.id (route timer config services request parts w).0
  route-IsAnswer request (a ∷ b ∷ []) w = run_service-IsAnswer request a b (get a services) w
  route-IsAnswer request _ w = failure-IsAnswer request.id _

  -- Every request is answered: the response has the request's id, and either a payload or an error.
  pub dispatch-IsAnswer :
      (request : Request) (w : World)
      → IsAnswer request.id (dispatch timer config services request w).0
  unfolding dispatch
  dispatch-IsAnswer request w = route-IsAnswer request (splitn request.method) w

  -- A request for a method of a registered service, whose name has no dot, gets the result of the call
  -- as its response if the call completes before the configured timeout; the method's name may have
  -- dots, and the services are left as the call leaves them.
  pub dispatch-in_time :
      (id : ℕ) (name method : String) (payload : Bytes) (service : Service World) (w : World)
      (took : ℕ)
      → contains b'.' name ≡ false
      → get name services ≡ some service
      → (service.call method payload w).took ≡ some took
      → took < config.timeout_ms
      → dispatch timer config services
          (record { id = id; method = format_method_name name method; payload = payload })
          w
        ≡ (
          to_response id (service.call method payload w).outcome,
          (service.call method payload w).after,
        )
  unfolding dispatch
  dispatch-in_time id name method payload service w took dotless found takes soon =
      rw
        (
          splitn-format_method_name name method dotless,
          found,
          takes,
          timer.in_time config.timeout_ms took soon,
        )
        refl
