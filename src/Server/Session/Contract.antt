-- ===== src/Server/Session/Contract.antt =====
-- What the response to each request is, told without the code's parsing, lookups and timers.
use quic_serve.Prelude.{
  ℕ, ◌≤◌, String, ◌<>◌, contains, ◌≡◌, inl, inr, true, false, Bool-cases, Option, none, some,
  Option-cases, List, get, string_eq, arith,
}
use quic_serve.Error.{to_string}
use quic_serve.Message.{Request, Response}
use quic_serve.Utils.Format.{splitn, format_method_name}
use quic_serve.Utils.Format.Methods.{Split, whole, around, splitn-Split}
use quic_serve.Config.{Config}
use quic_serve.Service.{Service, Timer, timeout}
use quic_serve.Service.Bounded.{holds-soon}
use quic_serve.Server.{Services}
use quic_serve.Server.Session.{failure, to_response, run_service, route, dispatch}

module _ {World : Type 0} (timer : Timer) (config : Config) (services : Services World) where
  -- The responses that a request may get, and what the services are left with.
  pub data IsServed (request : Request) (w : World) : Response × World → Type 0 where
    no_dot :
        contains b'.' request.method ≡ false
        → IsServed request w (
          failure request.id (
              "Invalid method format. Expected 'service.method', got '" <> (request.method <> "'")),
          w,
        )
    no_service :
        (name method : String)
        → contains b'.' name ≡ false
        → format_method_name name method ≡ request.method
        → get name services ≡ none
        → IsServed request w (failure request.id ("Service not found: " <> name), w)
    completed :
        (name method : String) (service : Service World) (took : ℕ)
        → contains b'.' name ≡ false
        → format_method_name name method ≡ request.method
        → get name services ≡ some service
        → (service.call method request.payload w).took ≡ some took
        → took ≤ config.timeout_ms
        → IsServed request w (
          to_response request.id (service.call method request.payload w).outcome,
          (service.call method request.payload w).after,
        )
    timed_out :
        (name method : String) (service : Service World)
        → contains b'.' name ≡ false
        → format_method_name name method ≡ request.method
        → get name services ≡ some service
        → ((took : ℕ)
            → (service.call method request.payload w).took ≡ some took
            → config.timeout_ms ≤ took)
        → IsServed request w (
          failure request.id "Request timeout",
          (service.call method request.payload w).dropped config.timeout_ms,
        )

  fires-late :
      (limit took : ℕ) (o : Option ℕ) → timer.fires limit o ≡ true → o ≡ some took → limit ≤ took
  fires-late limit took o fired takes = grind (arith, timer.in_time limit took)

  service-IsServed :
      (request : Request) (w : World) (name method : String) (service : Service World)
      → contains b'.' name ≡ false
      → format_method_name name method ≡ request.method
      → get name services ≡ some service
      → IsServed request w (run_service timer config services request name method (some service) w)
  unfolding timeout to_response to_string
  service-IsServed request w name method service dotless e found =
      let run = service.call method request.payload w in
      elim (Bool-cases (timer.fires config.timeout_ms run.took)) [
        | inl fired ↦ rw fired (
            timed_out name method service dotless e found
              (λ took. fires-late config.timeout_ms took run.took fired))
        | inr held ↦ rw held (
            let (took, takes, soon) = holds-soon timer config.timeout_ms run.took held in
            completed name method service took dotless e found takes soon)
      ]

  route-IsServed :
      (request : Request) (w : World) (parts : List String)
      → Split request.method parts
      → IsServed request w (route timer config services request parts w)
  route-IsServed request w parts (whole free) = no_dot free
  route-IsServed request w parts (around name method free e) =
      elim (Option-cases (get name services)) [
        | inl missing ↦ rw missing (no_service name method free e missing)
        | inr (service, found) ↦
            rw found (service-IsServed request w name method service free e found)
      ]

  -- Every request is served: one whose method has no dot, or names a service that is not registered,
  -- gets an error that says so and leaves the services as they are; otherwise the service is called
  -- once, with what stands behind the first dot as the method. Then either the call completes, not later
  -- than the timeout, and the response carries its outcome; or it does not complete before the timeout, it
  -- is dropped, and the response is the error "Request timeout".
  pub dispatch-IsServed :
      (request : Request) (w : World)
      → IsServed request w (dispatch timer config services request w)
  unfolding dispatch
  dispatch-IsServed request w =
      route-IsServed request w (splitn request.method) (splitn-Split request.method)
