-- ===== src/Server/Sessions.antt =====
-- The sessions of one server, interleaved: `handle_session` of src/server.rs, cut where a task can be
-- suspended while a service runs, beside calls of `register_service` and new sessions. The services
-- are looked up under their lock as a request is heard; what a service does to its state is one step,
-- at the end of the call.
pub mod Answered
pub mod Ends
use quic_serve.Prelude.{
  ℕ, zero, suc, String, ◌<>◌, Option, none, some, List, [], ◌∷◌, ◌++◌, get, insert, string_eq,
}
use quic_serve.Error.{Error, Result, ok, err}
use quic_serve.Message.{
  Bytes, Request, Response, Codec, SerializationFormat, serialize, deserialize,
}
use quic_serve.Transport.{BidiStream, MessageStream, Wire, receive}
use quic_serve.Transport
use quic_serve.Utils.Format.{splitn}
use quic_serve.Config.{Config}
use quic_serve.Service.{CallRun, Service, Timer, timeout}
use quic_serve.Server.{Services}
use quic_serve.Server.Session.{failure, or_timeout, to_response, send_response}

-- A call in flight: its request, the method, and the service that was found.
pub record Call (World : Type 0) : Type 0 where
  pub request : Request
  pub method_name : String
  pub service : Service World

-- The task of one session; `heard` records the requests that it has read.
pub record Task (World : Type 0) : Type 0 where
  pub stream : MessageStream
  pub calling : Option (Call World)
  pub outcome : Option (Result Error (Unit {0}))
  pub heard : List Request

abbrev pub new_task : {World : Type 0} → List (Result String Bytes) → Task World
new_task frames = record {
  stream = Transport.new (record { inbox = frames; sent = [] });
  calling = none;
  outcome = none;
  heard = [];
}

-- What the tasks share.
pub record Running (World : Type 0) : Type 0 where
  pub services : Services World
  pub world : World
  pub tasks : List (Task World)

module _ {World : Type 0} (timer : Timer) (config : Config) (wire : Wire) (requests : Codec Request)
    (responses : Codec Response) where
  abbrev pub replied : Result Error (Unit {0}) × MessageStream → Task World → Task World
  replied (ok _, s) t = record t { stream = s; calling = none }
  replied (err e, s) t = record t { stream = s; calling = none; outcome = some (err e) }

  abbrev pub reply : Response → Task World → Task World
  reply response t =
      replied
        (send_response {World = World} timer config [] wire requests responses
          (serialize responses response config.format) t.stream)
        t

  abbrev pub look_up : Request → String → String → Option (Service World) → Task World → Task World
  look_up request service_name method_name none t =
      reply (failure request.id ("Service not found: " <> service_name)) t
  look_up request service_name method_name (some service) t = record t {
    calling = some (record { request = request; method_name = method_name; service = service });
  }

  abbrev pub route_to : Services World → Request → List String → Task World → Task World
  route_to services request (service_name ∷ method_name ∷ []) t =
      look_up request service_name method_name (get service_name services) t
  route_to services request _ t =
      reply
        (failure request.id
          ("Invalid method format. Expected 'service.method', got '" <> (request.method <> "'")))
        t

  abbrev pub hear_request : Services World → Result Error Request → Task World → Task World
  hear_request services (err e) t = record t { outcome = some (err e) }
  hear_request services (ok request) t =
      route_to services request (splitn request.method)
        (record t { heard = t.heard ++ request ∷ [] })

  abbrev pub hear_from :
      Services World → Result Error (Option Bytes) × MessageStream → Task World → Task World
  hear_from services (err e, s) t = record t { stream = s; outcome = some (err e) }
  hear_from services (ok none, s) t = record t { stream = s; outcome = some (ok tt) }
  hear_from services (ok (some request_bytes), s) t =
      hear_request services (deserialize requests request_bytes config.format)
        (record t { stream = s })

  -- The next message, up to the call of a service or to the response that needs none.
  unfoldable pub hear : Services World → Task World → Task World
  unfolding to_response
  hear services t = hear_from services (receive t.stream) t

  -- The call has completed or timed out, and the response is sent.
  unfoldable pub end_call : Call World → World → Task World → Task World × World
  unfolding timeout to_response
  end_call call w t =
      let (r, w') =
        timeout timer config.timeout_ms
          (call.service.call call.method_name call.request.payload w) in
      (reply (to_response call.request.id (or_timeout r)) t, w')

  abbrev pub turn_of :
      Option (Result Error (Unit {0}))
      → Option (Call World)
      → Services World
      → World
      → Task World
      → Task World × World
  turn_of (some _) calling services w t = (t, w)
  turn_of none (some call) services w t = end_call call w t
  turn_of none none services w t = (hear services t, w)

  -- The next section of a task; a task that has ended does nothing.
  unfoldable pub turn : Services World → World → Task World → Task World × World
  unfolding hear end_call
  turn services w t = turn_of t.outcome t.calling services w t

  -- The turn of the n-th session.
  unfoldable pub turn_at :
      ℕ → Services World → World → List (Task World) → List (Task World) × World
  unfolding turn
  turn_at n services w [] = ([], w)
  turn_at zero services w (t ∷ tasks) = let (t', w') = turn services w t in (t' ∷ tasks, w')
  turn_at (suc n) services w (t ∷ tasks) =
      let (tasks', w') = turn_at n services w tasks in (t ∷ tasks', w')

-- What can happen next: a session goes on, a service is registered, or a session is accepted with its
-- stream, which will yield these frames and has nothing written on it yet. Sessions are numbered as they come.
pub data Happening (World : Type 0) : Type 0 where
  goes_on : ℕ → Happening World
  registers : String → Service World → Happening World
  accepts : List (Result String Bytes) → Happening World

module _ {World : Type 0} (timer : Timer) (config : Config) (wire : Wire) (requests : Codec Request)
    (responses : Codec Response) where
  unfoldable pub happen : Happening World → Running World → Running World
  unfolding turn_at insert Transport.new
  happen (goes_on n) s =
      let (tasks, w) = turn_at timer config wire requests responses n s.services s.world s.tasks in
      record s { tasks = tasks; world = w }
  happen (registers name service) s = record s { services = insert name service s.services }
  happen (accepts frames) s = record s { tasks = s.tasks ++ new_task frames ∷ [] }

  unfoldable pub history : List (Happening World) → Running World → Running World
  unfolding happen
  history [] s = s
  history (h ∷ hs) s = history hs (happen h s)
