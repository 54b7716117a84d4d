-- ===== src/Server/Session.antt =====
-- `handle_session` of src/server.rs.
pub mod Dispatch
pub mod Answering
pub mod Contract
pub mod Replies
pub mod Failures
use quic_serve.Prelude.{
  ℕ, zero, suc, String, ◌<>◌, Bool, Option, none, some, List, [], ◌∷◌, get, length, string_eq,
}
use quic_serve.Error.{Error, web_transport, to_string, Result, ok, err}
use quic_serve.Error
use quic_serve.Message.{
  Bytes, Request, Response, Codec, SerializationFormat, serialize, deserialize,
}
use quic_serve.Transport.{BidiStream, MessageStream, Wire, send, receive}
use quic_serve.Transport
use quic_serve.Utils.Format.{splitn}
use quic_serve.Config.{Config}
use quic_serve.Service.{CallRun, Service, Timer, timeout}
use quic_serve.Server.{Services}

-- `Response` with an error, and with a payload.
abbrev pub failure : ℕ → String → Response
failure id e = record { id = id; payload = none; error = some e }

abbrev pub success : ℕ → Bytes → Response
success id b = record { id = id; payload = some b; error = none }

-- `match timeout.await { Ok(result) => result, Err(_) => Err(Error::Timeout) }`
abbrev pub or_timeout : Option (Result Error Bytes) → Result Error Bytes
or_timeout none = err Error.timeout
or_timeout (some r) = r

-- The response that carries the result of a call.
unfoldable pub to_response : ℕ → Result Error Bytes → Response
to_response id (ok payload) = success id payload
to_response id (err e) = failure id (to_string e)

module _ {World : Type 0} (timer : Timer) (config : Config) (services : Services World) where
  abbrev pub answer : ℕ → Option (Result Error Bytes) × World → Response × World
  answer id (r, w) = (to_response id (or_timeout r), w)

  abbrev pub run_service :
      Request → String → String → Option (Service World) → World → Response × World
  run_service request service_name method_name none w =
      (failure request.id ("Service not found: " <> service_name), w)
  run_service request service_name method_name (some service) w =
      answer request.id
        (timeout timer config.timeout_ms (service.call method_name request.payload w))

  abbrev pub route : Request → List String → World → Response × World
  route request (service_name ∷ method_name ∷ []) w =
      run_service request service_name method_name (get service_name services) w
  route request _ w = (
    failure request.id
        ("Invalid method format. Expected 'service.method', got '" <> (request.method <> "'")),
    w,
  )

  -- What the loop makes of one request: the response, and what the services are left with.
  unfoldable pub dispatch : Request → World → Response × World
  unfolding timeout to_response
  dispatch request w = route request (splitn request.method) w

  module _ (wire : Wire) (requests : Codec Request) (responses : Codec Response) where
    -- `let response_bytes = serialize(…)?; message_stream.send(response_bytes).await?`
    abbrev pub send_response :
        Result Error Bytes → MessageStream → Result Error (Unit {0}) × MessageStream
    send_response (ok response_bytes) s = send wire response_bytes s
    send_response (err e) s = (err e, s)

    abbrev pub respond :
        Response × World → MessageStream → Result Error (Unit {0}) × MessageStream × World
    respond (response, w) s =
        let (r, s') = send_response (serialize responses response config.format) s in (r, s', w)

    abbrev pub handle_request :
        Result Error Request
        → MessageStream
        → World
        → Result Error (Unit {0}) × MessageStream × World
    handle_request (ok request) s w = respond (dispatch request w) s
    handle_request (err e) s w = (err e, s, w)

    -- The body of the `while let` loop, for one message.
    unfoldable pub handle_message :
        Bytes → MessageStream → World → Result Error (Unit {0}) × MessageStream × World
    handle_message request_bytes s w =
        handle_request (deserialize requests request_bytes config.format) s w

    abbrev proceed :
        (MessageStream → World → Option (Result Error (Unit {0}) × MessageStream × World))
        → Result Error (Unit {0}) × MessageStream × World
        → Option (Result Error (Unit {0}) × MessageStream × World)
    proceed loop (ok _, s, w) = loop s w
    proceed loop (err e, s, w) = some (err e, s, w)

    -- One round of the loop, given what `receive` returned and the rounds that follow.
    abbrev round :
        (MessageStream → World → Option (Result Error (Unit {0}) × MessageStream × World))
        → Result Error (Option Bytes) × MessageStream
        → World
        → Option (Result Error (Unit {0}) × MessageStream × World)
    round loop (err e, s) w = some (err e, s, w)
    round loop (ok none, s) w = some (ok tt, s, w)
    round loop (ok (some request_bytes), s) w = proceed loop (handle_message request_bytes s w)

    -- The loop; `none` means that the fuel ran out.
    unfoldable pub session_loop :
        ℕ → MessageStream → World → Option (Result Error (Unit {0}) × MessageStream × World)
    session_loop zero s w = none
    session_loop (suc fuel) s w = round (session_loop fuel) (receive s) w

    abbrev pub ended :
        Option (Result Error (Unit {0}) × MessageStream × World)
        → Option (Result Error (Unit {0}) × Option MessageStream × World)
    ended none = none
    ended (some (r, s, w)) = some (r, some s, w)

    -- The argument is the outcome of `session.accept_bi()`. A call of `receive` takes a frame or ends the
    -- loop, so there are at most as many rounds as frames, and one more.
    unfoldable pub handle_session :
        Result String BidiStream
        → World
        → Option (Result Error (Unit {0}) × Option MessageStream × World)
    unfolding session_loop
    handle_session (err e) w =
        some (err (web_transport ("Failed to accept bidirectional stream: " <> e)), none, w)
    handle_session (ok stream) w =
        ended (session_loop (suc (length stream.inbox)) (Transport.new stream) w)
