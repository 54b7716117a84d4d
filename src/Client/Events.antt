-- ===== src/Client/Events.antt =====
-- The tasks of one client, interleaved. Each constructor is one section under a lock, so any run of
-- callers, response handlers, `connect` and `close` is a list of these in some order.
use quic_serve.Prelude.{ℕ, List, [], ◌∷◌}
use quic_serve.Message.{Bytes, Response, Codec, SerializationFormat}
use quic_serve.Transport.{BidiStream, MessageStream, Wire}
use quic_serve.Client.{Shared, next_request_id, register, transmit}
use quic_serve.Client.Handler.{take_stream, put_back, handle_response}
use quic_serve.Client.Lifecycle.{connected, close}

pub data Event (Session : Type 0) : Type 0 where
  reserve : Event Session
  open_channel : (id : ℕ) → Event Session
  request_sent : (request_bytes : Bytes) → Event Session
  handler_starts : Event Session
  response_came : (response_bytes : Bytes) → Event Session
  handler_ends : (stream : MessageStream) → Event Session
  connects : (session : Session) (stream : BidiStream) → Event Session
  closes : Event Session

module _ {Session : Type 0} (wire : Wire) (responses : Codec Response)
    (format : SerializationFormat) where
  unfoldable pub step : Event Session → Shared Session → Shared Session
  unfolding next_request_id register transmit take_stream put_back handle_response connected close
  step reserve s = (next_request_id s).1
  step (open_channel id) s = (register id s).1
  step (request_sent b) s = (transmit wire b s).1
  step handler_starts s = (take_stream s).1
  step (response_came b) s = handle_response responses format b s
  step (handler_ends stream) s = put_back stream s
  step (connects session stream) s = connected session stream s
  step closes s = (close s).1

  unfoldable pub run : List (Event Session) → Shared Session → Shared Session
  run [] s = s
  run (e ∷ es) s = run es (step e s)
