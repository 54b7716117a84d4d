-- ===== src/Client/Handler.antt =====
-- The response handler of src/client.rs, the task that `start_response_handler` spawns.
use quic_serve.Prelude.{
  ℕ, zero, suc, String, Option, none, some, [], ◌∷◌, ◌++◌, get, remove, nat_eq, length,
}
use quic_serve.Error.{Error, rpc_failed, Result, ok, err}
use quic_serve.Message.{Bytes, Response, Codec, SerializationFormat, deserialize}
use quic_serve.Transport.{MessageStream, receive}
use quic_serve.Client.{Channel, Shared}

-- `unwrap_or_else(|| Bytes::new())`
abbrev pub or_empty : Option Bytes → Bytes
or_empty none = []
or_empty (some b) = b

abbrev result_from : Option String → Option Bytes → Result Error Bytes
result_from (some e) payload = err (rpc_failed e)
result_from none payload = ok (or_empty payload)

-- What a response tells the caller.
unfoldable pub response_result : Response → Result Error Bytes
response_result r = result_from r.error r.payload

module _ {Session : Type 0} where
  -- `guard.take()`: the task has the stream for itself, and the client has none.
  unfoldable pub take_stream : Shared Session → Option MessageStream × Shared Session
  take_stream s = (s.message_stream, record s { message_stream = none })

  -- `*guard = Some(stream)`
  unfoldable pub put_back : MessageStream → Shared Session → Shared Session
  put_back stream s = record s { message_stream = some stream }

  abbrev pub deliver : Option Channel → Result Error Bytes → Shared Session → Shared Session
  deliver none r s = s
  deliver (some c) r s = record s { delivered = s.delivered ++ (c, r) ∷ [] }

  module _ (responses : Codec Response) (format : SerializationFormat) where
    abbrev pub handle_decoded : Result Error Response → Shared Session → Shared Session
    handle_decoded (err e) s = s
    handle_decoded (ok response) s =
        deliver (get response.id s.pending) (response_result response)
          (record s { pending = remove response.id s.pending })

    -- The body of the loop, for one message; a message that is no response is skipped.
    unfoldable pub handle_response : Bytes → Shared Session → Shared Session
    unfolding response_result
    handle_response response_bytes s =
        handle_decoded (deserialize responses response_bytes format) s

    -- The loop on the stream, up to its end or an error; `none` means that the fuel ran out.
    abbrev round :
        (MessageStream → Shared Session → Option (MessageStream × Shared Session))
        → Result Error (Option Bytes) × MessageStream
        → Shared Session
        → Option (MessageStream × Shared Session)
    round loop (ok (some response_bytes), stream) s = loop stream (handle_response response_bytes s)
    round loop (_, stream) s = some (stream, s)

    unfoldable pub handler_loop :
        ℕ → MessageStream → Shared Session → Option (MessageStream × Shared Session)
    handler_loop zero stream s = none
    handler_loop (suc fuel) stream s = round (handler_loop fuel) (receive stream) s

    abbrev pub then_put_back : Option (MessageStream × Shared Session) → Option (Shared Session)
    then_put_back none = none
    then_put_back (some (stream, s)) = some (put_back stream s)

    abbrev pub handle_on : Option MessageStream × Shared Session → Option (Shared Session)
    handle_on (none, s) = some s
    handle_on (some stream, s) = then_put_back (handler_loop (suc (length stream.inbox)) stream s)

    -- The whole task, if nothing else runs in between.
    unfoldable pub response_handler : Shared Session → Option (Shared Session)
    unfolding take_stream handler_loop put_back
    response_handler s = handle_on (take_stream s)
