-- ===== src/Client/Wait.antt =====
-- `call` of src/client.rs, from the wait for the response on.
use quic_serve.Error.{Error, timeout, connection_closed, Result, ok, err}
use quic_serve.Message.{Bytes, Codec, SerializationFormat, deserialize}

-- How the wait ends: the timer fires, the sender is dropped unused, or a result comes.
pub data Waited : Type 0 where
  elapsed : Waited
  sender_dropped : Waited
  received : Result Error Bytes → Waited

module _ {R : Type 0} (results : Codec R) (format : SerializationFormat) where
  unfoldable pub finish_call : Waited → Result Error R
  finish_call elapsed = err timeout
  finish_call sender_dropped = err connection_closed
  finish_call (received (err e)) = err e
  finish_call (received (ok response_bytes)) = deserialize results response_bytes format
