-- ===== src/Transport.antt =====
-- src/transport.rs: the message stream over length-delimited frames, and the two codecs.
pub mod ProtobufCodec
pub mod JsonCodec
pub mod Framing
pub mod Codecs
use quic_serve.Prelude.{ℕ, ◌*◌, String, ◌<>◌, Option, none, some, List, [], ◌∷◌, ◌++◌}
use quic_serve.Error.{Error, web_transport, Result, ok, err}
use quic_serve.Message.{Bytes}

-- The settings that `MessageStream::new` gives to tokio-util's `LengthDelimitedCodec`.
pub record FrameCodec : Type 0 where
  pub length_field_offset : ℕ
  pub length_field_length : ℕ
  pub length_adjustment : ℕ
  pub max_frame_length : ℕ

unfoldable pub frame_codec : FrameCodec
frame_codec = record {
  length_field_offset = 0;
  length_field_length = 4;
  length_adjustment = 0;
  max_frame_length = 16 * 1024 * 1024;
}

-- A WebTransport stream: what the framed reader will still yield before the peer ends the stream,
-- frames or errors, and the frames that have been written.
pub record BidiStream : Type 0 where
  pub inbox : List (Result String Bytes)
  pub sent : List Bytes

-- The framed writer of tokio-util: whether it takes a frame, given its settings and what has been
-- written before.
pub record Wire : Type 0 where
  pub accepts : FrameCodec → List Bytes → Bytes → Result String (Unit {0})

pub record MessageStream : Type 0 where
  pub codec : FrameCodec
  pub stream : BidiStream
  pub open stream use *

unfoldable pub new : BidiStream → MessageStream
unfolding frame_codec
new s = record { codec = frame_codec; stream = s }

abbrev pub written :
    Bytes → MessageStream → Result String (Unit {0}) → Result Error (Unit {0}) × MessageStream
written b s (ok _) = (ok tt, record s { stream = record s.stream { sent = s.sent ++ b ∷ [] } })
written b s (err e) = (err (web_transport ("Failed to send message: " <> e)), s)

unfoldable pub send : Wire → Bytes → MessageStream → Result Error (Unit {0}) × MessageStream
send wire b s = written b s (wire.accepts s.codec s.sent b)

abbrev pub next :
    List (Result String Bytes) → MessageStream → Result Error (Option Bytes) × MessageStream
next [] s = (ok none, s)
next (ok b ∷ rest) s = (ok (some b), record s { stream = record s.stream { inbox = rest } })
next (err e ∷ rest) s = (
  err (web_transport ("Failed to receive message: " <> e)),
  record s { stream = record s.stream { inbox = rest } },
)

unfoldable pub receive : MessageStream → Result Error (Option Bytes) × MessageStream
receive s = next s.inbox s

-- `Decoder::decode` of both codecs: what was made of the buffer, and the buffer that is left.
abbrev pub decoded {ℓ} :
    {T : Type ℓ} → (String → Error) → Bytes → Result String T → Result Error (Option T) × Bytes
decoded wrap src (ok item) = (ok (some item), [])
decoded wrap src (err e) = (err (wrap e), src)
