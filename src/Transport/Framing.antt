-- ===== src/Transport/Framing.antt =====
-- `send` and `receive` of src/transport.rs on the frames of a stream.
use quic_serve.Prelude.{◌<>◌, String, ◌≡◌, none, some, List, [], ◌∷◌, ◌++◌, arith}
use quic_serve.Error.{web_transport, Result, ok, err}
use quic_serve.Message.{Bytes}
use quic_serve.Transport.{MessageStream, Wire, send, receive, frame_codec}

-- The wire takes this frame, whatever was written before.
abbrev pub Takes : Wire → Bytes → Type 0
Takes wire b = (sent : List Bytes) → wire.accepts frame_codec sent b ≡ ok tt

-- The stream with more frames written.
abbrev pub with_sent : List Bytes → MessageStream → MessageStream
with_sent more s = record s { stream = record s.stream { sent = s.sent ++ more } }

module _ (wire : Wire) where
  pub send-Takes :
      (b : Bytes) (s : MessageStream)
      → s.codec ≡ frame_codec
      → Takes wire b
      → send wire b s ≡ (ok tt, with_sent (b ∷ []) s)
  unfolding send
  send-Takes b s c t = ground (arith, t s.sent)

-- The stream without the frame that stands first.
abbrev pub rest_of : List (Result String Bytes) → MessageStream → MessageStream
rest_of rest s = record s { stream = record s.stream { inbox = rest } }

pub receive-cons :
    (s : MessageStream) (b : Bytes) (rest : List (Result String Bytes))
    → s.inbox ≡ ok b ∷ rest
    → receive s ≡ (ok (some b), rest_of rest s)
unfolding receive
receive-cons s b rest e = ground arith

pub receive-err :
    (s : MessageStream) (e : String) (rest : List (Result String Bytes))
    → s.inbox ≡ err e ∷ rest
    → receive s ≡ (err (web_transport ("Failed to receive message: " <> e)), rest_of rest s)
unfolding receive
receive-err s e rest h = ground arith

pub receive-nil : (s : MessageStream) → s.inbox ≡ [] → receive s ≡ (ok none, s)
unfolding receive
receive-nil s e = ground arith
