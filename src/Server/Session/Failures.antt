-- ===== src/Server/Session/Failures.antt =====
-- A session always ends, and ends at the first message that is not a request.
use quic_serve.Prelude.{◌≡◌, refl, ◌∙◌, String, Option, some, List, ◌∷◌, ◌++◌, map}
use quic_serve.Error.{Error, Result, ok, err}
use quic_serve.Message.{Bytes, Request, Response, Codec, deserialize}
use quic_serve.Transport.{MessageStream, BidiStream, FrameCodec, Wire, receive}
use quic_serve.Transport
use quic_serve.Transport.Framing.{rest_of, with_sent, receive-cons}
use quic_serve.Config.{Config}
use quic_serve.Service.{Service, Timer}
use quic_serve.Server.{Services}
use quic_serve.Server.Session.{handle_message, session_loop, handle_session}
use quic_serve.Server.Session.Replies.{Served, handle_session-Served}

module _ {World : Type 0} (timer : Timer) (config : Config) (services : Services World)
    (wire : Wire) (requests : Codec Request) (responses : Codec Response) where
  -- The loop has ended, with an error or without.
  abbrev pub Ended : Option (Result Error (Unit {0}) × MessageStream × World) → Type 0
  Ended o = (x : Result Error (Unit {0}) × MessageStream × World) × (o ≡ some x)

  -- A stream that brings requests that can be served, and then a message that is not a request: the
  -- session ends with the error of reading that message. The requests before it are answered, nothing
  -- is written for it, no further service is called, and the frames behind it are never read.
  pub handle_session-malformed :
      (bs outs : List Bytes) (reqs : List Request) (bad : Bytes)
      (frames : List (Result String Bytes)) (stream : BidiStream) (w w' : World) (e : Error)
      → stream.inbox ≡ map ok bs ++ ok bad ∷ frames
      → Served timer config services wire requests responses bs w reqs outs w'
      → deserialize requests bad config.format ≡ err e
      → handle_session timer config services wire requests responses (ok stream) w
        ≡ some (err e, some (with_sent outs (rest_of frames (Transport.new stream))), w')
  unfolding session_loop handle_message
  handle_session-malformed bs outs reqs bad frames stream w w' e brings served wrong =
      handle_session-Served timer config services wire requests responses bs outs reqs
        (ok bad ∷ frames) stream w w' brings served
      ∙ rw
          (
            receive-cons (with_sent outs (rest_of (ok bad ∷ frames) (Transport.new stream))) bad
                frames refl,
            wrong,
          )
          refl
