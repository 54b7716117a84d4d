-- ===== src/Server/Session/Replies.antt =====
-- A session answers every request, in order, and then ends without error.
use quic_serve.Prelude.{
  ℕ, suc, ◌≡◌, refl, sym, ap, ◌∙◌, String, some, List, [], ◌∷◌, ◌++◌, map, append-nil, append_assoc,
  length, arith,
}
use quic_serve.Error.{Result, ok}
use quic_serve.Message.{Bytes, Request, Response, Codec, serialize, deserialize}
use quic_serve.Message.RoundTrip.{IsLawful, deserialize-serialize}
use quic_serve.Transport.{MessageStream, BidiStream, FrameCodec, Wire, receive, send, frame_codec}
use quic_serve.Transport
use quic_serve.Transport.Framing.{Takes, rest_of, with_sent, send-Takes, receive-cons, receive-nil}
use quic_serve.Config.{Config}
use quic_serve.Service.{Timer}
use quic_serve.Server.{Services}
use quic_serve.Server.Session.{dispatch, handle_message, session_loop, handle_session, ended}
use quic_serve.Server.Session.Dispatch.{dispatch-IsAnswer}
use quic_serve.Server.Session.Answering.{AreAnswers}

unchanged :
    (s : MessageStream) (tail : List (Result String Bytes))
    → s.inbox ≡ tail
    → with_sent [] (rest_of tail s) ≡ s
unchanged s tail e = ground (arith, append-nil s.sent)

-- One round of the loop for each message, and so many more.
abbrev pub rounds : List Bytes → ℕ → ℕ
rounds [] fuel = fuel
rounds (_ ∷ bs) fuel = suc (rounds bs fuel)

pub rounds-length :
    (bs : List Bytes) (tail : List (Result String Bytes))
    → suc (length (map {B = Result String Bytes} ok bs ++ tail)) ≡ rounds bs (suc (length tail))
rounds-length [] tail = refl
rounds-length (b ∷ bs) tail = ap suc (rounds-length bs tail)

module _ {World : Type 0} (timer : Timer) (config : Config) (services : Services World)
    (wire : Wire) (requests : Codec Request) (responses : Codec Response) where
  abbrev reply : Request → World → Response × World
  reply = dispatch timer config services

  -- These messages carry these requests, whose answers are these messages, which the wire takes: the
  -- services go from one state to another.
  pub data Served : List Bytes → World → List Request → List Bytes → World → Type 0 where
    done : {w : World} → Served [] w [] [] w
    next :
        {b out : Bytes} {bs outs : List Bytes} {w w' : World} {request : Request}
        {reqs : List Request}
        → deserialize requests b config.format ≡ ok request
        → serialize responses (reply request w).0 config.format ≡ ok out
        → Takes wire out
        → Served bs (reply request w).1 reqs outs w'
        → Served (b ∷ bs) w (request ∷ reqs) (out ∷ outs) w'

  pub handle_message-sends :
      (b out : Bytes) (request : Request) (s : MessageStream) (w : World)
      → s.codec ≡ frame_codec
      → deserialize requests b config.format ≡ ok request
      → serialize responses (reply request w).0 config.format ≡ ok out
      → Takes wire out
      → handle_message timer config services wire requests responses b s w
        ≡ (ok tt, with_sent (out ∷ []) s, (reply request w).1)
  unfolding handle_message
  handle_message-sends b out request s w c d e t = rw (d, e, send-Takes wire out s c t) refl

  -- The loop serves the requests that stand first, and goes on with what stands behind them.
  pub session_loop-Served :
      (bs outs : List Bytes) (reqs : List Request) (tail : List (Result String Bytes))
      (s : MessageStream) (w w' : World) (fuel : ℕ)
      → Served bs w reqs outs w'
      → s.codec ≡ frame_codec
      → s.inbox ≡ map ok bs ++ tail
      → session_loop timer config services wire requests responses (rounds bs fuel) s w
        ≡ session_loop timer config services wire requests responses fuel
            (with_sent outs (rest_of tail s))
            w'
  unfolding session_loop
  session_loop-Served [] outs reqs tail s w w' fuel done c e =
      ap (λ x. session_loop timer config services wire requests responses fuel x w)
        (sym (unchanged s tail e))
  session_loop-Served (b ∷ bs) outs reqs tail s w w' fuel
        (next {out = out} {outs = outs'} {request = request} {reqs = reqs'} d o t rest) c e =
      let s' = rest_of (map ok bs ++ tail) s in
      rw (receive-cons s b (map ok bs ++ tail) e, session_loop)
        (rw (handle_message-sends b out request s' w c d o t) (
          session_loop-Served bs outs' reqs' tail (with_sent (out ∷ []) s') (reply request w).1 w'
            fuel rest c refl
          ∙ ap (λ x. session_loop timer config services wire requests responses fuel x w')
              (ap (λ x. record s { stream = record { inbox = tail; sent = x } })
                (append_assoc s.sent (out ∷ []) outs'))))

  -- So does a session on a stream that brings these requests first.
  pub handle_session-Served :
      (bs outs : List Bytes) (reqs : List Request) (tail : List (Result String Bytes))
      (stream : BidiStream) (w w' : World)
      → stream.inbox ≡ map ok bs ++ tail
      → Served bs w reqs outs w'
      → handle_session timer config services wire requests responses (ok stream) w
        ≡ ended timer config services wire requests responses (
            session_loop timer config services wire requests responses
              (suc (length tail))
              (with_sent outs (rest_of tail (Transport.new stream)))
              w')
  unfolding handle_session Transport.new
  handle_session-Served bs outs reqs tail stream w w' e served =
      let s = Transport.new stream in
      let enough : suc (length stream.inbox) ≡ rounds bs (suc (length tail)) =
        ap (λ (l : List (Result String Bytes)). suc (length l)) e ∙ rounds-length bs tail in
      ap (ended timer config services wire requests responses) (
        ap (λ n. session_loop timer config services wire requests responses n s w) enough
        ∙ session_loop-Served bs outs reqs tail s w w' (suc (length tail)) served refl e)

  Served-AreAnswers :
      (bs outs : List Bytes) (reqs : List Request) (w w' : World)
      → IsLawful responses
      → Served bs w reqs outs w'
      → AreAnswers responses config.format reqs outs
  Served-AreAnswers bs outs reqs w w' lawful done = tt
  Served-AreAnswers bs outs reqs w w' lawful
        (next {out = out} {bs = bs'} {outs = outs'} {request = request} {reqs = reqs'} d o t rest) =
      (
        (
          (reply request w).0,
          deserialize-serialize responses lawful (reply request w).0 config.format out o,
          dispatch-IsAnswer timer config services request w,
        ),
        Served-AreAnswers bs' outs' reqs' (reply request w).1 w' lawful rest,
      )

  -- On a stream that brings well-formed requests and then ends, where the responses can be serialized
  -- and are taken by the wire, a session ends without error, the services having handled the requests
  -- in order; what it has written are, one for one and in order, responses that answer them: each has
  -- its request's id, and either a payload or an error.
  pub handle_session-Answers :
      (bs outs : List Bytes) (reqs : List Request) (stream : BidiStream) (w w' : World)
      → IsLawful responses
      → stream.inbox ≡ map ok bs
      → stream.sent ≡ []
      → Served bs w reqs outs w'
      → (s : MessageStream) × (handle_session timer config services wire requests responses
            (ok stream)
            w
          ≡ some (ok tt, some s, w'))
        × (s.sent ≡ outs)
        × AreAnswers responses config.format reqs outs
  unfolding session_loop Transport.new
  handle_session-Answers bs outs reqs stream w w' lawful e fresh served =
      let s = with_sent outs (rest_of [] (Transport.new stream)) in
      (
        s,
        handle_session-Served bs outs reqs [] stream w w' (e ∙ sym (append-nil _)) served
            ∙ rw (receive-nil s refl) refl,
        rw fresh refl,
        Served-AreAnswers bs outs reqs w w' lawful served,
      )
