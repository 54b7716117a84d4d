-- ===== src/Tests/Sessions.antt =====
-- Sessions and connections of the server at concrete inputs.
use quic_serve.Service.{Service}
use quic_serve.Prelude.{
  ℕ, ◌≡◌, ◌↔◌, refl, false, some, List, [], ◌∷◌, All, contains, get, string_eq,
}
use quic_serve.Error.{to_string, Error, deserialization, ok, err}
use quic_serve.Message.{Bytes, Request, serialize, deserialize}
use quic_serve.Transport.{BidiStream, MessageStream, frame_codec, Wire}
use quic_serve.Transport
use quic_serve.Transport.Framing.{with_sent, rest_of}
use quic_serve.Server.Session.{dispatch, failure, handle_session}
use quic_serve.Server.Session.Contract.{IsServed, dispatch-IsServed}
use quic_serve.Server.Session.Replies.{Served, done, next, handle_session-Answers}
use quic_serve.Server.Session.Answering.{AreAnswers}
use quic_serve.Server.Session.Failures.{handle_session-malformed}
use quic_serve.Server.Connection.{AcceptRequest, handle_connection}
use quic_serve.Server.Connection.Accepts.{is_fatal, handle_connection-accepts}
use quic_serve.Utils.Format.{splitn}
use quic_serve.Tests.Toy.{requests, responses, responses-IsLawful}
use quic_serve.Tests.Setup.{wire, timer, services, config}

server : Unit {0}
unfolding dispatch serialize deserialize splitn get frame_codec Transport.new handle_session
server = tt

-- Two calls of the echo service, and one of a service that is not there.
abbrev asked : List Bytes
asked = (1 ∷ 0 ∷ 7 ∷ []) ∷ (2 ∷ 2 ∷ []) ∷ (3 ∷ 0 ∷ []) ∷ []

abbrev asked_requests : List Request
asked_requests =
    record { id = 1; method = "echo.say"; payload = 7 ∷ [] }
    ∷ record { id = 2; method = "gone.say"; payload = [] }
    ∷ record { id = 3; method = "echo.say"; payload = [] }
    ∷ []

abbrev answered : List Bytes
answered = (1 ∷ 0 ∷ 7 ∷ []) ∷ (2 ∷ 1 ∷ 3 ∷ []) ∷ (3 ∷ 0 ∷ []) ∷ []

served : Served timer config services wire requests responses asked 0 asked_requests answered 2
unfolding server
served =
    next refl refl (λ sent. refl)
      (next refl refl (λ sent. refl) (next refl refl (λ sent. refl) done))

abbrev incoming : BidiStream
incoming = record {
  inbox = ok (1 ∷ 0 ∷ 7 ∷ []) ∷ ok (2 ∷ 2 ∷ []) ∷ ok (3 ∷ 0 ∷ []) ∷ [];
  sent = [];
}

handle_session-Answers_example :
    (s : MessageStream) × (handle_session timer config services wire requests responses
        (ok incoming)
        0
      ≡ some (ok tt, some s, 2))
    × (s.sent ≡ answered)
    × AreAnswers responses config.format asked_requests answered
handle_session-Answers_example =
    handle_session-Answers timer config services wire requests responses asked answered
      asked_requests incoming 0 2 responses-IsLawful refl refl served

-- The same, and then a message that is no request, and another frame.
abbrev spoilt : BidiStream
spoilt = record {
  inbox = ok (1 ∷ 0 ∷ 7 ∷ []) ∷ ok (2 ∷ 2 ∷ []) ∷ ok (3 ∷ 0 ∷ []) ∷ ok [] ∷ ok (4 ∷ 0 ∷ []) ∷ [];
  sent = [];
}

handle_session-malformed_example :
    handle_session timer config services wire requests responses (ok spoilt) 0
    ≡ some (
      err (deserialization "unknown"),
      some (with_sent answered (rest_of (ok (4 ∷ 0 ∷ []) ∷ []) (Transport.new spoilt))),
      2,
    )
unfolding deserialize
handle_session-malformed_example =
    handle_session-malformed timer config services wire requests responses asked answered
      asked_requests [] (ok (4 ∷ 0 ∷ []) ∷ []) spoilt 0 2 (deserialization "unknown") refl served
      refl

dispatch-IsServed_example :
    IsServed timer config services
      (record { id = 9; method = "stuck.say.twice"; payload = [] })
      4
      (failure 9 "Request timeout", 4)
unfolding dispatch contains splitn get to_string
dispatch-IsServed_example =
    dispatch-IsServed timer config services
      (record { id = 9; method = "stuck.say.twice"; payload = [] }) 4

abbrev arrivals : List (AcceptRequest ℕ)
arrivals =
    record { path = "/rpc"; accept = ok 1; reject = ok tt }
    ∷ record { path = "/other"; accept = ok 2; reject = ok tt }
    ∷ record { path = "/rpc"; accept = err "gone"; reject = ok tt }
    ∷ record { path = "/rpc"; accept = ok 3; reject = ok tt }
    ∷ record { path = "/other"; accept = ok 4; reject = err "broken" }
    ∷ record { path = "/rpc"; accept = ok 5; reject = ok tt }
    ∷ []

-- Run by hand: the sessions 1 and 3 get a task, and the connection fails.
arrivals_run : (handle_connection (ok tt) (ok arrivals)).1 ≡ 1 ∷ 3 ∷ []
unfolding handle_connection
arrivals_run = refl

handle_connection-accepts_example :
    ((handle_connection (ok tt) (ok arrivals)).1 ≡ 1 ∷ 3 ∷ [])
    × (((handle_connection (ok tt) (ok arrivals)).0 ≡ ok tt)
        ↔ All (λ r. is_fatal r ≡ false) arrivals)
handle_connection-accepts_example = handle_connection-accepts arrivals
