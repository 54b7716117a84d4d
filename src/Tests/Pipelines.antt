-- ===== src/Tests/Pipelines.antt =====
-- Two calls at once: one of the echo service, and one of a service that is not there.
use quic_serve.Prelude.{◌≡◌, refl, String, some, List, [], ◌∷◌, ◌++◌, map, get, string_eq, arith}
use quic_serve.Error.{ok}
use quic_serve.Message.{Bytes, Request, json, serialize, deserialize}
use quic_serve.Transport.{MessageStream, BidiStream, frame_codec}
use quic_serve.Transport.Framing.{with_sent}
use quic_serve.Utils.Format.{splitn}
use quic_serve.Server.Session.{dispatch, handle_session}
use quic_serve.Server.Session.Replies.{Served}
use quic_serve.Server.Session.Replies
use quic_serve.Client.{Shared}
use quic_serve.Client.Events.{response_came, run}
use quic_serve.Client.Batch.{Prepared, begin_calls, channels, done, next}
use quic_serve.Rpc.Pipeline.{replies, results, rpc_pipeline}
use quic_serve.Tests.Toy.{requests, responses, responses-IsLawful, raw}
use quic_serve.Tests.Setup.{wire, timer, services, config, asking, ready}

abbrev calls : List (String × Bytes)
calls = ("echo.say", 7 ∷ []) ∷ ("gone.say", []) ∷ []

abbrev reqs : List Request
reqs =
    record { id = 0; method = "echo.say"; payload = 7 ∷ [] }
    ∷ record { id = 1; method = "gone.say"; payload = [] }
    ∷ []

abbrev asked : List Bytes
asked = (0 ∷ 0 ∷ 7 ∷ []) ∷ (1 ∷ 2 ∷ []) ∷ []

abbrev outs : List Bytes
outs = (0 ∷ 0 ∷ 7 ∷ []) ∷ (1 ∷ 1 ∷ 3 ∷ []) ∷ []

prepared : Prepared wire raw requests json 0 calls reqs asked
unfolding serialize frame_codec
prepared = next refl refl (λ sent. refl) (next refl refl (λ sent. refl) done)

served : Served timer config services wire requests responses asked 0 reqs outs 1
unfolding dispatch serialize deserialize splitn get frame_codec
served = Replies.next refl refl (λ sent. refl) (Replies.next refl refl (λ sent. refl) Replies.done)

abbrev incoming : BidiStream
incoming = record { inbox = ok (0 ∷ 0 ∷ 7 ∷ []) ∷ ok (1 ∷ 2 ∷ []) ∷ []; sent = [] }

rpc_pipeline_example :
    (sent : Shared String) × (answered : MessageStream) × (begin_calls wire raw requests json calls
        ready
      ≡ (map ok (channels 0 0 reqs), sent))
    × (sent.message_stream ≡ some (with_sent asked asking))
    × (handle_session timer config services wire requests responses (ok incoming) 0
        ≡ some (ok tt, some answered, 1))
    × (answered.sent ≡ outs)
    × ((run wire responses json (map response_came outs) sent).delivered
        ≡ [] ++ results (channels 0 0 reqs) (replies timer config services reqs 0))
rpc_pipeline_example =
    rpc_pipeline wire wire raw requests responses timer config services responses-IsLawful calls
      reqs asked outs ready asking incoming 0 1 refl refl (omega arith) (omega arith) prepared refl
      refl served
