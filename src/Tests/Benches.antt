-- ===== src/Tests/Benches.antt =====
-- An iteration of the benchmarks with two bytes, at concrete inputs.
use quic_serve.Prelude.{◌≡◌, refl, ◌++◌, some, List, [], ◌∷◌, String, ℕ, get, string_eq}
use quic_serve.Error.{ok}
use quic_serve.Message.{Codec, deserialize}
use quic_serve.Transport.{frame_codec}
use quic_serve.Transport
use quic_serve.Transport.Framing.{with_sent}
use quic_serve.Config.Quinn.{done}
use quic_serve.Server.{Services}
use quic_serve.Server.Session.{handle_message}
use quic_serve.Client.{Shared, initial}
use quic_serve.Client.Events.{Event, response_came, closes, step, run}
use quic_serve.Client.Whole.{amid}
use quic_serve.Benchmarks.{
  BenchRequest, BenchResponse, create_bench_request, bench_service, server_config, client_config,
  iteration,
}
use quic_serve.Benchmarks.Echoes.{AreLawful, IsSent, iteration-echoes}
use quic_serve.Tests.Toy.{toy_codec, requests, responses, requests-IsLawful, responses-IsLawful}
use quic_serve.Tests.Setup.{wire, timer, asking}
use quic_serve.Tests.Answers.{earlier}

abbrev bench_requests : Codec BenchRequest
bench_requests = toy_codec (λ r. some r.payload) (λ b. some (record { payload = b }))

abbrev bench_responses : Codec BenchResponse
bench_responses = toy_codec (λ r. some r.payload) (λ b. some (record { payload = b }))

lawful : AreLawful bench_requests bench_responses requests responses
lawful = record {
  same_field = λ payload b encoded. cc encoded;
  request = requests-IsLawful;
  response = responses-IsLawful;
}

abbrev services : Services ℕ
services = ("bench", bench_service) ∷ []

abbrev connected : Shared String
connected = run wire responses client_config.format earlier initial

sent :
    IsSent wire wire bench_requests requests responses 2 connected
      (0 ∷ 0 ∷ [])
      (1 ∷ 5 ∷ 0 ∷ 0 ∷ [])
      (1 ∷ 0 ∷ 0 ∷ 0 ∷ [])
unfolding create_bench_request run step frame_codec
sent = record {
  payload_bytes = refl;
  request_bytes = refl;
  request_taken = λ before. refl;
  response_bytes = refl;
  response_taken = λ before. refl;
}

abbrev others : List (Event String)
others = response_came (0 ∷ 0 ∷ 5 ∷ []) ∷ []

abbrev answer : Event String
answer = response_came (1 ∷ 0 ∷ 0 ∷ 0 ∷ [])

iteration-echoes_example :
    (after : Shared String) × (after.message_stream
      ≡ some (with_sent ((1 ∷ 5 ∷ 0 ∷ 0 ∷ []) ∷ []) asking))
    × (handle_message timer server_config services wire requests responses
          (1 ∷ 5 ∷ 0 ∷ 0 ∷ [])
          asking
          0
        ≡ (ok tt, with_sent ((1 ∷ 0 ∷ 0 ∷ 0 ∷ []) ∷ []) asking, 0))
    × (iteration wire bench_requests requests bench_responses
          (amid wire responses client_config.format (others ++ answer ∷ closes ∷ []) [])
          2
          connected
        ≡ (
          done (record { payload = 0 ∷ 0 ∷ [] }),
          run wire responses client_config.format (others ++ answer ∷ closes ∷ []) after,
        ))
unfolding run step frame_codec Transport.new get deserialize
iteration-echoes_example =
    iteration-echoes wire wire bench_requests bench_responses requests responses timer services
      earlier others (closes ∷ []) [] 2 connected asking asking (0 ∷ 0 ∷ []) (1 ∷ 5 ∷ 0 ∷ 0 ∷ [])
      (1 ∷ 0 ∷ 0 ∷ 0 ∷ []) 0 lawful refl refl sent refl refl refl refl (tt, (tt, (tt, tt)))
