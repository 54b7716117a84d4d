-- ===== src/Benchmarks/Echoes.antt =====
-- What an iteration of `bench_rpc_calls` in benches/benchmarks.rs gets back.
use quic_serve.Prelude.{
  ℕ, ◌≡◌, refl, none, some, List, [], ◌∷◌, ◌++◌, All, get, string_eq, contains, arith,
}
use quic_serve.Error.{ok}
use quic_serve.Message.{Bytes, Request, Response, Codec, serialize, deserialize}
use quic_serve.Message.RoundTrip.{IsLawful, map_err-ok}
use quic_serve.Transport.{MessageStream, Wire, frame_codec}
use quic_serve.Transport.Framing.{Takes, with_sent}
use quic_serve.Utils.Format.{format_method_name}
use quic_serve.Config.Quinn.{done}
use quic_serve.Service.{Timer}
use quic_serve.Server.{Services}
use quic_serve.Server.Session.{success, to_response, handle_message}
use quic_serve.Client.{Shared, initial}
use quic_serve.Client.Calls.{next_request}
use quic_serve.Client.Events.{Event, response_came, run}
use quic_serve.Client.Wait.{finish_call}
use quic_serve.Client.Whole.{amid}
use quic_serve.Client.Whole.Waiting.{first_answer, OpensOther}
use quic_serve.Rpc.{IsCallable}
use quic_serve.Rpc.Served.{call-served}
use quic_serve.Examples.Matrix.{replicate}
use quic_serve.Examples.Echo.{EchoRequest}
use quic_serve.Benchmarks.{
  BenchRequest, BenchResponse, create_bench_request, call_bench, bench_service, server_config,
  client_config, iteration, sample, protobuf_serialize, json_serialize, protobuf_deserialize,
  json_deserialize,
}

-- Where the sample can be encoded, the closures that decode it give it back, in both formats.
protobuf_deserialize-sample :
    (codec : Codec EchoRequest) (bytes : Bytes)
    → IsLawful codec
    → codec.encode (sample codec) [] ≡ ok bytes
    → protobuf_deserialize codec ≡ done (sample codec)
unfolding protobuf_deserialize protobuf_serialize
protobuf_deserialize-sample codec bytes lawful encoded =
    rw (encoded, lawful.proto_back (sample codec) bytes encoded) refl

json_deserialize-sample :
    (codec : Codec EchoRequest) (bytes : Bytes)
    → IsLawful codec
    → codec.to_vec (sample codec) ≡ ok bytes
    → json_deserialize codec ≡ done (sample codec)
unfolding json_deserialize json_serialize
json_deserialize-sample codec bytes lawful encoded =
    rw (encoded, lawful.json_back (sample codec) bytes encoded) refl

-- The two messages have the same field, so that prost decodes the one as the other.
pub record AreLawful (bench_requests : Codec BenchRequest) (bench_responses : Codec BenchResponse)
    (requests : Codec Request) (responses : Codec Response) : Type 0 where
  pub same_field :
      (payload b : Bytes)
      → bench_requests.encode (record { payload = payload }) [] ≡ ok b
      → bench_responses.decode b ≡ ok (record { payload = payload })
  pub request : IsLawful requests
  pub response : IsLawful responses

module _ {Session : Type 0} (client_wire server_wire : Wire) (bench_requests : Codec BenchRequest)
    (requests : Codec Request) (responses : Codec Response) where
  -- The bytes of each message, which prost makes and the wires take.
  pub record IsSent (size : ℕ) (s : Shared Session) (payload b out : Bytes) : Type 0 where
    pub payload_bytes : bench_requests.encode (create_bench_request size) [] ≡ ok payload
    pub request_bytes : requests.encode (next_request "bench.echo" payload s) [] ≡ ok b
    pub request_taken : Takes client_wire b
    pub response_bytes : responses.encode (success s.next_id payload) [] ≡ ok out
    pub response_taken : Takes server_wire out

module _ {Session World : Type 0} (client_wire server_wire : Wire)
    (bench_requests : Codec BenchRequest) (bench_responses : Codec BenchResponse)
    (requests : Codec Request) (responses : Codec Response) (timer : Timer)
    (services : Services World) where
  callable :
      (size : ℕ) (s : Shared Session) (payload b out : Bytes) (w : World)
      → get "bench" services ≡ some bench_service
      → IsSent client_wire server_wire bench_requests requests responses size s payload b out
      → IsCallable client_wire server_wire bench_requests requests responses timer server_config
          services "bench" "echo"
          (create_bench_request size)
          s
          bench_service
          w
          payload
          b
          out
          0
  unfolding bench_service call_bench contains serialize format_method_name to_response
  callable size s payload b out w found sent = record {
    payload_bytes = map_err-ok _ _ _ sent.payload_bytes;
    request_bytes = map_err-ok _ _ _ sent.request_bytes;
    request_taken = sent.request_taken;
    dotless = refl;
    registered = found;
    takes = refl;
    in_time = omega arith;
    response_bytes = map_err-ok _ _ _ sent.response_bytes;
    response_taken = sent.response_taken;
  }

  -- An iteration of the benchmark on a connected client, whatever it has done before and whatever its
  -- other tasks do before and after the answer comes, gets back as many zeros as it sends, and panics
  -- nowhere, if the server has the benchmarks' service and the answer comes before the client's timer
  -- fires: the session answers its one frame with one. None of what the other tasks do may answer the
  -- call or close the client before the answer, or give the same id to another call before the timer. It
  -- is assumed that the messages can be encoded, that prost decodes what it has encoded, a request's
  -- payload also as a response's, that both ends frame in the same way, and that the wires take the
  -- frames.
  pub iteration-echoes :
      (before es fs late : List (Event Session)) (size : ℕ) (s : Shared Session)
      (stream server_stream : MessageStream) (payload b out : Bytes) (w : World)
      → AreLawful bench_requests bench_responses requests responses
      → get "bench" services ≡ some bench_service
      → s ≡ run client_wire responses client_config.format before initial
      → IsSent client_wire server_wire bench_requests requests responses size s payload b out
      → s.message_stream ≡ some stream
      → stream.codec ≡ frame_codec
      → server_stream.codec ≡ frame_codec
      → first_answer client_wire responses client_config.format s.next_id es ≡ none
      → All
          (OpensOther client_wire responses client_config.format s.next_id)
          (es ++ response_came out ∷ fs)
      → (sent : Shared Session) × (sent.message_stream ≡ some (with_sent (b ∷ []) stream))
        × (handle_message timer server_config services server_wire requests responses b
              server_stream w
            ≡ (ok tt, with_sent (out ∷ []) server_stream, w))
        × (iteration client_wire bench_requests requests bench_responses
              (amid client_wire responses client_config.format (es ++ response_came out ∷ fs) late)
              size
              s
            ≡ (
              done (record { payload = replicate size 0 }),
              run client_wire responses client_config.format late (
                  run client_wire responses client_config.format
                    (es ++ response_came out ∷ fs)
                    sent),
            ))
  unfolding iteration bench_service call_bench format_method_name finish_call deserialize
      create_bench_request
  iteration-echoes before es fs late size s stream server_stream payload b out w lawful found
        reached sent has k1 k2 silent others =
      let (after, written, handled, called) =
        call-served client_wire server_wire bench_requests requests responses bench_responses timer
          server_config services lawful.request lawful.response before es fs late "bench" "echo"
          (create_bench_request size) s stream server_stream bench_service w payload b out 0 reached
          (callable size s payload b out w found sent) has k1 k2 silent others in
      (
        after,
        written,
        handled,
        rw (called, lawful.same_field (replicate size 0) payload sent.payload_bytes) refl,
      )
