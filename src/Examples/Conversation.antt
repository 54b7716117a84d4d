-- ===== src/Examples/Conversation.antt =====
-- The first call of examples/rpc_client.rs, answered by the server of examples/rpc_server.rs.
use quic_serve.Prelude.{
  ℕ, String, ◌<>◌, contains, ◌≡◌, refl, sym, ap, subst, ◌∙◌, some, [], ◌∷◌, ◌++◌, get, string_eq,
  nat_eq, arith, false,
}
use quic_serve.Error.{Result, ok}
use quic_serve.Message.{Bytes, Request, Response, Codec, serialize, protobuf}
use quic_serve.Message.RoundTrip.{IsLawful, map_err-ok, deserialize-serialize}
use quic_serve.Transport.{frame_codec, MessageStream, Wire}
use quic_serve.Utils.Format.{format_method_name}
use quic_serve.Config.{Config, SocketAddr, default}
use quic_serve.Config.Quinn.{done, ServerConfig, Tls}
use quic_serve.Service.{Service, Timer}
use quic_serve.Server.{Services, Server}
use quic_serve.Server.Session.{success, to_response, handle_message}
use quic_serve.Client.{Shared, begin_call}
use quic_serve.Client.Calls.{next_channel, next_request}
use quic_serve.Transport.Framing.{Takes, with_sent}
use quic_serve.Client.Handler.{handle_response}
use quic_serve.Client.Wait.{received, finish_call}
use quic_serve.Rpc.{IsCallable, caller_sees, rpc_round_trip}
use quic_serve.Examples.Echo.{EchoCodecs, echo_service, call}
use quic_serve.Examples.Certificates.{Rcgen, Files}
use quic_serve.Examples.Started.{config, start, start-HasEcho}

-- The configuration of the client in `main` of examples/rpc_client.rs.
abbrev pub client_config : Config
client_config = record default {
  addr = record { ip = "127.0.0.1"; port = 4433 };
  verify_peer = false;
  format = protobuf;
}

-- prost reads back what it writes, for each of the four messages.
pub record AreLawful (codecs : EchoCodecs) (requests : Codec Request) (responses : Codec Response)
    : Type 0 where
  pub echo_request : IsLawful codecs.echo_request
  pub echo_response : IsLawful codecs.echo_response
  pub request : IsLawful requests
  pub response : IsLawful responses

module _ {Session : Type 0} (codecs : EchoCodecs) (client_wire server_wire : Wire)
    (requests : Codec Request) (responses : Codec Response) where
  -- The bytes of each message, which prost makes and the wires take.
  pub record IsSent (message : String) (s : Shared Session) (payload b reply out : Bytes)
      : Type 0 where
    pub payload_bytes : codecs.echo_request.encode (record { message = message }) [] ≡ ok payload
    pub request_bytes : requests.encode (next_request "echo.echo" payload s) [] ≡ ok b
    pub request_taken : Takes client_wire b
    pub reply_bytes :
        codecs.echo_response.encode (record { message = "Echo: " <> message }) [] ≡ ok reply
    pub response_bytes : responses.encode (success s.next_id reply) [] ≡ ok out
    pub response_taken : Takes server_wire out

module _ {Session World : Type 0} (codecs : EchoCodecs) (now : World → ℕ)
    (client_wire server_wire : Wire) (requests : Codec Request) (responses : Codec Response)
    (timer : Timer) where
  call-echo :
      (message : String) (s : Shared Session) (payload b reply out : Bytes) (w : World)
      → AreLawful codecs requests responses
      → IsSent codecs client_wire server_wire requests responses message s payload b reply out
      → call codecs now "echo" payload w ≡ ok reply
  unfolding call
  call-echo message s payload b reply out w lawful sent =
      rw
        (
          lawful.echo_request.proto_back (record { message = message }) payload sent.payload_bytes,
          sent.reply_bytes,
        )
        refl

  callable :
      (services : Services World) (message : String) (s : Shared Session)
      (payload b reply out : Bytes) (w : World)
      → get "echo" services ≡ some (echo_service codecs now)
      → AreLawful codecs requests responses
      → IsSent codecs client_wire server_wire requests responses message s payload b reply out
      → IsCallable client_wire server_wire codecs.echo_request requests responses timer config
          services "echo" "echo"
          (record { message = message })
          s
          (echo_service codecs now)
          w
          payload
          b
          out
          0
  unfolding echo_service contains serialize format_method_name to_response
  callable services message s payload b reply out w found lawful sent = record {
    payload_bytes = map_err-ok _ _ _ sent.payload_bytes;
    request_bytes = map_err-ok _ _ _ sent.request_bytes;
    request_taken = sent.request_taken;
    dotless = refl;
    registered = found;
    takes = refl;
    in_time = omega arith;
    response_bytes =
        rw (call-echo message s payload b reply out w lawful sent)
          (map_err-ok _ _ _ sent.response_bytes);
    response_taken = sent.response_taken;
  }

  module _ {Endpoint Store DistinguishedName Certificate Disk : Type 0}
      (rcgen : Rcgen DistinguishedName Certificate) (files : Files Disk) (tls : Disk → Tls Store)
      (bind : ServerConfig → SocketAddr → Result String Endpoint)
      (set_protocols : Endpoint → Endpoint) (compute_service : Service World) where
    -- The two examples understand each other: if the example server has started and the example client
    -- is connected to it, then a call of "echo.echo" with a message sends one frame, to which the session
    -- answers with one frame, which the client's handler delivers to the channel of the call; and the call
    -- returns the message with "Echo: " in front. It is assumed that each message can be encoded, that
    -- prost reads back what it writes, and that the wires take the two frames.
    pub start-round_trip :
        (d d' : Disk) (server : Server World Endpoint) (message : String) (s : Shared Session)
        (stream server_stream : MessageStream) (payload b reply out : Bytes) (w : World)
        → start rcgen files tls bind set_protocols codecs now compute_service d ≡ (done server, d')
        → AreLawful codecs requests responses
        → IsSent codecs client_wire server_wire requests responses message s payload b reply out
        → s.message_stream ≡ some stream
        → stream.codec ≡ frame_codec
        → server_stream.codec ≡ frame_codec
        → (sent : Shared Session) × (begin_call client_wire codecs.echo_request requests
              client_config.format "echo.echo"
              (record { message = message })
              s
            ≡ (ok (next_channel s), sent))
          × (handle_message timer server.config server.services server_wire requests responses b
                server_stream w
              ≡ (ok tt, with_sent (out ∷ []) server_stream, w))
          × ((handle_response responses client_config.format out sent).delivered
              ≡ s.delivered ++ (next_channel s, ok reply) ∷ [])
          × (finish_call codecs.echo_response client_config.format (received (ok reply))
              ≡ ok (record { message = "Echo: " <> message }))
    unfolding echo_service format_method_name finish_call serialize
    start-round_trip d d' server message s stream server_stream payload b reply out w started lawful
          sent has k1 k2 =
        let (same, found) =
          start-HasEcho rcgen files tls bind set_protocols codecs now compute_service d d' server
            started in
        let (after, begun, _, answered, delivered, _) =
          rpc_round_trip client_wire server_wire codecs.echo_request requests responses timer config
            server.services lawful.request lawful.response "echo" "echo"
            (record { message = message }) s stream server_stream (echo_service codecs now) w
            payload b out 0
            (callable server.services message s payload b reply out w found lawful sent) has k1
            k2 in
        (
          after,
          begun,
          subst
              (λ c.
                handle_message timer c server.services server_wire requests responses b
                  server_stream w
                ≡ (ok tt, with_sent (out ∷ []) server_stream, w))
              (sym same) answered,
          delivered
              ∙ ap (λ r. s.delivered ++ (next_channel s, caller_sees r) ∷ [])
                  (call-echo message s payload b reply out w lawful sent),
          deserialize-serialize codecs.echo_response lawful.echo_response _ protobuf reply
              (map_err-ok _ _ _ sent.reply_bytes),
        )
