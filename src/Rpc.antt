-- ===== src/Rpc.antt =====
-- One remote call from end to end: `call` of src/client.rs, `handle_session` of src/server.rs and the
-- response handler of src/client.rs, joined by the frames that pass between them.
pub mod Pipeline
pub mod Served
use quic_serve.Prelude.{
  ℕ, ◌<◌, ◌≡◌, refl, sym, ◌∙◌, ap, String, contains, Assoc, none, some, [], ◌∷◌, ◌++◌, get, remove,
  nat_eq, string_eq, get-insert, get-remove, ≡→==, false,
}
use quic_serve.Error.{Error, rpc_failed, to_string, Result, ok, err}
use quic_serve.Message.{
  Bytes, Request, Response, Codec, SerializationFormat, serialize, deserialize,
}
use quic_serve.Message.RoundTrip.{IsLawful, deserialize-serialize}
use quic_serve.Transport.{MessageStream, Wire, frame_codec}
use quic_serve.Transport.Framing.{Takes, with_sent}
use quic_serve.Utils.Format.{format_method_name}
use quic_serve.Config.{Config}
use quic_serve.Service.{Service, Timer}
use quic_serve.Server.{Services}
use quic_serve.Server.Session.{to_response, handle_message}
use quic_serve.Server.Session.Dispatch.{dispatch-in_time}
use quic_serve.Server.Session.Replies.{handle_message-sends}
use quic_serve.Client.{Channel, Shared, begin_call}
use quic_serve.Client.Wait.{received, finish_call}
use quic_serve.Client.Handler.{response_result, handle_response}
use quic_serve.Client.Calls.{next_channel, next_request, waiting, begin_call-sends}

-- What the caller is given of the outcome of the service's call: an error arrives as its text.
abbrev pub caller_sees : Result Error Bytes → Result Error Bytes
caller_sees (ok payload) = ok payload
caller_sees (err e) = err (rpc_failed (to_string e))

pub response_result-to_response :
    (id : ℕ) (r : Result Error Bytes) → response_result (to_response id r) ≡ caller_sees r
unfolding response_result to_response
response_result-to_response id (ok payload) = refl
response_result-to_response id (err e) = refl

pub id-to_response : (id : ℕ) (r : Result Error Bytes) → (to_response id r).id ≡ id
unfolding to_response
id-to_response id (ok payload) = refl
id-to_response id (err e) = refl

module _ {Session : Type 0} (responses : Codec Response) (format : SerializationFormat) where
  -- A response to a pending request is delivered on its channel, and the request is no longer pending.
  pub handle_response-pending :
      (b : Bytes) (a : Response) (c : Channel) (s : Shared Session)
      → deserialize responses b format ≡ ok a
      → get a.id s.pending ≡ some c
      → handle_response responses format b s ≡ record s {
        pending = remove a.id s.pending;
        delivered = s.delivered ++ (c, response_result a) ∷ [];
      }
  unfolding handle_response
  handle_response-pending b a c s d found = rw (d, found) refl

get-removed : (k j : ℕ) (m : Assoc ℕ Channel) → k ≡ j → get j (remove k m) ≡ none
get-removed k j m e = get-remove k j m ∙ rw (≡→== k j e) refl

module _ {Session : Type 0} where
  pending-waiting :
      (s : Shared Session) (id : ℕ)
      → id ≡ s.next_id
      → get id (waiting s).pending ≡ some (next_channel s)
  pending-waiting s id e =
      get-insert s.next_id id (next_channel s) s.pending ∙ rw (≡→== s.next_id id (sym e)) refl

module _ {Session World T : Type 0} (client_wire server_wire : Wire) (payloads : Codec T)
    (requests : Codec Request) (responses : Codec Response) (timer : Timer) (config : Config)
    (services : Services World) where
  -- What one call needs: bytes for each message that the wires take, and a service that is registered
  -- under a name with no dot and completes the call in time.
  pub record IsCallable (name method : String) (request : T) (s : Shared Session)
      (service : Service World) (w : World) (payload b out : Bytes) (took : ℕ) : Type 0 where
    pub payload_bytes : serialize payloads request config.format ≡ ok payload
    pub request_bytes :
        serialize requests (next_request (format_method_name name method) payload s) config.format
        ≡ ok b
    pub request_taken : Takes client_wire b
    pub dotless : contains b'.' name ≡ false
    pub registered : get name services ≡ some service
    pub takes : (service.call method payload w).took ≡ some took
    pub in_time : took < config.timeout_ms
    pub response_bytes :
        serialize responses
          (to_response s.next_id (service.call method payload w).outcome)
          config.format
        ≡ ok out
    pub response_taken : Takes server_wire out

  module _ (lawful_requests : IsLawful requests) (lawful_responses : IsLawful responses) where
    -- A call on a connected client sends a message; the server's session answers this message with
    -- another, running the service once; and the response handler delivers that to the channel on which
    -- the call waits. The caller sees the outcome of the service's call, an error as `RpcFailed` with its
    -- text, and its request is no longer pending.
    pub rpc_round_trip :
        (name method : String) (request : T) (s : Shared Session)
        (stream server_stream : MessageStream) (service : Service World) (w : World)
        (payload b out : Bytes) (took : ℕ)
        → IsCallable name method request s service w payload b out took
        → s.message_stream ≡ some stream
        → stream.codec ≡ frame_codec
        → server_stream.codec ≡ frame_codec
        → (sent : Shared Session) × (begin_call client_wire payloads requests config.format
              (format_method_name name method)
              request
              s
            ≡ (ok (next_channel s), sent))
          × (sent.message_stream ≡ some (with_sent (b ∷ []) stream))
          × (handle_message timer config services server_wire requests responses b server_stream w
              ≡ (ok tt, with_sent (out ∷ []) server_stream, (service.call method payload w).after))
          × ((handle_response responses config.format out sent).delivered
              ≡ s.delivered
                ++ (next_channel s, caller_sees (service.call method payload w).outcome) ∷ [])
          × (get s.next_id (handle_response responses config.format out sent).pending ≡ none)
    rpc_round_trip name method request s stream server_stream service w payload b out took c has k1
          k2 =
        let full = format_method_name name method in
        let run = service.call method payload w in
        let a = to_response s.next_id run.outcome in
        let sent : Shared Session = record (waiting s) {
          message_stream = some (with_sent (b ∷ []) stream);
        } in
        let answered =
          dispatch-in_time timer config services s.next_id name method payload service w took
            c.dotless c.registered c.takes c.in_time in
        let handled =
          handle_response-pending responses config.format out a (next_channel s) sent
            (deserialize-serialize responses lawful_responses a config.format out c.response_bytes)
            (pending-waiting s a.id (id-to_response s.next_id run.outcome)) in
        (
          sent,
          begin_call-sends client_wire payloads requests config.format full request s stream payload
              b has k1 c.payload_bytes c.request_bytes c.request_taken,
          refl,
          handle_message-sends timer config services server_wire requests responses b out
                (next_request full payload s) server_stream w k2
                (deserialize-serialize requests lawful_requests (next_request full payload s)
                  config.format b c.request_bytes)
                (ap (λ x. serialize responses x.0 config.format) answered ∙ c.response_bytes)
                c.response_taken
              ∙ ap (λ x. (ok tt, with_sent (out ∷ []) server_stream, x.1)) answered,
          ap (λ x. x.delivered) handled
              ∙ ap (λ r. s.delivered ++ (next_channel s, r) ∷ [])
                  (response_result-to_response s.next_id run.outcome),
          ap (λ x. get s.next_id x.pending) handled
              ∙ get-removed a.id s.next_id sent.pending (id-to_response s.next_id run.outcome),
        )

module _ {World R : Type 0} (results : Codec R) (lawful : IsLawful results)
    (format : SerializationFormat) where
  -- If the service returns a value serialized in the configured format, then the caller, who waits
  -- until it is delivered, gets that value back.
  pub finish_call-returns :
      (service : Service World) (method : String) (payload : Bytes) (w : World) (value : R)
      (b : Bytes)
      → (service.call method payload w).outcome ≡ ok b
      → serialize results value format ≡ ok b
      → finish_call results format (received (caller_sees (service.call method payload w).outcome))
        ≡ ok value
  unfolding finish_call
  finish_call-returns service method payload w value b returns serialized =
      rw returns (deserialize-serialize results lawful value format b serialized)
