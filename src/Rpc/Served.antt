-- ===== src/Rpc/Served.antt =====
-- A whole `call` of src/client.rs, served by a session of src/server.rs, amid what the client's other
-- tasks do.
use quic_serve.Prelude.{
  ℕ, ◌≡◌, refl, ◌∙◌, ap, String, Option, none, some, List, [], ◌∷◌, ◌++◌, All, ≡→==,
}
use quic_serve.Error.{Error, Result, ok}
use quic_serve.Message.{Bytes, Request, Response, Codec, SerializationFormat, deserialize}
use quic_serve.Message.RoundTrip.{IsLawful, deserialize-serialize}
use quic_serve.Transport.{MessageStream, Wire, frame_codec}
use quic_serve.Transport.Framing.{with_sent}
use quic_serve.Utils.Format.{format_method_name}
use quic_serve.Config.{Config}
use quic_serve.Service.{Service, Timer}
use quic_serve.Server.{Services}
use quic_serve.Server.Session.{to_response, handle_message}
use quic_serve.Client.{Shared, initial}
use quic_serve.Client.Wait.{received, finish_call}
use quic_serve.Client.Handler.{response_result}
use quic_serve.Client.Calls.{next_channel}
use quic_serve.Client.Events.{Event, response_came, run}
use quic_serve.Client.Whole.{call, amid}
use quic_serve.Client.Whole.Waiting.{or_else, answered_by, first_answer, OpensOther, or_elapsed}
use quic_serve.Client.Whole.Answer.{call-first_answer}
use quic_serve.Rpc.{
  IsCallable, caller_sees, rpc_round_trip, response_result-to_response, id-to_response,
}

or_else-none : (o p : Option (Result Error Bytes)) → or_else o p ≡ none → (o ≡ none) × (p ≡ none)
or_else-none none p h = (refl, h)
or_else-none (some r) p h = cc

module _ {Session : Type 0} (wire : Wire) (responses : Codec Response)
    (format : SerializationFormat) (id : ℕ) where
  first_answer-append :
      (es fs : List (Event Session))
      → first_answer wire responses format id es ≡ none
      → first_answer wire responses format id (es ++ fs) ≡ first_answer wire responses format id fs
  first_answer-append [] fs h = refl
  first_answer-append (e ∷ es) fs h =
      let (nothing, later) = or_else-none (answered_by wire responses format id e) _ h in
      rw nothing (first_answer-append es fs later)

  first_answer-response :
      (b : Bytes) (a : Response) (es : List (Event Session))
      → deserialize responses b format ≡ ok a
      → a.id ≡ id
      → first_answer wire responses format id (response_came b ∷ es) ≡ some (response_result a)
  first_answer-response b a es d same = rw (d, ≡→== a.id id same) refl

module _ {Session World T R : Type 0} (client_wire server_wire : Wire) (payloads : Codec T)
    (requests : Codec Request) (responses : Codec Response) (results : Codec R) (timer : Timer)
    (config : Config) (services : Services World) (lawful_requests : IsLawful requests)
    (lawful_responses : IsLawful responses) where
  -- A whole call of a method of a service that is registered under a name with no dot and completes the
  -- call within the server's timeout: the session answers the frame that the call sends with another,
  -- running the service once, and if that frame comes back before the client's own timer fires, then the
  -- call returns the outcome of the service, deserialized, or `RpcFailed` with the text of its error. This
  -- holds whatever the client has done before and whatever its other tasks do before the answer, between
  -- it and the timer, and later, if none of that answers this call or closes the client before the answer,
  -- or gives the same id to another call before the timer. It is assumed that the messages can be encoded,
  -- that decoding gives a message back, that both ends frame in the same way, and that the wires take the
  -- two frames.
  pub call-served :
      (before es fs late : List (Event Session)) (name method : String) (request : T)
      (s : Shared Session) (stream server_stream : MessageStream) (service : Service World)
      (w : World) (payload b out : Bytes) (took : ℕ)
      → s ≡ run client_wire responses config.format before initial
      → IsCallable client_wire server_wire payloads requests responses timer config services name
          method request s service w payload b out took
      → s.message_stream ≡ some stream
      → stream.codec ≡ frame_codec
      → server_stream.codec ≡ frame_codec
      → first_answer client_wire responses config.format s.next_id es ≡ none
      → All
          (OpensOther client_wire responses config.format s.next_id)
          (es ++ response_came out ∷ fs)
      → (sent : Shared Session) × (sent.message_stream ≡ some (with_sent (b ∷ []) stream))
        × (handle_message timer config services server_wire requests responses b server_stream w
            ≡ (ok tt, with_sent (out ∷ []) server_stream, (service.call method payload w).after))
        × (call client_wire payloads requests results config.format
              (amid client_wire responses config.format (es ++ response_came out ∷ fs) late)
              (format_method_name name method)
              request
              s
            ≡ (
              finish_call results config.format
                  (received (caller_sees (service.call method payload w).outcome)),
              run client_wire responses config.format late
                  (run client_wire responses config.format (es ++ response_came out ∷ fs) sent),
            ))
  call-served before es fs late name method request s stream server_stream service w payload b out
        took reached c has k1 k2 silent others =
      let run_of = service.call method payload w in
      let a = to_response s.next_id run_of.outcome in
      let (sent, begun, written, handled, _, _) =
        rpc_round_trip client_wire server_wire payloads requests responses timer config services
          lawful_requests lawful_responses name method request s stream server_stream service w
          payload b out took c has k1 k2 in
      let answered =
        first_answer-append client_wire responses config.format s.next_id es
          (response_came out ∷ fs) silent
        ∙ (first_answer-response client_wire responses config.format s.next_id out a fs
              (deserialize-serialize responses lawful_responses a config.format out
                c.response_bytes)
              (id-to_response s.next_id run_of.outcome)
            ∙ ap some (response_result-to_response s.next_id run_of.outcome)) in
      (
        sent,
        written,
        handled,
        call-first_answer client_wire payloads requests responses results config.format before
              (es ++ response_came out ∷ fs) late (format_method_name name method) request s
              (next_channel s) sent reached begun others
            ∙ ap
                (λ o. (
                  finish_call results config.format (or_elapsed o),
                  run client_wire responses config.format late
                      (run client_wire responses config.format (es ++ response_came out ∷ fs) sent),
                ))
                answered,
      )
