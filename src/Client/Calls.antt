-- ===== src/Client/Calls.antt =====
-- What a call sends, and why a call fails while a response handler runs.
use quic_serve.Prelude.{
  ◌+◌, ◌%◌, ◌≡◌, refl, String, none, some, List, [], ◌∷◌, insert, nat_eq, All, arith,
}
use quic_serve.Error.{connection_closed, ok, err}
use quic_serve.Message.{Bytes, Request, Response, Codec, SerializationFormat, serialize}
use quic_serve.Transport.{MessageStream, Wire, frame_codec}
use quic_serve.Transport.Framing.{Takes, with_sent, send-Takes}
use quic_serve.Client.{u64_mod, Channel, Shared, begin_call}
use quic_serve.Client.Events.{Event, reserve, handler_starts, handler_ends, connects, step, run}

module _ {Session : Type 0} where
  -- The request that a call of this method sends next.
  abbrev pub next_request : String → Bytes → Shared Session → Request
  next_request method payload s = record { id = s.next_id; method = method; payload = payload }

  abbrev pub next_channel : Shared Session → Channel
  next_channel s = record { serial = s.opened; request_id = s.next_id }

  -- The state of a client that waits for the answer to one more call.
  abbrev pub waiting : Shared Session → Shared Session
  waiting s = record s {
    pending = insert s.next_id (next_channel s) s.pending;
    next_id = (s.next_id + 1) % u64_mod;
    opened = s.opened + 1;
  }

module _ {Session T : Type 0} (wire : Wire) (payloads : Codec T) (requests : Codec Request)
    (format : SerializationFormat) where
  -- A call on a client that has a message stream, whose payload and request can be serialized and whose
  -- frame the wire takes, writes exactly the request with the next id, and waits on a new channel that
  -- is pending under that id.
  pub begin_call-sends :
      (method : String) (request : T) (s : Shared Session) (stream : MessageStream)
      (payload b : Bytes)
      → s.message_stream ≡ some stream
      → stream.codec ≡ frame_codec
      → serialize payloads request format ≡ ok payload
      → serialize requests (next_request method payload s) format ≡ ok b
      → Takes wire b
      → begin_call wire payloads requests format method request s ≡ (
        ok (next_channel s),
        record (waiting s) { message_stream = some (with_sent (b ∷ []) stream) },
      )
  unfolding begin_call
  begin_call-sends method request s stream payload b has c p r t =
      rw (p, r, has, send-Takes wire b stream c t) refl

  -- A call on a client that has no message stream fails with `ConnectionClosed`, though its request was
  -- serialized, and leaves a pending entry behind under the id that it has used up.
  begin_call-no_stream :
      (method : String) (request : T) (s : Shared Session) (payload b : Bytes)
      → s.message_stream ≡ none
      → serialize payloads request format ≡ ok payload
      → serialize requests (next_request method payload s) format ≡ ok b
      → begin_call wire payloads requests format method request s
        ≡ (err connection_closed, waiting s)
  unfolding begin_call
  begin_call-no_stream method request s payload b has p r = rw (p, r) (ground arith)

  module _ (responses : Codec Response) where
    -- Nothing gives the client a message stream: no `connect` succeeds and no response handler ends.
    abbrev pub KeepsNone : Event Session → Type 0
    KeepsNone (connects session stream) = ⊥
    KeepsNone (handler_ends stream) = ⊥
    KeepsNone _ = Unit

    step-KeepsNone :
        (e : Event Session) (s : Shared Session)
        → KeepsNone e
        → s.message_stream ≡ none
        → (step wire responses format e s).message_stream ≡ none
    unfolding step
    step-KeepsNone reserve s k h = h
    step-KeepsNone (connects session stream) s k h = absurd k
    step-KeepsNone (handler_ends stream) s k h = absurd k
    step-KeepsNone _ s k h = ground arith

    run-KeepsNone :
        (es : List (Event Session)) (s : Shared Session)
        → All KeepsNone es
        → s.message_stream ≡ none
        → (run wire responses format es s).message_stream ≡ none
    unfolding run
    run-KeepsNone [] s k h = h
    run-KeepsNone (e ∷ es) s (k, ks) h =
        run-KeepsNone es (step wire responses format e s) ks (step-KeepsNone e s k h)

    -- From the moment a response handler has started, and until it ends or the client connects anew,
    -- every call whose payload and request can be serialized fails with `ConnectionClosed`, whatever else
    -- has happened in between: the handler has taken the stream on which the call would send. Such a call
    -- leaves a pending entry behind.
    pub begin_call-while_handling :
        (method : String) (request : T) (s : Shared Session) (es : List (Event Session))
        (payload b : Bytes)
        → All KeepsNone es
        → serialize payloads request format ≡ ok payload
        → serialize requests
            (next_request method payload (run wire responses format (handler_starts ∷ es) s))
            format
          ≡ ok b
        → begin_call wire payloads requests format method request
            (run wire responses format (handler_starts ∷ es) s)
          ≡ (err connection_closed, waiting (run wire responses format (handler_starts ∷ es) s))
    begin_call-while_handling method request s es payload b keeps p r =
        begin_call-no_stream method request (run wire responses format (handler_starts ∷ es) s)
          payload b
          (unfold run step in
            run-KeepsNone es (step wire responses format handler_starts s) keeps refl)
          p r
