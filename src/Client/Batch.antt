-- ===== src/Client/Batch.antt =====
-- Several calls of src/client.rs that are sent one after the other, before any is answered.
use quic_serve.Prelude.{
  ℕ, ◌+◌, ◌%◌, ◌≡◌, refl, sym, ◌∙◌, ap, String, some, List, [], ◌∷◌, map, nat_eq, append-nil,
  append_assoc,
}
use quic_serve.Error.{Error, Result, ok}
use quic_serve.Message.{Bytes, Request, Codec, SerializationFormat, serialize}
use quic_serve.Transport.{MessageStream, Wire, frame_codec}
use quic_serve.Transport.Framing.{Takes, with_sent}
use quic_serve.Client.{u64_mod, Channel, Shared, begin_call}
use quic_serve.Client.Calls.{next_channel, waiting, begin_call-sends}

module _ {Session T : Type 0} (wire : Wire) (payloads : Codec T) (requests : Codec Request)
    (format : SerializationFormat) where
  unfoldable pub begin_calls :
      List (String × T) → Shared Session → List (Result Error Channel) × Shared Session
  begin_calls [] s = ([], s)
  begin_calls ((method, request) ∷ calls) s =
      let (r, s') = begin_call wire payloads requests format method request s in
      let (rs, t) = begin_calls calls s' in (r ∷ rs, t)

module _ {T : Type 0} (wire : Wire) (payloads : Codec T) (requests : Codec Request)
    (format : SerializationFormat) where
  -- From this id on, the calls are these requests, whose bytes are these messages, which the wire takes.
  pub data Prepared : ℕ → List (String × T) → List Request → List Bytes → Type 0 where
    done : {id : ℕ} → Prepared id [] [] []
    next :
        {id : ℕ} {method : String} {request : T} {payload b : Bytes} {calls : List (String × T)}
        {reqs : List Request} {bs : List Bytes}
        → serialize payloads request format ≡ ok payload
        → serialize requests (record { id = id; method = method; payload = payload }) format ≡ ok b
        → Takes wire b
        → Prepared ((id + 1) % u64_mod) calls reqs bs
        → Prepared id
            ((method, request) ∷ calls)
            (record { id = id; method = method; payload = payload } ∷ reqs)
            (b ∷ bs)

-- The channels of so many calls, and the client that waits on them.
abbrev pub channels : ℕ → ℕ → List Request → List Channel
channels opened id [] = []
channels opened id (_ ∷ reqs) =
    record { serial = opened; request_id = id } ∷ channels (opened + 1) ((id + 1) % u64_mod) reqs

module _ {Session : Type 0} where
  abbrev pub all_waiting : List Request → Shared Session → Shared Session
  all_waiting [] s = s
  all_waiting (_ ∷ reqs) s = all_waiting reqs (waiting s)

  abbrev pub on_stream : MessageStream → Shared Session → Shared Session
  on_stream stream s = record s { message_stream = some stream }

  on_stream-all_waiting :
      (reqs : List Request) (stream : MessageStream) (s : Shared Session)
      → all_waiting reqs (on_stream stream s) ≡ on_stream stream (all_waiting reqs s)
  on_stream-all_waiting [] stream s = refl
  on_stream-all_waiting (_ ∷ reqs) stream s = on_stream-all_waiting reqs stream (waiting s)

module _ {Session T : Type 0} (wire : Wire) (payloads : Codec T) (requests : Codec Request)
    (format : SerializationFormat) where
  pub begin_calls-Prepared :
      (calls : List (String × T)) (reqs : List Request) (bs : List Bytes) (s : Shared Session)
      (stream : MessageStream)
      → Prepared wire payloads requests format s.next_id calls reqs bs
      → s.message_stream ≡ some stream
      → stream.codec ≡ frame_codec
      → begin_calls wire payloads requests format calls s ≡ (
        map ok (channels s.opened s.next_id reqs),
        on_stream (with_sent bs stream) (all_waiting reqs s),
      )
  unfolding begin_calls
  begin_calls-Prepared calls reqs bs s stream done has c =
      ap (λ o. ([], record s { message_stream = o }))
        (has
          ∙ ap (λ x. some (record stream { stream = record stream.stream { sent = x } }))
              (sym (append-nil stream.sent)))
  begin_calls-Prepared calls reqs bs s stream
        (next {b = b} {calls = calls'} {reqs = reqs'} {bs = bs'} p r t rest) has c =
      let sent = with_sent (b ∷ []) stream in
      let later =
        begin_calls-Prepared calls' reqs' bs' (on_stream sent (waiting s)) sent rest refl c in
      let opened : List (Result Error Channel) =
        map ok (channels (s.opened + 1) ((s.next_id + 1) % u64_mod) reqs') in
      rw (begin_call-sends wire payloads requests format _ _ s stream _ _ has c p r t) (
        ap (λ x. (ok (next_channel s) ∷ x.0, x.1)) later
        ∙ ap (λ x. (ok (next_channel s) ∷ opened, on_stream (with_sent bs' sent) x))
            (on_stream-all_waiting reqs' sent (waiting s))
        ∙ ap
            (λ x. (
              ok (next_channel s) ∷ opened,
              on_stream (record stream { stream = record stream.stream { sent = x } })
                  (all_waiting reqs' (waiting s)),
            ))
            (append_assoc stream.sent (b ∷ []) bs'))
