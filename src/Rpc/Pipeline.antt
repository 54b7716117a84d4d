-- ===== src/Rpc/Pipeline.antt =====
-- Several calls of src/client.rs, sent before the response handler starts, through a session of
-- src/server.rs, and back.
use quic_serve.Prelude.{
  ℕ, ◌<◌, ◌≤◌, ◌%◌, ◌+◌, ◌≡◌, refl, sym, ◌∙◌, ap, String, some, List, [], ◌∷◌, ◌++◌, map, get,
  remove, nat_eq, append-nil, append_assoc, length,
}
use quic_serve.Error.{Error, Result, ok}
use quic_serve.Message.{Bytes, Request, Response, Codec, SerializationFormat, deserialize}
use quic_serve.Message.RoundTrip.{IsLawful, deserialize-serialize}
use quic_serve.Transport.{MessageStream, BidiStream, Wire, frame_codec}
use quic_serve.Transport.Framing.{with_sent}
use quic_serve.Config.{Config}
use quic_serve.Service.{Timer}
use quic_serve.Server.{Services}
use quic_serve.Server.Session.{dispatch, handle_session}
use quic_serve.Server.Session.Dispatch.{dispatch-IsAnswer}
use quic_serve.Server.Session.Replies.{Served, done, next, handle_session-Answers}
use quic_serve.Client.{u64_mod, Channel, Shared}
use quic_serve.Client.Handler.{response_result}
use quic_serve.Client.Events.{response_came, step, run}
use quic_serve.Client.Calls.{waiting}
use quic_serve.Client.Batch
use quic_serve.Client.Batch.{
  Prepared, begin_calls, channels, all_waiting, on_stream, begin_calls-Prepared,
}
use quic_serve.Client.Apart.{
  AreApart, ArePending, channels-AreApart, remove-ArePending, all_waiting-ArePending,
}
use quic_serve.Rpc.{handle_response-pending}

-- What each channel is sent.
abbrev pub results : List Channel → List Response → List (Channel × Result Error Bytes)
results (c ∷ cs) (a ∷ answers) = (c, response_result a) ∷ results cs answers
results _ _ = []

module _ (responses : Codec Response) (format : SerializationFormat) where
  -- The messages are responses to these channels' requests.
  pub data Carry : List Bytes → List Response → List Channel → Type 0 where
    none_left : Carry [] [] []
    one_more :
        {b : Bytes} {a : Response} {c : Channel} {bs : List Bytes} {answers : List Response}
        {cs : List Channel}
        → deserialize responses b format ≡ ok a
        → a.id ≡ c.request_id
        → Carry bs answers cs
        → Carry (b ∷ bs) (a ∷ answers) (c ∷ cs)

module _ {Session : Type 0} (wire : Wire) (responses : Codec Response)
    (format : SerializationFormat) where
  -- Responses that come for pending requests are delivered, each on the channel of its request.
  run-Carry :
      (bs : List Bytes) (answers : List Response) (cs : List Channel) (s : Shared Session)
      → Carry responses format bs answers cs
      → AreApart cs
      → ArePending s.pending cs
      → (run wire responses format (map response_came bs) s).delivered
        ≡ s.delivered ++ results cs answers
  unfolding run step
  run-Carry bs answers cs s none_left a p = sym (append-nil s.delivered)
  run-Carry bs answers cs s
        (one_more {b = b} {a = a} {c = c} {bs = bs'} {answers = answers'} {cs = cs'} d e rest)
        (o, apart) (found, p) =
      let s' : Shared Session = record s {
        pending = remove a.id s.pending;
        delivered = s.delivered ++ (c, response_result a) ∷ [];
      } in
      let found' : get a.id s.pending ≡ some c = rw e found in
      ap (λ x. (run wire responses format (map response_came bs') x).delivered)
        (handle_response-pending responses format b a c s d found')
      ∙ (run-Carry bs' answers' cs' s' rest apart
            (rw e (remove-ArePending c.request_id s.pending cs' o p))
          ∙ append_assoc s.delivered ((c, response_result a) ∷ []) (results cs' answers'))

module _ {World : Type 0} (timer : Timer) (config : Config) (services : Services World) where
  -- The responses to these requests, each with the services as those before it leave them.
  abbrev pub replies : List Request → World → List Response
  replies [] w = []
  replies (r ∷ reqs) w = let (a, w') = dispatch timer config services r w in a ∷ replies reqs w'

module _ {World T : Type 0} (client_wire server_wire : Wire) (payloads : Codec T)
    (requests : Codec Request) (responses : Codec Response) (timer : Timer) (config : Config)
    (services : Services World) (lawful : IsLawful responses) where
  Served-Carry :
      (calls : List (String × T)) (sent bs outs : List Bytes) (reqs : List Request) (w w' : World)
      (opened id : ℕ)
      → Prepared client_wire payloads requests config.format id calls reqs sent
      → Served timer config services server_wire requests responses bs w reqs outs w'
      → Carry responses config.format outs
          (replies timer config services reqs w)
          (channels opened id reqs)
  Served-Carry calls sent bs outs reqs w w' opened id Batch.done done = none_left
  Served-Carry calls sent bs outs reqs w w' opened id
        (Batch.next {calls = calls'} {reqs = reqs'} {bs = sent'} p r t prepared)
        (next {out = out} {bs = bs'} {outs = outs'} {request = request} d o t' served) =
      one_more
        (deserialize-serialize responses lawful (dispatch timer config services request w).0
          config.format out o)
        (dispatch-IsAnswer timer config services request w).same_id
        (Served-Carry calls' sent' bs' outs' reqs' (dispatch timer config services request w).1 w'
          (opened + 1) ((id + 1) % u64_mod) prepared served)

all_waiting-delivered :
    {Session : Type 0} (reqs : List Request) (s : Shared Session)
    → (all_waiting reqs s).delivered ≡ s.delivered
all_waiting-delivered [] s = refl
all_waiting-delivered (_ ∷ reqs) s = all_waiting-delivered reqs (waiting s)

module _ {Session World T : Type 0} (client_wire server_wire : Wire) (payloads : Codec T)
    (requests : Codec Request) (responses : Codec Response) (timer : Timer) (config : Config)
    (services : Services World) (lawful : IsLawful responses) where
  -- Calls that are sent one after the other on a connected client, at most 2 ^ 64 of them, wait each on
  -- a channel of its own. If the frames that they send are what a session of the server receives, and
  -- it can serve them, then the session ends without error having served them in order; and when its
  -- frames come back, each channel is sent the response to its own call, in the order of the calls.
  pub rpc_pipeline :
      (calls : List (String × T)) (reqs : List Request) (bs outs : List Bytes) (s : Shared Session)
      (stream : MessageStream) (server_stream : BidiStream) (w w' : World)
      → s.message_stream ≡ some stream
      → stream.codec ≡ frame_codec
      → s.next_id < u64_mod
      → length reqs ≤ u64_mod
      → Prepared client_wire payloads requests config.format s.next_id calls reqs bs
      → server_stream.inbox ≡ map ok bs
      → server_stream.sent ≡ []
      → Served timer config services server_wire requests responses bs w reqs outs w'
      → (sent : Shared Session) × (answered : MessageStream) × (begin_calls client_wire payloads
            requests config.format calls s
          ≡ (map ok (channels s.opened s.next_id reqs), sent))
        × (sent.message_stream ≡ some (with_sent bs stream))
        × (handle_session timer config services server_wire requests responses (ok server_stream) w
            ≡ some (ok tt, some answered, w'))
        × (answered.sent ≡ outs)
        × ((run client_wire responses config.format (map response_came outs) sent).delivered
            ≡ s.delivered
              ++ results (channels s.opened s.next_id reqs) (replies timer config services reqs w))
  rpc_pipeline calls reqs bs outs s stream server_stream w w' has c small few prepared brings fresh
        served =
      let cs = channels s.opened s.next_id reqs in
      let apart = channels-AreApart reqs s.opened s.next_id small few in
      let (answered, ends, wrote, _) =
        handle_session-Answers timer config services server_wire requests responses bs outs reqs
          server_stream w w' lawful brings fresh served in
      (
        on_stream (with_sent bs stream) (all_waiting reqs s),
        answered,
        begin_calls-Prepared client_wire payloads requests config.format calls reqs bs s stream
            prepared has c,
        refl,
        ends,
        wrote,
        run-Carry client_wire responses config.format outs (replies timer config services reqs w) cs
              (on_stream (with_sent bs stream) (all_waiting reqs s))
              (Served-Carry client_wire server_wire payloads requests responses timer config
                services lawful calls bs bs outs reqs w w' s.opened s.next_id prepared served)
              apart (all_waiting-ArePending reqs s apart)
            ∙ ap (λ x. x ++ results cs (replies timer config services reqs w))
                (all_waiting-delivered reqs s),
      )
