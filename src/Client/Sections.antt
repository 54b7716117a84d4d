-- ===== src/Client/Sections.antt =====
-- `call` of src/client.rs, up to its wait, as the sections that it runs under locks.
use quic_serve.Prelude.{◌≡◌, refl, String, List, [], ◌∷◌}
use quic_serve.Error.{Error, Result, ok, err}
use quic_serve.Message.{Bytes, Request, Response, Codec, SerializationFormat, serialize}
use quic_serve.Transport.{Wire}
use quic_serve.Client.{Channel, Shared, waits_on, send_request, with_payload, begin_call, transmit}
use quic_serve.Client.Events.{Event, reserve, open_channel, request_sent, step, run}
use quic_serve.Client.Calls.{next_request, waiting, next_channel}

-- A message that could not be serialized is not sent.
abbrev pub sends : {Session : Type 0} → Result Error Bytes → List (Event Session)
sends (ok request_bytes) = request_sent request_bytes ∷ []
sends (err e) = []

module _ {Session T : Type 0} (wire : Wire) (payloads : Codec T) (requests : Codec Request)
    (responses : Codec Response) (format : SerializationFormat) where
  -- What a call does to the state that the client's tasks share, given its serialized payload.
  abbrev pub sections : String → Result Error Bytes → Shared Session → List (Event Session)
  sections method (err e) s = []
  sections method (ok payload) s =
      reserve
      ∷ open_channel s.next_id
      ∷ sends (serialize requests (next_request method payload s) format)

  waits_on-state :
      (c : Channel) (x : Result Error (Unit {0}) × Shared Session)
      → (waits_on wire payloads requests format c x).1 ≡ x.1
  waits_on-state c (ok _, s) = refl
  waits_on-state c (err e, s) = refl

  send_request-run :
      (c : Channel) (r : Result Error Bytes) (s : Shared Session)
      → (send_request wire payloads requests format c r s).1 ≡ run wire responses format (sends r) s
  unfolding run step
  send_request-run c (ok b) s = waits_on-state c (transmit wire b s)
  send_request-run c (err e) s = refl

  with_payload-run :
      (method : String) (r : Result Error Bytes) (s : Shared Session)
      → (with_payload wire payloads requests format method r s).1
        ≡ run wire responses format (sections method r s) s
  unfolding run step
  with_payload-run method (ok payload) s =
      send_request-run (next_channel s) (serialize requests (next_request method payload s) format)
        (waiting s)
  with_payload-run method (err e) s = refl

  -- A call that nothing interrupts changes the client, on all its branches, as a run of its sections
  -- does: it takes the next id, opens a channel under it, and sends what could be serialized.
  pub begin_call-run :
      (method : String) (request : T) (s : Shared Session)
      → (begin_call wire payloads requests format method request s).1
        ≡ run wire responses format (sections method (serialize payloads request format) s) s
  unfolding begin_call
  begin_call-run method request s = with_payload-run method (serialize payloads request format) s
