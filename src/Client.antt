-- ===== src/Client.antt =====
-- `Client` of src/client.rs: its state, and `call` up to the point where it waits.
pub mod Wait
pub mod Whole
pub mod Handler
pub mod Lifecycle
pub mod Events
pub mod Ids
pub mod Calls
pub mod Routing
pub mod Once
pub mod Task
pub mod Closing
pub mod Settled
pub mod Batch
pub mod Apart
pub mod Sections
use quic_serve.Prelude.{
  ℕ, ◌+◌, ◌%◌, ◌^◌, String, ◌<>◌, Option, none, some, List, [], ◌∷◌, Assoc, insert, nat_eq,
}
use quic_serve.Error.{Error, connection_closed, web_transport, to_string, Result, ok, err}
use quic_serve.Message.{Bytes, Request, Codec, SerializationFormat, serialize}
use quic_serve.Transport.{MessageStream, Wire, send}

abbrev pub u64_mod : ℕ
u64_mod = 2 ^ 64

-- A `oneshot` channel, named by how many were opened before it and by the request for which it was.
pub record Channel : Type 0 where
  pub serial : ℕ
  pub request_id : ℕ

-- What the tasks of one client share. The fields behind `next_id` record what was done with channels:
-- how many were opened, and what was sent on which, in order.
pub record Shared (Session : Type 0) : Type 0 where
  pub session : Option Session
  pub message_stream : Option MessageStream
  pub pending : Assoc ℕ Channel
  pub next_id : ℕ
  pub opened : ℕ
  pub delivered : List (Channel × Result Error Bytes)

-- The state that `Client::new` makes.
abbrev pub initial : {Session : Type 0} → Shared Session
initial = record {
  session = none;
  message_stream = none;
  pending = [];
  next_id = 0;
  opened = 0;
  delivered = [];
}

module _ {Session : Type 0} where
  -- `let id = *id_guard; *id_guard = id.wrapping_add(1); id`
  unfoldable pub next_request_id : Shared Session → ℕ × Shared Session
  next_request_id s = (s.next_id, record s { next_id = (s.next_id + 1) % u64_mod })

  -- `oneshot::channel()`, and `pending_guard.insert(id, tx)`
  unfoldable pub register : ℕ → Shared Session → Channel × Shared Session
  register id s =
      let c : Channel = record { serial = s.opened; request_id = id } in
      (c, record s { pending = insert id c s.pending; opened = s.opened + 1 })

  abbrev pub sent_on :
      Shared Session
      → Result Error (Unit {0}) × MessageStream
      → Result Error (Unit {0}) × Shared Session
  sent_on s (ok _, stream) = (ok tt, record s { message_stream = some stream })
  sent_on s (err e, stream) = (
    err (web_transport ("Failed to send request: " <> to_string e)),
    record s { message_stream = some stream },
  )

  abbrev pub transmit_on :
      Wire
      → Bytes
      → Shared Session
      → Option MessageStream
      → Result Error (Unit {0}) × Shared Session
  transmit_on wire request_bytes s none = (err connection_closed, s)
  transmit_on wire request_bytes s (some stream) = sent_on s (send wire request_bytes stream)

  -- Sends on the message stream, under its lock.
  unfoldable pub transmit : Wire → Bytes → Shared Session → Result Error (Unit {0}) × Shared Session
  unfolding to_string
  transmit wire request_bytes s = transmit_on wire request_bytes s s.message_stream

  module _ {T : Type 0} (wire : Wire) (payloads : Codec T) (requests : Codec Request)
      (format : SerializationFormat) where
    abbrev pub waits_on :
        Channel → Result Error (Unit {0}) × Shared Session → Result Error Channel × Shared Session
    waits_on c (ok _, s) = (ok c, s)
    waits_on c (err e, s) = (err e, s)

    abbrev pub send_request :
        Channel → Result Error Bytes → Shared Session → Result Error Channel × Shared Session
    send_request c (err e) s = (err e, s)
    send_request c (ok request_bytes) s = waits_on c (transmit wire request_bytes s)

    abbrev pub with_payload :
        String → Result Error Bytes → Shared Session → Result Error Channel × Shared Session
    with_payload method (err e) s = (err e, s)
    with_payload method (ok payload) s =
        let (id, s') = next_request_id s in
        let (c, s'') = register id s' in
        send_request c
          (serialize requests (record { id = id; method = method; payload = payload }) format) s''

    -- `call`, up to the wait for the response: the channel on which it waits. An error leaves what was
    -- changed before it.
    unfoldable pub begin_call : String → T → Shared Session → Result Error Channel × Shared Session
    unfolding next_request_id register transmit
    begin_call method request s = with_payload method (serialize payloads request format) s
