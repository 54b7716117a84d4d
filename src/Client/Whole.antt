-- ===== src/Client/Whole.antt =====
-- `call` of src/client.rs from beginning to end. `during` is what the client's other tasks do while the
-- call waits on its channel, and how the wait ends.
pub mod Channels
pub mod Waiting
pub mod Answer
use quic_serve.Prelude.{
  ℕ, String, Bool, true, false, ◌||◌, Option, none, some, List, [], ◌∷◌, Assoc, ◌==◌, if◌then◌else◌,
}
use quic_serve.Error.{Error, Result, ok, err}
use quic_serve.Message.{Bytes, Request, Response, Codec, SerializationFormat}
use quic_serve.Transport.{Wire}
use quic_serve.Client.{Channel, Shared, begin_call}
use quic_serve.Client.Wait.{Waited, elapsed, sender_dropped, received, finish_call}
use quic_serve.Client.Events.{Event, run}

module _ {Session T R : Type 0} (wire : Wire) (payloads : Codec T) (requests : Codec Request)
    (results : Codec R) (format : SerializationFormat)
    (during : Channel → Shared Session → Waited × Shared Session) where
  abbrev ended : Waited × Shared Session → Result Error R × Shared Session
  ended (waited, s) = (finish_call results format waited, s)

  abbrev pub waited_on : Result Error Channel × Shared Session → Result Error R × Shared Session
  waited_on (err e, s) = (err e, s)
  waited_on (ok c, s) = ended (during c s)

  unfoldable pub call : String → T → Shared Session → Result Error R × Shared Session
  unfolding begin_call finish_call
  call method request s = waited_on (begin_call wire payloads requests format method request s)

-- The first result that was sent on the n-th channel.
abbrev pub result_for : ℕ → List (Channel × Result Error Bytes) → Option (Result Error Bytes)
result_for n [] = none
result_for n ((c, r) ∷ rs) = if c.serial == n then some r else result_for n rs

-- Whether the sender of the n-th channel is among the pending requests.
abbrev pub holds_sender : ℕ → Assoc ℕ Channel → Bool
holds_sender n [] = false
holds_sender n ((_, c) ∷ m) = (c.serial == n) || holds_sender n m

-- A sender that is not there was dropped.
abbrev pub waited : Option (Result Error Bytes) → Bool → Waited
waited (some r) held = received r
waited none true = elapsed
waited none false = sender_dropped

module _ {Session : Type 0} (wire : Wire) (responses : Codec Response)
    (format : SerializationFormat) where
  -- The wait, with the events that come before the timer fires and those that come between then and the
  -- end of the call; the timer decides where the first have not ended the wait.
  unfoldable pub amid :
      (es late : List (Event Session)) → Channel → Shared Session → Waited × Shared Session
  unfolding run
  amid es late c s =
      let s' = run wire responses format es s in
      (
        waited (result_for c.serial s'.delivered) (holds_sender c.serial s'.pending),
        run wire responses format late s',
      )
