-- ===== src/Client/Whole/Waiting.antt =====
-- A `call` of src/client.rs while it waits, and the events that it may wait through.
use quic_serve.Prelude.{
  ℕ, ◌≡◌, refl, sym, ◌∙◌, subst, false, Option, none, some, Option-cases, Bool-cases, inl, inr,
  List, [], ◌∷◌, All, get, remove, get-insert, get-remove, nat_eq, ◌==◌, ==→≡, if◌then◌else◌,
  beq_refl,
}
use quic_serve.Error.{Error, connection_closed, Result, ok, err}
use quic_serve.Message.{Bytes, Response, Codec, SerializationFormat, deserialize}
use quic_serve.Transport.{MessageStream, Wire, send}
use quic_serve.Client.{Channel, Shared, sent_on, transmit_on}
use quic_serve.Client.Wait.{Waited, elapsed, received}
use quic_serve.Client.Handler.{response_result, deliver, handle_decoded}
use quic_serve.Client.Lifecycle.{closings}
use quic_serve.Client.Events.{
  Event, reserve, open_channel, request_sent, handler_starts, response_came, handler_ends, connects,
  closes, step, run,
}
use quic_serve.Client.Once.{IsOnce, step-IsOnce}
use quic_serve.Client.Whole.{result_for, holds_sender, waited}
use quic_serve.Client.Whole.Channels.{
  result_for-append, result_for-kept, holds_sender-get, result_for-closings, not_shared,
}

-- A wait that nothing has ended ends with the timer.
abbrev pub or_elapsed : Option (Result Error Bytes) → Waited
or_elapsed none = elapsed
or_elapsed (some r) = received r

abbrev pub or_else :
    Option (Result Error Bytes) → Option (Result Error Bytes) → Option (Result Error Bytes)
or_else none o = o
or_else (some r) o = some r

abbrev answer_of : ℕ → Result Error Response → Option (Result Error Bytes)
answer_of id (err e) = none
answer_of id (ok a) = if a.id == id then some (response_result a) else none

module _ {Session : Type 0} (wire : Wire) (responses : Codec Response)
    (format : SerializationFormat) (id : ℕ) where
  -- What an event tells a call with this id: the response to it, or that the client is closed.
  abbrev pub answered_by : Event Session → Option (Result Error Bytes)
  answered_by (response_came b) = answer_of id (deserialize responses b format)
  answered_by closes = some (err connection_closed)
  answered_by _ = none

  -- The first event that tells it anything decides.
  abbrev pub first_answer : List (Event Session) → Option (Result Error Bytes)
  first_answer [] = none
  first_answer (e ∷ es) = or_else (answered_by e) (first_answer es)

  -- No other call gets the same id, as it would once the ids have wrapped around.
  abbrev pub OpensOther : Event Session → Type 0
  OpensOther (open_channel j) = (j == id) ≡ false
  OpensOther _ = Unit

  -- The call waits on its channel.
  abbrev pub IsOpen : Channel → Shared Session → Type 0
  IsOpen c s = (get id s.pending ≡ some c) × (result_for c.serial s.delivered ≡ none) × IsOnce s

  abbrev Now : Channel → Option (Result Error Bytes) → Shared Session → Type 0
  Now c none s = IsOpen c s
  Now c (some r) s = result_for c.serial s.delivered ≡ some r

  -- A response to another call is not for this one.
  deliver-IsOpen :
      (a : Response) (o : Option Channel) (c : Channel) (s : Shared Session)
      → get a.id s.pending ≡ o
      → (a.id == id) ≡ false
      → IsOpen c s
      → IsOnce (deliver o (response_result a) (record s { pending = remove a.id s.pending }))
      → IsOpen c (deliver o (response_result a) (record s { pending = remove a.id s.pending }))
  deliver-IsOpen a none c s found miss (pending, untold, _) once =
      (get-remove a.id id s.pending ∙ (rw miss refl ∙ pending), untold, once)
  deliver-IsOpen a (some d) c s found miss (pending, untold, before) once =
      let other =
        not_shared id a.id c d s.pending s.delivered (before c.serial).0 pending found miss in
      (
        get-remove a.id id s.pending ∙ (rw miss refl ∙ pending),
        result_for-append c.serial s.delivered ((d, response_result a) ∷ []) untold ∙ rw other refl,
        once,
      )

  handle_decoded-Now :
      (r : Result Error Response) (c : Channel) (s : Shared Session)
      → IsOpen c s
      → IsOnce (handle_decoded responses format r s)
      → Now c (answer_of id r) (handle_decoded responses format r s)
  handle_decoded-Now (err e) c s waits once = waits
  handle_decoded-Now (ok a) c s waits once = elim (Bool-cases (a.id == id)) [
    | inl hit ↦
        let found : get a.id s.pending ≡ some c =
          subst (λ i. get i s.pending ≡ some c) (sym (==→≡ a.id id hit)) waits.0 in
        rw (hit, found)
          (result_for-append c.serial s.delivered ((c, response_result a) ∷ []) waits.1
            ∙ rw (beq_refl c.serial) refl)
    | inr miss ↦ rw miss (deliver-IsOpen a (get a.id s.pending) c s refl miss waits once)
  ]

  sent_on-IsOpen :
      (c : Channel) (s : Shared Session) (r : Result Error (Unit {0}) × MessageStream)
      → IsOpen c s
      → IsOpen c (sent_on s r).1
  sent_on-IsOpen c s (ok _, stream) waits = waits
  sent_on-IsOpen c s (err e, stream) waits = waits

  pub transmit_on-IsOpen :
      (c : Channel) (b : Bytes) (s : Shared Session) (o : Option MessageStream)
      → IsOpen c s
      → IsOpen c (transmit_on wire b s o).1
  transmit_on-IsOpen c b s none waits = waits
  transmit_on-IsOpen c b s (some stream) waits = sent_on-IsOpen c s (send wire b stream) waits

  step-Now :
      (e : Event Session) (c : Channel) (s : Shared Session)
      → OpensOther e
      → IsOpen c s
      → Now c (answered_by e) (step wire responses format e s)
  unfolding step
  step-Now (response_came b) c s other waits =
      handle_decoded-Now (deserialize responses b format) c s waits
        (step-IsOnce wire responses format (response_came b) s waits.2)
  step-Now closes c s other waits =
      result_for-append c.serial s.delivered (closings s.pending) waits.1
      ∙ result_for-closings c.serial s.pending (holds_sender-get id c s.pending waits.0)
  step-Now (request_sent b) c s other waits = transmit_on-IsOpen c b s s.message_stream waits
  step-Now (open_channel j) c s other (pending, untold, once) = (
    get-insert j id _ s.pending ∙ (rw other refl ∙ pending),
    untold,
    step-IsOnce wire responses format (open_channel j) s once,
  )
  step-Now reserve c s other waits = waits
  step-Now handler_starts c s other waits = waits
  step-Now (handler_ends stream) c s other waits = waits
  step-Now (connects session stream) c s other waits = waits

  handle_decoded-kept :
      (r : Result Error Response) (n : ℕ) (s : Shared Session) (q : Result Error Bytes)
      → result_for n s.delivered ≡ some q
      → result_for n (handle_decoded responses format r s).delivered ≡ some q
  handle_decoded-kept (err e) n s q told = told
  handle_decoded-kept (ok a) n s q told = elim (Option-cases (get a.id s.pending)) [
    | inl missing ↦ rw missing told
    | inr (c, found) ↦ rw found (result_for-kept n s.delivered _ q told)
  ]

  sent_on-kept :
      (r : Result Error (Unit {0}) × MessageStream) (s : Shared Session)
      → (sent_on s r).1.delivered ≡ s.delivered
  sent_on-kept (ok _, stream) s = refl
  sent_on-kept (err e, stream) s = refl

  transmit_on-kept :
      (b : Bytes) (s : Shared Session) (o : Option MessageStream)
      → (transmit_on wire b s o).1.delivered ≡ s.delivered
  transmit_on-kept b s none = refl
  transmit_on-kept b s (some stream) = sent_on-kept (send wire b stream) s

  -- The first result on a channel stays the first.
  step-kept :
      (e : Event Session) (n : ℕ) (s : Shared Session) (q : Result Error Bytes)
      → result_for n s.delivered ≡ some q
      → result_for n (step wire responses format e s).delivered ≡ some q
  unfolding step
  step-kept (response_came b) n s q told =
      handle_decoded-kept (deserialize responses b format) n s q told
  step-kept closes n s q told = result_for-kept n s.delivered (closings s.pending) q told
  step-kept (request_sent b) n s q told = rw (transmit_on-kept b s s.message_stream) told
  step-kept (open_channel j) n s q told = told
  step-kept reserve n s q told = told
  step-kept handler_starts n s q told = told
  step-kept (handler_ends stream) n s q told = told
  step-kept (connects session stream) n s q told = told

  run-kept :
      (es : List (Event Session)) (n : ℕ) (s : Shared Session) (q : Result Error Bytes)
      → result_for n s.delivered ≡ some q
      → result_for n (run wire responses format es s).delivered ≡ some q
  unfolding run
  run-kept [] n s q told = told
  run-kept (e ∷ es) n s q told =
      run-kept es n (step wire responses format e s) q (step-kept e n s q told)

  pub run-Now :
      (es : List (Event Session)) (c : Channel) (s : Shared Session)
      → All OpensOther es
      → IsOpen c s
      → Now c (first_answer es) (run wire responses format es s)
  unfolding run
  run-Now [] c s others waits = waits
  run-Now (e ∷ es) c s (other, others) waits =
      goes_on (answered_by e) (step-Now e c s other waits)
        (run-Now es c (step wire responses format e s) others)
    where
      goes_on :
          (o : Option (Result Error Bytes))
          → Now c o (step wire responses format e s)
          → (IsOpen c (step wire responses format e s)
              → Now c
                  (first_answer es)
                  (run wire responses format es (step wire responses format e s)))
          → Now c
              (or_else o (first_answer es))
              (run wire responses format es (step wire responses format e s))
      goes_on none still rest = rest still
      goes_on (some q) told rest = run-kept es c.serial (step wire responses format e s) q told

  -- A wait that is over has ended with the first answer, or with the timer if there was none.
  pub waited-Now :
      (o : Option (Result Error Bytes)) (c : Channel) (s : Shared Session)
      → Now c o s
      → waited (result_for c.serial s.delivered) (holds_sender c.serial s.pending) ≡ or_elapsed o
  waited-Now none c s (pending, untold, _) =
      rw (untold, holds_sender-get id c s.pending pending) refl
  waited-Now (some q) c s told = rw told refl
