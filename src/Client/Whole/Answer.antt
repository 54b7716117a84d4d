-- ===== src/Client/Whole/Answer.antt =====
-- What a whole `call` of src/client.rs returns, whatever the client's other tasks do while it waits.
use quic_serve.Prelude.{
  ℕ, ◌≡◌, refl, sym, ◌∙◌, ap, subst, String, List, All, get-insert, nat_eq, arith, beq_refl,
}
use quic_serve.Error.{Error, Result, ok, err}
use quic_serve.Message.{Bytes, Request, Response, Codec, SerializationFormat, serialize}
use quic_serve.Transport.{Wire}
use quic_serve.Client.{
  Channel, Shared, initial, transmit, waits_on, send_request, with_payload, register,
  next_request_id, begin_call,
}
use quic_serve.Client.Calls.{next_channel, next_request, waiting}
use quic_serve.Client.Wait.{finish_call}
use quic_serve.Client.Events.{Event, open_channel, step, run}
use quic_serve.Client.Once.{IsOnce, step-IsOnce, run-IsOnce}
use quic_serve.Client.Whole.{call, amid}
use quic_serve.Client.Whole.Channels.{result_for-none}
use quic_serve.Client.Whole.Waiting.{
  or_elapsed, first_answer, OpensOther, IsOpen, transmit_on-IsOpen, run-Now, waited-Now,
}

module _ {Session T R : Type 0} (wire : Wire) (payloads : Codec T) (requests : Codec Request)
    (responses : Codec Response) (results : Codec R) (format : SerializationFormat) where
  waiting-IsOpen :
      (s : Shared Session)
      → IsOnce s
      → IsOpen wire responses format s.next_id (next_channel s) (waiting s)
  unfolding step
  waiting-IsOpen s once = (
    get-insert s.next_id s.next_id (next_channel s) s.pending ∙ rw (beq_refl s.next_id) refl,
    result_for-none s.opened s.delivered (omega (arith, (once s.opened).1 (omega arith))),
    step-IsOnce wire responses format (open_channel s.next_id) s once,
  )

  waits_on-eq-ok :
      (c0 c : Channel) (x : Result Error (Unit {0}) × Shared Session) (s : Shared Session)
      → waits_on wire payloads requests format c0 x ≡ (ok c, s)
      → (c0 ≡ c) × (x.1 ≡ s)
  waits_on-eq-ok c0 c (ok _, s0) s e = (cc (ap (λ y. y.0) e), ap (λ y. y.1) e)
  waits_on-eq-ok c0 c (err x, s0) s e = cc

  send_request-IsOpen :
      (id : ℕ) (c0 c : Channel) (r : Result Error Bytes) (s0 s : Shared Session)
      → send_request wire payloads requests format c0 r s0 ≡ (ok c, s)
      → IsOpen wire responses format id c0 s0
      → IsOpen wire responses format id c s
  unfolding transmit
  send_request-IsOpen id c0 c (err x) s0 s e waits = cc
  send_request-IsOpen id c0 c (ok b) s0 s e waits =
      let (same, state) = waits_on-eq-ok c0 c (transmit wire b s0) s e in
      subst (λ d. IsOpen wire responses format id d s) same
        (subst (IsOpen wire responses format id c0) state
          (transmit_on-IsOpen wire responses format id c0 b s0 s0.message_stream waits))

  with_payload-IsOpen :
      (method : String) (r : Result Error Bytes) (s0 : Shared Session) (c : Channel)
      (s : Shared Session)
      → with_payload wire payloads requests format method r s0 ≡ (ok c, s)
      → IsOnce s0
      → IsOpen wire responses format s0.next_id c s
  unfolding next_request_id register
  with_payload-IsOpen method (err x) s0 c s e once = cc
  with_payload-IsOpen method (ok payload) s0 c s e once =
      send_request-IsOpen s0.next_id (next_channel s0) c
        (serialize requests (next_request method payload s0) format) (waiting s0) s e
        (waiting-IsOpen s0 once)

  -- Whatever the client has done before, a call that has sent its request returns what the first event
  -- says that concerns it, whatever else its tasks do while it waits: the result in the first response
  -- with its id, deserialized, or `ConnectionClosed` if the client is closed before; if neither comes
  -- before its timer fires, then `Timeout`, whatever comes later. It is assumed that no other call gets the same id while it
  -- waits.
  pub call-first_answer :
      (before es late : List (Event Session)) (method : String) (request : T) (s : Shared Session)
      (c : Channel) (sent : Shared Session)
      → s ≡ run wire responses format before initial
      → begin_call wire payloads requests format method request s ≡ (ok c, sent)
      → All (OpensOther wire responses format s.next_id) es
      → call wire payloads requests results format
          (amid wire responses format es late)
          method
          request
          s
        ≡ (
          finish_call results format (or_elapsed (first_answer wire responses format s.next_id es)),
          run wire responses format late (run wire responses format es sent),
        )
  unfolding call amid begin_call
  call-first_answer before es late method request s c sent reached begun others =
      let once : IsOnce s =
        subst IsOnce (sym reached)
          (run-IsOnce wire responses format before initial (λ n. (omega arith, λ _. refl))) in
      let waits =
        with_payload-IsOpen method (serialize payloads request format) s c sent begun once in
      rw begun (
        ap
          (λ w. (
            finish_call results format w,
            run wire responses format late (run wire responses format es sent),
          ))
          (waited-Now wire responses format s.next_id
            (first_answer wire responses format s.next_id es) c (run wire responses format es sent)
            (run-Now wire responses format s.next_id es c sent others waits)))
