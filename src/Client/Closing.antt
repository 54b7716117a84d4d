-- ===== src/Client/Closing.antt =====
-- `close` of src/client.rs ends every wait; and a client after it, when its response handler goes on.
use quic_serve.Prelude.{ℕ, ◌+◌, ◌≡◌, refl, ◌∙◌, none, List, [], ◌∷◌, All, get, remove, nat_eq}
use quic_serve.Error.{Error, Result, ok, err}
use quic_serve.Message.{Response, Codec, SerializationFormat, deserialize}
use quic_serve.Transport.{Wire}
use quic_serve.Client.Handler.{handle_decoded}
use quic_serve.Client.Events.{Event, handler_starts, response_came, handler_ends, step, run}
use quic_serve.Client.{Shared}
use quic_serve.Client.Lifecycle.{closings, close}
use quic_serve.Client.Once.{waits_for, results_on, results_on-append, results_on-closings}

module _ {Session : Type 0} where
  -- Closing succeeds, leaves no session and no stream, and sends one result for each wait that there
  -- was: on each channel the results are as many as results and waits before, and nobody waits.
  pub close-ends_waits :
      (s : Shared Session) (n : ℕ)
      → ((close s).0 ≡ ok tt)
        × ((close s).1.session ≡ none)
        × ((close s).1.message_stream ≡ none)
        × (waits_for n (close s).1.pending ≡ 0)
        × (results_on n (close s).1.delivered ≡ results_on n s.delivered + waits_for n s.pending)
  unfolding close
  close-ends_waits s n = (
    refl,
    refl,
    refl,
    refl,
    rw (results_on-append n s.delivered (closings s.pending), results_on-closings n s.pending) refl,
  )

-- The client has neither session nor stream, and nobody waits.
abbrev pub IsClosed : {Session : Type 0} → Shared Session → Type 0
IsClosed s = (s.session ≡ none) × (s.message_stream ≡ none) × (s.pending ≡ [])

-- The same, but for the stream.
abbrev pub IsOff : {Session : Type 0} → Shared Session → Type 0
IsOff s = (s.session ≡ none) × (s.pending ≡ [])

module _ {Session : Type 0} where
  -- The handler does it.
  abbrev pub FromHandler : Event Session → Type 0
  FromHandler handler_starts = Unit
  FromHandler (response_came b) = Unit
  FromHandler (handler_ends stream) = Unit
  FromHandler _ = ⊥

  -- It is not the end of the handler, at which this puts the stream back.
  abbrev pub KeepsStream : Event Session → Type 0
  KeepsStream (handler_ends stream) = ⊥
  KeepsStream _ = Unit

module _ {Session : Type 0} (wire : Wire) (responses : Codec Response)
    (format : SerializationFormat) where
  handle_decoded-IsOff :
      (r : Result Error Response) (s : Shared Session)
      → IsOff s
      → IsOff (handle_decoded responses format r s)
        × ((handle_decoded responses format r s).message_stream ≡ s.message_stream)
  unfolding get remove
  handle_decoded-IsOff (err e) s off = (off, refl)
  handle_decoded-IsOff (ok a) s (gone, nobody) = rw nobody ((gone, refl), refl)

  step-IsOff :
      (e : Event Session) (s : Shared Session)
      → FromHandler e
      → IsOff s
      → IsOff (step wire responses format e s)
  unfolding step
  step-IsOff (response_came b) s h off =
      (handle_decoded-IsOff (deserialize responses b format) s off).0
  step-IsOff handler_starts s h off = off
  step-IsOff (handler_ends stream) s h off = off
  step-IsOff _ s h off = absurd h

  step-KeepsStream :
      (e : Event Session) (s : Shared Session)
      → FromHandler e
      → KeepsStream e
      → IsOff s
      → s.message_stream ≡ none
      → (step wire responses format e s).message_stream ≡ none
  unfolding step
  step-KeepsStream (response_came b) s h k off none_yet =
      (handle_decoded-IsOff (deserialize responses b format) s off).1 ∙ none_yet
  step-KeepsStream handler_starts s h k off none_yet = refl
  step-KeepsStream (handler_ends stream) s h k off none_yet = absurd k
  step-KeepsStream _ s h k off none_yet = absurd h

  run-IsOff :
      (es : List (Event Session)) (s : Shared Session)
      → All FromHandler es
      → IsOff s
      → IsOff (run wire responses format es s)
        × (All KeepsStream es
            → s.message_stream ≡ none
            → (run wire responses format es s).message_stream ≡ none)
  unfolding run
  run-IsOff [] s h off = (off, λ k none_yet. none_yet)
  run-IsOff (e ∷ es) s (h, hs) off =
      let (rest, stream) =
        run-IsOff es (step wire responses format e s) hs (step-IsOff e s h off) in
      (rest, λ (k, ks) none_yet. stream ks (step-KeepsStream e s h k off none_yet))

-- The client has been closed, and then other tasks went on, as `after` says; where only the response
-- handler did, there still is no session and nobody waits, and unless it ended there is no stream.
pub record IsDropped {Session : Type 0} (after : Shared Session → Shared Session)
    (s : Shared Session) : Type 0 where
  pub closed : Shared Session
  pub is_closed : IsClosed closed
  pub goes_on : s ≡ after closed
  pub is_off :
      (wire : Wire) (responses : Codec Response) (format : SerializationFormat)
      (es : List (Event Session))
      → after closed ≡ run wire responses format es closed
      → All FromHandler es
      → IsOff s × (All KeepsStream es → s.message_stream ≡ none)

pub IsClosed-IsDropped :
    {Session : Type 0} (after : Shared Session → Shared Session) (s : Shared Session)
    → IsClosed s
    → IsDropped after (after s)
IsClosed-IsDropped after s (gone, no_stream, nobody) = record {
  closed = s;
  is_closed = (gone, no_stream, nobody);
  goes_on = refl;
  is_off = λ wire responses format es same handles.
      let (off, stream) = run-IsOff wire responses format es s handles (gone, nobody) in
      rw same (off, λ keeps. stream keeps no_stream);
}
