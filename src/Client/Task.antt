-- ===== src/Client/Task.antt =====
-- The whole task of `start_response_handler` in src/client.rs, if no other task runs in between.
use quic_serve.Prelude.{
  suc, String, ◌≡◌, refl, sym, ap, ◌∙◌, none, some, arith, List, [], ◌∷◌, ◌++◌, map, length,
}
use quic_serve.Error.{Result, ok, err}
use quic_serve.Message.{Bytes, Response, Codec, SerializationFormat}
use quic_serve.Transport.{MessageStream, Wire}
use quic_serve.Transport.Framing.{rest_of, receive-cons, receive-err, receive-nil}
use quic_serve.Client.{Shared}
use quic_serve.Client.Handler.{
  handle_response, handler_loop, response_handler, then_put_back, handle_on,
}
use quic_serve.Client.Events.{Event, handler_starts, response_came, handler_ends, step, run}

-- The messages that come before the stream ends or fails, and what is behind the failure.
abbrev pub until_error : List (Result String Bytes) → List Bytes
until_error [] = []
until_error (ok b ∷ frames) = b ∷ until_error frames
until_error (err _ ∷ frames) = []

abbrev pub after_error : List (Result String Bytes) → List (Result String Bytes)
after_error [] = []
after_error (ok b ∷ frames) = after_error frames
after_error (err _ ∷ frames) = frames

-- What the response handler does, event by event.
abbrev pub task_events : {Session : Type 0} → MessageStream → List (Event Session)
task_events stream =
    handler_starts ∷ map response_came (until_error stream.inbox)
    ++ handler_ends (rest_of (after_error stream.inbox) stream) ∷ []

module _ {Session : Type 0} (wire : Wire) (responses : Codec Response)
    (format : SerializationFormat) where
  run-append :
      (es fs : List (Event Session)) (s : Shared Session)
      → run wire responses format (es ++ fs) s
        ≡ run wire responses format fs (run wire responses format es s)
  unfolding run
  run-append [] fs s = refl
  run-append (e ∷ es) fs s = run-append es fs (step wire responses format e s)

  handler_loop-run :
      (frames : List (Result String Bytes)) (stream : MessageStream) (s : Shared Session)
      → stream.inbox ≡ frames
      → handler_loop responses format (suc (length frames)) stream s
        ≡ some (
          rest_of (after_error frames) stream,
          run wire responses format (map response_came (until_error frames)) s,
        )
  unfolding handler_loop run step
  handler_loop-run [] stream s e =
      rw (receive-nil stream e) (ap (λ x. some (x, s)) (ground (arith, e)))
  handler_loop-run (ok b ∷ frames) stream s e =
      rw (receive-cons stream b frames e, handler_loop)
        (handler_loop-run frames (rest_of frames stream) (handle_response responses format b s)
          refl)
  handler_loop-run (err x ∷ frames) stream s e = rw (receive-err stream x frames e) refl

  -- A response handler that takes a stream which ends comes to its end, and has done, in this order:
  -- taken the stream from the client, handled each message that comes before the stream ends or
  -- fails, and put the stream back.
  pub response_handler-run :
      (s : Shared Session) (stream : MessageStream)
      → s.message_stream ≡ some stream
      → response_handler responses format s
        ≡ some (run wire responses format (task_events stream) s)
  unfolding response_handler run step
  response_handler-run s stream e =
      let taken : Shared Session = record s { message_stream = none } in
      let came : List (Event Session) = map response_came (until_error stream.inbox) in
      let ends = rest_of (after_error stream.inbox) stream in
      ap (λ o. handle_on responses format (o, taken)) e
      ∙ ap (then_put_back responses format) (handler_loop-run stream.inbox stream taken refl)
      ∙ ap some (sym (run-append came (handler_ends ends ∷ []) taken))
