-- ===== src/Tests/Tasks.antt =====
-- Whole tasks of the client, and what is left on its channels, at concrete inputs.
use quic_serve.Prelude.{
  List, get, insert, nat_eq, arith, ◌+◌, ◌≤◌, ◌≡◌, refl, String, some, [], ◌∷◌,
}
use quic_serve.Error.{ok, err}
use quic_serve.Message.{json, deserialize}
use quic_serve.Transport.{MessageStream, frame_codec}
use quic_serve.Client.{Shared, initial, register}
use quic_serve.Client.Handler.{handle_response, response_handler}
use quic_serve.Client.Lifecycle.{close}
use quic_serve.Client.Events.{Event, open_channel, response_came, step, run}
use quic_serve.Client.Once.{waits_for, results_on, run-sends_once}
use quic_serve.Client.Task.{task_events, response_handler-run}
use quic_serve.Client.Settled.{run-settles}
use quic_serve.Tests.Toy.{responses}
use quic_serve.Tests.Setup.{wire, ready}
use quic_serve.Tests.Calls.{crossing}

run-sends_once_example :
    waits_for 1 (run wire responses json crossing initial).pending
      + results_on 1 (run wire responses json crossing initial).delivered
    ≤ 1
run-sends_once_example = run-sends_once wire responses json crossing 1

-- Two responses and then a failure; another frame is left unread.
abbrev answering : MessageStream
answering = record {
  codec = frame_codec;
  stream = record {
    inbox = ok (1 ∷ 0 ∷ 8 ∷ []) ∷ ok (2 ∷ 0 ∷ 9 ∷ []) ∷ err "reset" ∷ ok (3 ∷ 0 ∷ []) ∷ [];
    sent = [];
  };
}

abbrev awaiting : Shared String
awaiting = record ready {
  message_stream = some answering;
  pending =
      (1, record { serial = 0; request_id = 1 }) ∷ (3, record { serial = 1; request_id = 3 }) ∷ [];
  opened = 2;
}

response_handler-run_example :
    response_handler responses json awaiting
    ≡ some (run wire responses json (task_events answering) awaiting)
response_handler-run_example = response_handler-run wire responses json awaiting answering refl

-- Three calls, of which one is answered, before the client is closed.
abbrev unsettled : List (Event String)
unsettled = open_channel 0 ∷ open_channel 1 ∷ response_came (1 ∷ 0 ∷ 8 ∷ []) ∷ open_channel 1 ∷ []

run-settles_example :
    results_on 2 (close (run wire responses json unsettled initial)).1.delivered ≡ 1
unfolding run step handle_response deserialize register get insert
run-settles_example =
    run-settles wire responses json unsettled 2 (refl, (refl, (tt, (refl, tt)))) (omega arith)
