-- ===== src/Tests/Calls.antt =====
-- Calls of the client, its interleaved tasks, and one call from end to end, at concrete inputs.
use quic_serve.Prelude.{
  ℕ, ◌≡◌, refl, String, contains, List, [], ◌∷◌, All, arith, get, string_eq, nat_eq, insert,
}
use quic_serve.Error.{connection_closed, ok, err}
use quic_serve.Message.{json, serialize, deserialize}
use quic_serve.Transport.{frame_codec}
use quic_serve.Utils.Format.{format_method_name}
use quic_serve.Server.{Server}
use quic_serve.Server.Session.{to_response}
use quic_serve.Client.{initial, begin_call}
use quic_serve.Client.Events.{
  Event, reserve, open_channel, handler_starts, response_came, closes, connects, step, run,
}
use quic_serve.Client.Calls.{waiting, begin_call-while_handling}
use quic_serve.Client.Routing.{IsExplained, CameIn, run-IsExplained}
use quic_serve.Rpc.{IsCallable}
use quic_serve.Tests.Toy.{requests, responses, raw}
use quic_serve.Tests.Setup.{wire, timer, echo, services, config, ready}

client : Unit {0}
unfolding serialize deserialize format_method_name frame_codec get contains insert run step
client = tt

callable :
    IsCallable wire wire raw requests responses timer config services "echo" "say"
      (7 ∷ [])
      ready
      echo
      0
      (7 ∷ [])
      (0 ∷ 0 ∷ 7 ∷ [])
      (0 ∷ 0 ∷ 7 ∷ [])
      5
unfolding client to_response
callable = record {
  payload_bytes = refl;
  request_bytes = refl;
  request_taken = λ sent. refl;
  dotless = refl;
  registered = refl;
  takes = refl;
  in_time = omega arith;
  response_bytes = refl;
  response_taken = λ sent. refl;
}

-- A response that nobody waits for, and an id for a caller who has not sent yet.
abbrev meanwhile : List (Event String)
meanwhile = response_came (9 ∷ 0 ∷ []) ∷ reserve ∷ []

begin_call-while_handling_example :
    begin_call wire raw requests json "echo.say"
      (7 ∷ [])
      (run wire responses json (handler_starts ∷ meanwhile) ready)
    ≡ (err connection_closed, waiting (run wire responses json (handler_starts ∷ meanwhile) ready))
unfolding client
begin_call-while_handling_example =
    begin_call-while_handling wire raw requests json responses "echo.say" (7 ∷ []) ready meanwhile
      (7 ∷ []) (1 ∷ 0 ∷ 7 ∷ []) (tt, (tt, tt)) refl refl

-- Two callers, of whom the second is answered first; the client is closed before the first is.
abbrev pub crossing : List (Event String)
crossing =
    connects "/rpc" (record { inbox = []; sent = [] })
    ∷ reserve
    ∷ reserve
    ∷ open_channel 1
    ∷ open_channel 0
    ∷ handler_starts
    ∷ response_came (1 ∷ 0 ∷ 8 ∷ [])
    ∷ response_came (1 ∷ 0 ∷ 9 ∷ [])
    ∷ closes
    ∷ []

crossing-run :
    (run wire responses json crossing initial).delivered
    ≡ (record { serial = 0; request_id = 1 }, ok (8 ∷ []))
      ∷ (record { serial = 1; request_id = 0 }, err connection_closed)
      ∷ []
unfolding client
crossing-run = refl

run-IsExplained_example :
    All
      (IsExplained responses json (CameIn crossing))
      (run wire responses json crossing initial).delivered
run-IsExplained_example = run-IsExplained wire responses json crossing

abbrev server : Server ℕ ℕ
server = record { config = config; endpoint = 0; services = services }
