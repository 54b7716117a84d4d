-- ===== src/Tests/Answers.antt =====
-- A whole call of the client, amid what its other tasks do, at concrete inputs.
use quic_serve.Prelude.{
  ◌≡◌, refl, ◌++◌, some, contains, string_eq, arith, String, List, [], ◌∷◌, get, nat_eq,
}
use quic_serve.Error.{ok}
use quic_serve.Message.{json, serialize, deserialize}
use quic_serve.Transport.{BidiStream, frame_codec}
use quic_serve.Transport.Framing.{with_sent}
use quic_serve.Utils.Format.{format_method_name}
use quic_serve.Server.Session.{to_response, handle_message}
use quic_serve.Rpc.{IsCallable}
use quic_serve.Rpc.Served.{call-served}
use quic_serve.Transport
use quic_serve.Client.Wait.{finish_call}
use quic_serve.Client.{Shared, initial, begin_call}
use quic_serve.Client.Calls.{next_channel}
use quic_serve.Client.Events.{
  Event, reserve, open_channel, handler_starts, response_came, closes, connects, step, run,
}
use quic_serve.Client.Whole.{call, amid}
use quic_serve.Client.Whole.Answer.{call-first_answer}
use quic_serve.Tests.Toy.{requests, responses, raw, requests-IsLawful, responses-IsLawful}
use quic_serve.Tests.Setup.{wire, timer, config, services, echo, asking}

abbrev connection : BidiStream
connection = record { inbox = []; sent = [] }

-- The first id is taken by another call.
abbrev pub earlier : List (Event String)
earlier = connects "/rpc" connection ∷ reserve ∷ open_channel 0 ∷ []

abbrev pub asked : Shared String
asked = run wire responses json earlier initial

-- The other call is answered first; the second response to this one comes too late.
abbrev pub meanwhile : List (Event String)
meanwhile =
    handler_starts
    ∷ response_came (0 ∷ 0 ∷ 5 ∷ [])
    ∷ reserve
    ∷ open_channel 2
    ∷ response_came (1 ∷ 0 ∷ 7 ∷ [])
    ∷ response_came (1 ∷ 0 ∷ 8 ∷ [])
    ∷ closes
    ∷ []

-- After the timer.
abbrev afterwards : List (Event String)
afterwards = response_came (1 ∷ 0 ∷ 9 ∷ []) ∷ reserve ∷ []

abbrev sent : Shared String
sent = (begin_call wire raw requests json "echo.say" (7 ∷ []) asked).1

call-first_answer_example :
    call wire raw requests raw json
      (amid wire responses json meanwhile afterwards)
      "echo.say"
      (7 ∷ [])
      asked
    ≡ (ok (7 ∷ []), run wire responses json afterwards (run wire responses json meanwhile sent))
unfolding run step serialize deserialize begin_call Transport.send Transport.new finish_call
call-first_answer_example =
    call-first_answer wire raw requests responses raw json earlier meanwhile afterwards "echo.say"
      (7 ∷ []) asked (next_channel asked) sent refl refl
      (tt, (tt, (tt, (refl, (tt, (tt, (tt, tt)))))))

-- The call of a service, with another call answered before and a late response after.
abbrev before_it : List (Event String)
before_it = response_came (0 ∷ 0 ∷ 5 ∷ []) ∷ []

abbrev after_it : List (Event String)
after_it = response_came (1 ∷ 0 ∷ 8 ∷ []) ∷ closes ∷ []

callable :
    IsCallable wire wire raw requests responses timer config services "echo" "say"
      (7 ∷ [])
      asked
      echo
      0
      (7 ∷ [])
      (1 ∷ 0 ∷ 7 ∷ [])
      (1 ∷ 0 ∷ 7 ∷ [])
      5
unfolding run step serialize deserialize format_method_name contains get to_response frame_codec
callable = record {
  payload_bytes = refl;
  request_bytes = refl;
  request_taken = λ before. refl;
  dotless = refl;
  registered = refl;
  takes = refl;
  in_time = omega arith;
  response_bytes = refl;
  response_taken = λ before. refl;
}

call-served_example :
    (sent : Shared String) × (sent.message_stream ≡ some (with_sent ((1 ∷ 0 ∷ 7 ∷ []) ∷ []) asking))
    × (handle_message timer config services wire requests responses (1 ∷ 0 ∷ 7 ∷ []) asking 0
        ≡ (ok tt, with_sent ((1 ∷ 0 ∷ 7 ∷ []) ∷ []) asking, 1))
    × (call wire raw requests raw json
          (amid wire responses json
            (before_it ++ response_came (1 ∷ 0 ∷ 7 ∷ []) ∷ after_it)
            afterwards)
          (format_method_name "echo" "say")
          (7 ∷ [])
          asked
        ≡ (
          ok (7 ∷ []),
          run wire responses json afterwards (
              run wire responses json
                (before_it ++ response_came (1 ∷ 0 ∷ 7 ∷ []) ∷ after_it)
                sent),
        ))
unfolding run step serialize deserialize frame_codec Transport.new finish_call
call-served_example =
    call-served wire wire raw requests responses raw timer config services requests-IsLawful
      responses-IsLawful earlier before_it after_it afterwards "echo" "say" (7 ∷ []) asked asking
      asking echo 0 (7 ∷ []) (1 ∷ 0 ∷ 7 ∷ []) (1 ∷ 0 ∷ 7 ∷ []) 5 refl callable refl refl refl refl
      (tt, (tt, (tt, (tt, tt))))
