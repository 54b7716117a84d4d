-- ===== src/Tests/Histories.antt =====
-- Two sessions of one server, interleaved, and registrations in two orders.
use quic_serve.Service.{Service}
use quic_serve.Prelude.{ℕ, List, [], ◌∷◌, All, string_eq}
use quic_serve.Error.{Error, ok}
use quic_serve.Message.{Request}
use quic_serve.Transport.{frame_codec, receive, send}
use quic_serve.Transport
use quic_serve.Server.{Server}
use quic_serve.Server.Sessions.{
  Task, new_task, Running, Happening, goes_on, registers, accepts, history,
}
use quic_serve.Server.Sessions.Answered.{IsAnswered, history-IsAnswered}
use quic_serve.Tests.Toy.{requests, responses, responses-IsLawful}
use quic_serve.Tests.Setup.{wire, timer, echo, stuck, services, config}

abbrev empty : Running ℕ
empty = record { services = []; world = 0; tasks = [] }

-- The first session hears a request before the service is there, and another one afterwards; the
-- second session's call is in flight meanwhile.
abbrev crossed : List (Happening ℕ)
crossed =
    accepts (ok (1 ∷ 0 ∷ 7 ∷ []) ∷ ok (2 ∷ 0 ∷ 8 ∷ []) ∷ [])
    ∷ accepts (ok (5 ∷ 0 ∷ 9 ∷ []) ∷ [])
    ∷ registers "echo" echo
    ∷ goes_on 1
    ∷ goes_on 0
    ∷ goes_on 0
    ∷ goes_on 1
    ∷ goes_on 0
    ∷ []

history-IsAnswered_example :
    All
      (IsAnswered timer config wire requests responses)
      (history timer config wire requests responses crossed empty).tasks
history-IsAnswered_example =
    history-IsAnswered timer config wire requests responses crossed empty responses-IsLawful tt

abbrev waiting_task : Task ℕ
waiting_task = new_task (ok (1 ∷ 0 ∷ 7 ∷ []) ∷ [])

abbrev pair : Running ℕ
pair = record { services = services; world = 0; tasks = new_task [] ∷ waiting_task ∷ [] }

abbrev enough : List (Happening ℕ)
enough = goes_on 1 ∷ goes_on 0 ∷ goes_on 1 ∷ registers "echo" stuck ∷ goes_on 1 ∷ goes_on 1 ∷ []

abbrev server : Server ℕ ℕ
server = record { config = config; endpoint = 0; services = services }

abbrev request : Request
request = record { id = 1; method = "echo.say"; payload = [] }
