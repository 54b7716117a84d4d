-- ===== src/Server/Sessions/Answered.antt =====
-- Whatever else happens on a server, each session answers its own requests, in their order:
-- src/server.rs.
use quic_serve.Prelude.{
  ℕ, zero, suc, ◌≤◌, ◌≡◌, refl, sym, ap, subst, ◌∙◌, String, Option, none, some, List, [], ◌∷◌,
  ◌++◌, append-nil, All, All-append, length, get, string_eq, arith,
}
use quic_serve.Error.{Error, Result, ok, err}
use quic_serve.Message.{Bytes, Request, Response, Codec, serialize, deserialize}
use quic_serve.Message.RoundTrip.{IsLawful, deserialize-serialize}
use quic_serve.Transport.{MessageStream, Wire, receive, send, next, written}
use quic_serve.Transport
use quic_serve.Utils.Format.{splitn}
use quic_serve.Config.{Config}
use quic_serve.Service.{Service, Timer}
use quic_serve.Server.{Services}
use quic_serve.Server.Session.{send_response}
use quic_serve.Server.Session.Dispatch.{IsAnswer, failure-IsAnswer, to_response-IsAnswer}
use quic_serve.Server.Session.Answering.{AreAnswers, AreAnswers-append}
use quic_serve.Server.Sessions.{
  Call, Task, new_task, Running, replied, reply, look_up, route_to, hear_request, hear_from, hear,
  end_call, turn_of, turn, turn_at, Happening, goes_on, registers, accepts, happen, history,
}

-- The requests that have no answer yet: none between two of them, the one whose call is in flight, and
-- at most one where the session has ended.
abbrev Unanswered :
    {World : Type 0}
    → Option (Result Error (Unit {0}))
    → Option (Call World)
    → List Request
    → Type 0
Unanswered none none rest = rest ≡ []
Unanswered none (some call) rest = rest ≡ call.request ∷ []
Unanswered (some _) calling rest = length rest ≤ 1

at_outcome :
    {World : Type 0} (rest : List Request) (o o' : Option (Result Error (Unit {0})))
    (c c' : Option (Call World))
    → o ≡ o'
    → c ≡ c'
    → Unanswered o c rest
    → Unanswered o' c' rest
at_outcome rest o o' c c' p q u =
    subst (λ x. Unanswered x c' rest) p (subst (λ y. Unanswered o y rest) q u)

module _ {World : Type 0} (timer : Timer) (config : Config) (wire : Wire) (requests : Codec Request)
    (responses : Codec Response) where
  -- What the session has written are, one for one and in order, responses that answer the requests
  -- that it has heard, but for those that have no answer yet.
  abbrev pub IsAnswered : Task World → Type 0
  IsAnswered t =
      (hs : List Request) × (rest : List Request) × (t.heard ≡ hs ++ rest)
      × AreAnswers responses config.format hs t.stream.sent
      × Unanswered t.outcome t.calling rest

  -- The task has heard one more request than it has answered.
  abbrev Owes : Request → Task World → Type 0
  Owes r t =
      (hs : List Request) × (t.heard ≡ hs ++ r ∷ [])
      × AreAnswers responses config.format hs t.stream.sent
      × (t.outcome ≡ none)

  written-IsAnswered :
      (r : Request) (a : Response) (b : Bytes) (t : Task World) (x : Result String (Unit {0}))
      → IsAnswer r.id a
      → deserialize responses b config.format ≡ ok a
      → Owes r t
      → IsAnswered (replied timer config wire requests responses (written b t.stream x) t)
  written-IsAnswered r a b t (ok _) i d (hs, heard, answers, running) = (
    hs ++ r ∷ [],
    [],
    heard ∙ sym (append-nil (hs ++ r ∷ [])),
    AreAnswers-append responses config.format hs t.stream.sent r b answers (a, d, i),
    rw running refl,
  )
  written-IsAnswered r a b t (err e) i d (hs, heard, answers, running) =
      (hs, r ∷ [], heard, answers, omega arith)

  sent-IsAnswered :
      (r : Request) (a : Response) (t : Task World) (x : Result Error Bytes)
      → IsLawful responses
      → IsAnswer r.id a
      → serialize responses a config.format ≡ x
      → Owes r t
      → IsAnswered (
          replied timer config wire requests responses
            (send_response {World = World} timer config [] wire requests responses x t.stream)
            t)
  unfolding send
  sent-IsAnswered r a t (ok b) lawful i e owes =
      written-IsAnswered r a b t (wire.accepts t.stream.codec t.stream.sent b) i
        (deserialize-serialize responses lawful a config.format b e) owes
  sent-IsAnswered r a t (err e') lawful i e (hs, heard, answers, running) =
      (hs, r ∷ [], heard, answers, omega arith)

  reply-IsAnswered :
      (r : Request) (a : Response) (t : Task World)
      → IsLawful responses
      → IsAnswer r.id a
      → Owes r t
      → IsAnswered (reply timer config wire requests responses a t)
  reply-IsAnswered r a t lawful i owes =
      sent-IsAnswered r a t (serialize responses a config.format) lawful i refl owes

  look_up-IsAnswered :
      (r : Request) (name method : String) (s : Option (Service World)) (t : Task World)
      → IsLawful responses
      → Owes r t
      → IsAnswered (look_up timer config wire requests responses r name method s t)
  look_up-IsAnswered r name method none t lawful owes =
      reply-IsAnswered r _ t lawful (failure-IsAnswer r.id _) owes
  look_up-IsAnswered r name method (some s) t lawful (hs, heard, answers, running) =
      (hs, r ∷ [], heard, answers, rw running refl)

  route_to-IsAnswered :
      (services : Services World) (r : Request) (parts : List String) (t : Task World)
      → IsLawful responses
      → Owes r t
      → IsAnswered (route_to timer config wire requests responses services r parts t)
  route_to-IsAnswered services r (name ∷ method ∷ []) t lawful owes =
      look_up-IsAnswered r name method (get name services) t lawful owes
  route_to-IsAnswered services r _ t lawful owes =
      reply-IsAnswered r _ t lawful (failure-IsAnswer r.id _) owes

  -- A task that has answered all that it has heard.
  abbrev Idle : Task World → Type 0
  Idle t =
      AreAnswers responses config.format t.heard t.stream.sent
      × (t.outcome ≡ none)
      × (t.calling ≡ none)

  hear_request-IsAnswered :
      (services : Services World) (r : Result Error Request) (t : Task World)
      → IsLawful responses
      → Idle t
      → IsAnswered (hear_request timer config wire requests responses services r t)
  hear_request-IsAnswered services (err e) t lawful (answers, running, free) =
      (t.heard, [], sym (append-nil t.heard), answers, omega arith)
  hear_request-IsAnswered services (ok request) t lawful (answers, running, free) =
      route_to-IsAnswered services request (splitn request.method)
        (record t { heard = t.heard ++ request ∷ [] }) lawful (t.heard, refl, answers, running)

  hear_next-IsAnswered :
      (services : Services World) (frames : List (Result String Bytes)) (t : Task World)
      → IsLawful responses
      → Idle t
      → IsAnswered
          (hear_from timer config wire requests responses services (next frames t.stream) t)
  hear_next-IsAnswered services [] t lawful (answers, running, free) =
      (t.heard, [], sym (append-nil t.heard), answers, omega arith)
  hear_next-IsAnswered services (ok b ∷ frames) t lawful idle =
      hear_request-IsAnswered services (deserialize requests b config.format) _ lawful idle
  hear_next-IsAnswered services (err e ∷ frames) t lawful (answers, running, free) =
      (t.heard, [], sym (append-nil t.heard), answers, omega arith)

  turn_of-IsAnswered :
      (services : Services World) (w : World) (t : Task World)
      (outcome : Option (Result Error (Unit {0}))) (calling : Option (Call World))
      → IsLawful responses
      → t.outcome ≡ outcome
      → t.calling ≡ calling
      → IsAnswered t
      → IsAnswered (turn_of timer config wire requests responses outcome calling services w t).0
  unfolding hear end_call receive
  turn_of-IsAnswered services w t (some r) calling lawful o c h = h
  turn_of-IsAnswered services w t none (some call) lawful o c (hs, rest, heard, answers, u) =
      let owed : rest ≡ call.request ∷ [] = at_outcome rest _ none _ (some call) o c u in
      reply-IsAnswered call.request _ t lawful (to_response-IsAnswer call.request.id _)
        (hs, heard ∙ ap (λ x. hs ++ x) owed, answers, o)
  turn_of-IsAnswered services w t none none lawful o c (hs, rest, heard, answers, u) =
      let clear : rest ≡ [] = at_outcome rest _ none _ none o c u in
      let all : t.heard ≡ hs = heard ∙ ap (λ x. hs ++ x) clear ∙ append-nil hs in
      hear_next-IsAnswered services t.stream.inbox t lawful
        (subst (λ x. AreAnswers responses config.format x t.stream.sent) (sym all) answers, o, c)

  turn_at-IsAnswered :
      (n : ℕ) (services : Services World) (w : World) (tasks : List (Task World))
      → IsLawful responses
      → All IsAnswered tasks
      → All IsAnswered (turn_at timer config wire requests responses n services w tasks).0
  unfolding turn_at turn
  turn_at-IsAnswered n services w [] lawful h = tt
  turn_at-IsAnswered zero services w (t ∷ tasks) lawful (h, hs) =
      (turn_of-IsAnswered services w t t.outcome t.calling lawful refl refl h, hs)
  turn_at-IsAnswered (suc n) services w (t ∷ tasks) lawful (h, hs) =
      (h, turn_at-IsAnswered n services w tasks lawful hs)

  happen-IsAnswered :
      (h : Happening World) (s : Running World)
      → IsLawful responses
      → All IsAnswered s.tasks
      → All IsAnswered (happen timer config wire requests responses h s).tasks
  unfolding happen Transport.new
  happen-IsAnswered (goes_on n) s lawful k =
      turn_at-IsAnswered n s.services s.world s.tasks lawful k
  happen-IsAnswered (registers name service) s lawful k = k
  happen-IsAnswered (accepts frames) s lawful k =
      All-append IsAnswered s.tasks (new_task frames ∷ []) k (([], [], refl, tt, refl), tt)

  -- However the sessions of a server are interleaved with each other, with registrations and with new
  -- sessions, what each session has written are, one for one and in order, responses to the requests
  -- that it has heard, each with its request's id and either a payload or an error. No answer is
  -- missing but that of the call which is in flight, or of the last request where the session has
  -- ended.
  pub history-IsAnswered :
      (hs : List (Happening World)) (s : Running World)
      → IsLawful responses
      → All IsAnswered s.tasks
      → All IsAnswered (history timer config wire requests responses hs s).tasks
  unfolding history
  history-IsAnswered [] s lawful k = k
  history-IsAnswered (h ∷ hs) s lawful k =
      history-IsAnswered hs (happen timer config wire requests responses h s) lawful
        (happen-IsAnswered h s lawful k)
