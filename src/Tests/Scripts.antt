-- ===== src/Tests/Scripts.antt =====
-- The example client, on a network where everything works, and with its response handler in the way.
use quic_serve.Prelude.{
  arith, zero, suc, ◌+◌, ◌<◌, ◌≤◌, inl, inr, Bool-cases, ==→≡, ◌==◌, sym, subst, true, false, ℕ,
  ◌≡◌, refl, String, Option, some, List, [], ◌∷◌, nat_eq,
}
use quic_serve.Error.{connection_closed, Result, ok}
use quic_serve.Message.{Bytes, serialize, deserialize}
use quic_serve.Transport.{BidiStream}
use quic_serve.Transport
use quic_serve.Config.Quinn.{ClientConfig}
use quic_serve.Config.Client.{build_client_config}
use quic_serve.Client.{Shared, Channel, initial}
use quic_serve.Client.Calls.{waiting}
use quic_serve.Client.Wait.{Waited, received}
use quic_serve.Client.Events.{handler_starts, run}
use quic_serve.Client.Lifecycle.{Client, Network, establish, connected, close}
use quic_serve.Client.Lifecycle
use quic_serve.Cli.Exit.{Exit, from_error, finished, exited}
use quic_serve.Examples.Conversation.{client_config}
use quic_serve.Examples.Echo.{EchoResponse}
use quic_serve.Examples.Script.{Others, Messages, Responses, begins, ends, TaskStep, main}
use quic_serve.Examples.Script.Done.{IsDone}
use quic_serve.Examples.Script.Ends.{main-ends, main-connection_closed}
use quic_serve.Examples.Script.Schedule.{
  WaitEnds, ends_now, ends_later, IsScheduled, begins_now, begins_later,
}
use quic_serve.Tests.Setup.{asking, wire}
use quic_serve.Tests.Configs.{tls}
use quic_serve.Tests.Commands.{net}
use quic_serve.Tests.Machines.{silent}
use quic_serve.Tests.Toy.{responses}

abbrev messages : Messages ℕ
messages = record {
  request = silent (record { id = 0; method = ""; payload = [] });
  echo_request = silent (record { message = "" });
  echo_response = silent (record { message = "Echo" });
  matrix_request = silent (record { size = 0 });
  matrix_response = silent (record { result = (1 ∷ 2 ∷ []) ∷ []; elapsed_ms = 3 });
}

abbrev answered : ℕ → Channel → Shared String → Waited × Shared String
answered i c s = (received (ok []), s)

-- All tasks begin, the last first, and then their waits end.
abbrev ends_from : ℕ → ℕ → List TaskStep
ends_from zero i = []
ends_from (suc left) i = ends i ∷ ends_from left (suc i)

abbrev all_begin : ℕ → List TaskStep → List TaskStep
all_begin zero steps = steps
all_begin (suc n) steps = begins n ∷ all_begin n steps

abbrev order : List TaskStep
order = all_begin 10 (ends_from 10 0)

ends_from-WaitEnds : (left j i : ℕ) → j ≤ i → i < j + left → WaitEnds i (ends_from left j)
ends_from-WaitEnds zero j i low high = absurd (omega arith)
ends_from-WaitEnds (suc left) j i low high = elim (Bool-cases (j == i)) [
  | inl hit ↦
      subst (λ k. WaitEnds i (ends k ∷ ends_from left (suc j))) (sym (==→≡ j i hit)) ends_now
  | inr miss ↦ ends_later (ends_from-WaitEnds left (suc j) i (ground arith) (omega arith))
]

all_begin-WaitEnds :
    (n i : ℕ) (steps : List TaskStep) → WaitEnds i steps → WaitEnds i (all_begin n steps)
all_begin-WaitEnds zero i steps waits = waits
all_begin-WaitEnds (suc n) i steps waits = ends_later (all_begin-WaitEnds n i steps waits)

all_begin-IsScheduled :
    (n i : ℕ) (steps : List TaskStep) → i < n → WaitEnds i steps → IsScheduled i (all_begin n steps)
all_begin-IsScheduled zero i steps high waits = absurd (omega arith)
all_begin-IsScheduled (suc n) i steps high waits = elim (Bool-cases (n == i)) [
  | inl hit ↦
      subst (λ k. IsScheduled i (begins k ∷ all_begin n steps)) (sym (==→≡ n i hit))
        (begins_now (all_begin-WaitEnds n i steps waits))
  | inr miss ↦ begins_later (all_begin-IsScheduled n i steps (ground arith) waits)
]

order-IsScheduled : (i : ℕ) → i < 10 → IsScheduled i order
order-IsScheduled i high =
    all_begin-IsScheduled 10 i (ends_from 10 0) high (ends_from-WaitEnds 10 0 i (omega arith) high)

-- The response handler ends once the client is closed.
abbrev late : Shared String → Shared String
late s = record s { message_stream = some asking }

abbrev helpful : Others String
helpful = record {
  before = λ k s. s;
  during = answered;
  schedule = order;
  during_task = answered;
  after = late;
}

abbrev echo : EchoResponse
echo = record { message = "Echo" }

abbrev all : Responses ℕ
all = record {
  echo = echo;
  matrix = record { result = (1 ∷ 2 ∷ []) ∷ []; elapsed_ms = 3 };
  parallel = echo ∷ echo ∷ echo ∷ echo ∷ echo ∷ echo ∷ echo ∷ echo ∷ echo ∷ echo ∷ [];
}

abbrev made : Result String ℕ
made = ok 0

abbrev kept : ClientConfig Bytes → ℕ → ℕ
kept config e = e

main-ends_example :
    (x : Exit (Responses ℕ)) × (o : Option (Shared String)) × (main tls made kept net wire messages
        helpful true
      ≡ (some x, o))
    × ((l : Responses ℕ)
        → x ≡ finished l
        → (s : Shared String) × (o ≡ some s) × IsDone wire messages helpful true l s)
main-ends_example = main-ends tls made kept net wire messages helpful true order-IsScheduled

-- On this network all goes well.
main-eq-finished : (main tls made kept net wire messages helpful true).0 ≡ some (finished all)
unfolding main Lifecycle.new build_client_config serialize Transport.send Transport.new deserialize
main-eq-finished = refl

-- The response handler starts before each call of `main`.
abbrev in_the_way : Others String
in_the_way = record helpful {
  before = λ k s. run wire responses client_config.format (handler_starts ∷ []) s;
}

abbrev stream : BidiStream
stream = record { inbox = []; sent = [] }

abbrev client : Client String ℕ
client = record { config = client_config; endpoint = 0; shared = initial }

abbrev handled : Shared String
handled =
    run wire responses client_config.format (handler_starts ∷ [])
      (connected "/rpc" stream client.shared)

main-connection_closed_example :
    main tls made kept net wire messages in_the_way false
    ≡ (some (exited (from_error connection_closed)), some (waiting handled))
unfolding Lifecycle.new build_client_config establish serialize connected
main-connection_closed_example =
    main-connection_closed tls made kept net wire messages in_the_way false client "/rpc" stream []
      [] [] responses handled refl refl refl refl tt refl refl
