-- ===== src/Examples/Script.antt =====
-- `main` of examples/rpc_client.rs, on the client of src/client.rs, after `env_logger::init`. Log messages
-- are left out, but for the index of one, which may panic; what they show is of the responses that `main`
-- here finishes with. A clone of the client shares the client's state; what its drop does to the
-- connection is among what goes on during the waits.
pub mod Schedule
pub mod Awaits
pub mod Done
pub mod Ends
use quic_serve.Prelude.{
  ℕ, zero, suc, Bool, true, false, String, ◌<>◌, decimal, Option, none, some, List, [], ◌∷◌, Assoc,
  get, insert, remove, nat_eq,
}
use quic_serve.Error.{Error, Result, ok, err}
use quic_serve.Message.{Request, Codec, SerializationFormat}
use quic_serve.Transport.{Wire}
use quic_serve.Config.Quinn.{Tls, ClientConfig}
use quic_serve.Client.{Channel, Shared, begin_call}
use quic_serve.Client.Wait.{Waited, finish_call}
use quic_serve.Client.Whole.{call}
use quic_serve.Client.Lifecycle.{Client, Network, close}
use quic_serve.Client.Lifecycle
use quic_serve.Cli.Exit.{Exit, from_error, finished, exited, crashed, try_outcome}
use quic_serve.Examples.Matrix.{nth}
use quic_serve.Examples.Echo.{EchoRequest, EchoResponse}
use quic_serve.Examples.Compute.{MatrixRequest, MatrixResponse}
use quic_serve.Examples.Conversation.{client_config}

-- The ten tasks, by their numbers: one gets to its call, or one's wait ends.
pub data TaskStep : Type 0 where
  begins ends : ℕ → TaskStep

-- What the client's other tasks do before the call of `main` with this number, and during its wait; in
-- which order the ten tasks take their steps, and what happens during the wait of each; and what they do
-- between `close` and the drop of the client.
pub record Others (Session : Type 0) : Type 0 where
  pub before : ℕ → Shared Session → Shared Session
  pub during : ℕ → Channel → Shared Session → Waited × Shared Session
  pub schedule : List TaskStep
  pub during_task : ℕ → Channel → Shared Session → Waited × Shared Session
  pub after : Shared Session → Shared Session

-- The tasks that have not begun, with the requests that they hold; the calls that wait; those that have
-- returned; and the client.
pub record Tasks (Session : Type 0) : Type 0 where
  pub spawned : Assoc ℕ EchoRequest
  pub waiting : Assoc ℕ Channel
  pub returned : Assoc ℕ (Result Error EchoResponse)
  pub shared : Shared Session

-- The responses to all calls.
pub record Responses (F : Type 0) : Type 0 where
  pub echo : EchoResponse
  pub matrix : MatrixResponse F
  pub parallel : List EchoResponse

-- prost's code for the messages.
pub record Messages (F : Type 0) : Type 0 where
  pub request : Codec Request
  pub echo_request : Codec EchoRequest
  pub echo_response : Codec EchoResponse
  pub matrix_request : Codec MatrixRequest
  pub matrix_response : Codec (MatrixResponse F)

-- `(0..10).map(|i| …).collect()`, with so many tasks to go, the next with number `i`.
unfoldable pub spawn : ℕ → ℕ → Assoc ℕ EchoRequest
spawn zero i = []
spawn (suc left) i = (i, record { message = "Parallel request " <> decimal i }) ∷ spawn left (suc i)

-- `let response = task.await??;`; `none` is a wait that does not end.
abbrev pub awaited :
    Option (Result Error EchoResponse)
    → Option (Result Error (List EchoResponse))
    → Option (Result Error (List EchoResponse))
awaited none rest = none
awaited (some (err e)) rest = some (err e)
awaited (some (ok r)) none = none
awaited (some (ok r)) (some (err e)) = some (err e)
awaited (some (ok r)) (some (ok rs)) = some (ok (r ∷ rs))

unfoldable pub await_all :
    ℕ → ℕ → Assoc ℕ (Result Error EchoResponse) → Option (Result Error (List EchoResponse))
unfolding get
await_all zero i returned = some (ok [])
await_all (suc left) i returned = awaited (get i returned) (await_all left (suc i) returned)

-- How `main` ends, if it does, and the client that it drops.
abbrev pub Ending : Type 0 → Type 0 → Type 0
Ending F Session = Option (Exit (Responses F)) × Shared Session

abbrev pub and_then :
    {Session A F : Type 0}
    → Result Error A × Shared Session
    → (A → Shared Session → Ending F Session)
    → Ending F Session
and_then (err e, s) rest = (some (exited (from_error e)), s)
and_then (ok a, s) rest = rest a s

abbrev pub closed :
    {Session F : Type 0}
    → (Shared Session → Shared Session)
    → Responses F
    → Shared Session
    → Ending F Session
closed after responses s = and_then (close s) λ _ s'. (some (finished responses), after s')

abbrev pub joined :
    {Session F : Type 0}
    → (Shared Session → Shared Session)
    → EchoResponse
    → MatrixResponse F
    → Option (Result Error (List EchoResponse))
    → Shared Session
    → Ending F Session
joined after echo matrix none s = (none, s)
joined after echo matrix (some (err e)) s = (some (exited (from_error e)), s)
joined after echo matrix (some (ok parallel)) s =
    closed after (record { echo = echo; matrix = matrix; parallel = parallel }) s

abbrev pub begun :
    {Session : Type 0} → ℕ → Result Error Channel × Shared Session → Tasks Session → Tasks Session
begun i (err e, s) t = record t { returned = insert i (err e) t.returned; shared = s }
begun i (ok c, s) t = record t { waiting = insert i c t.waiting; shared = s }

module _ {Session F : Type 0} (wire : Wire) (messages : Messages F) (others : Others Session) where
  abbrev pub ended : ℕ → Option Channel → Tasks Session → Tasks Session
  ended i none t = t
  ended i (some c) t =
      let (waited, s) = others.during_task i c t.shared in
      record t {
        waiting = remove i t.waiting;
        returned =
            insert i (finish_call messages.echo_response client_config.format waited) t.returned;
        shared = s;
      }

  abbrev pub beginning : ℕ → Option EchoRequest → Tasks Session → Tasks Session
  beginning i none t = t
  beginning i (some request) t =
      begun i
        (begin_call wire messages.echo_request messages.request client_config.format "echo.echo"
          request t.shared)
        (record t { spawned = remove i t.spawned })

  -- `async move { let response: EchoResponse = client.call("echo.echo", &request).await?; Ok(response) }`
  unfoldable pub task_step : TaskStep → Tasks Session → Tasks Session
  unfolding begin_call finish_call get insert remove
  task_step (begins i) t = beginning i (get i t.spawned) t
  task_step (ends i) t = ended i (get i t.waiting) t

  unfoldable pub run_tasks : List TaskStep → Tasks Session → Tasks Session
  unfolding task_step
  run_tasks [] t = t
  run_tasks (x ∷ steps) t = run_tasks steps (task_step x t)

  -- The tasks in the end, if they are spawned with the client in this state.
  abbrev pub all_tasks : Shared Session → Tasks Session
  all_tasks s =
      run_tasks others.schedule
        (record { spawned = spawn 10 0; waiting = []; returned = []; shared = s })

  abbrev pub in_parallel : EchoResponse → MatrixResponse F → Shared Session → Ending F Session
  in_parallel echo matrix s =
      let t = all_tasks s in joined others.after echo matrix (await_all 10 0 t.returned) t.shared

  -- `matrix_response.result[0].len()` panics if there is no row, and is evaluated if `info!` is enabled.
  abbrev pub sized :
      Bool → EchoResponse → MatrixResponse F → Option (List F) → Shared Session → Ending F Session
  sized true echo matrix none s = (some crashed, s)
  sized true echo matrix (some row) s = in_parallel echo matrix s
  sized false echo matrix first s = in_parallel echo matrix s

  -- The two calls of `main` itself.
  unfoldable pub echo_call : Shared Session → Result Error EchoResponse × Shared Session
  unfolding call
  echo_call s =
      call wire messages.echo_request messages.request messages.echo_response client_config.format
        (others.during 0) "echo.echo" (record { message = "Hello, QuicServe!" }) (others.before 0 s)

  unfoldable pub matrix_call : Shared Session → Result Error (MatrixResponse F) × Shared Session
  unfolding call
  matrix_call s =
      call wire messages.matrix_request messages.request messages.matrix_response
        client_config.format (others.during 1) "compute.matrix_multiply" (record { size = 100 })
        (others.before 1 s)

  abbrev pub calls : Bool → Shared Session → Ending F Session
  calls info s0 = and_then (echo_call s0) λ echo s1.
      and_then (matrix_call s1) λ matrix s2. sized info echo matrix (nth 0 matrix.result) s2

module _ {Session Endpoint Store F : Type 0} (tls : Tls Store)
    (make_endpoint : Result String Endpoint)
    (set_default_client_config : ClientConfig Store → Endpoint → Endpoint) (net : Network Session)
    (wire : Wire) (messages : Messages F) (others : Others Session) (info : Bool) where
  abbrev pub with_client :
      Exit (Client Session Endpoint) → Option (Exit (Responses F)) × Option (Shared Session)
  with_client (exited e) = (some (exited e), none)
  with_client crashed = (some crashed, none)
  with_client (finished client) =
      let (r, s) =
        and_then (Lifecycle.connect net client.config client.shared)
          λ _ s. calls wire messages others info s in
      (r, some s)

  -- How `main` ends, if it does, and in what state the client is dropped, if there is one.
  unfoldable pub main : Option (Exit (Responses F)) × Option (Shared Session)
  unfolding echo_call matrix_call spawn run_tasks await_all Lifecycle.connect close
  main =
      with_client
        (try_outcome (Lifecycle.new tls make_endpoint set_default_client_config client_config))
