-- ===== src/Examples/Script/Ends.antt =====
-- How `main` of examples/rpc_client.rs ends.
use quic_serve.Prelude.{
  Bool, true, false, ℕ, ◌<◌, String, ◌≡◌, refl, sym, ap, ◌∙◌, Option, none, some, List, ◌∷◌, All,
  subst, inl, nat_eq,
}
use quic_serve.Error.{Error, connection_closed, Result, ok, err}
use quic_serve.Message.{Bytes, Response, Codec, serialize}
use quic_serve.Transport.{BidiStream, Wire}
use quic_serve.Config.Quinn.{Tls, ClientConfig, done}
use quic_serve.Client.{Shared, begin_call}
use quic_serve.Client.Calls.{next_request, waiting, KeepsNone, begin_call-while_handling}
use quic_serve.Client.Events.{Event, handler_starts, run}
use quic_serve.Client.Lifecycle.{Client, Network, establish, connected, close}
use quic_serve.Client.Lifecycle
use quic_serve.Client.Whole.{call}
use quic_serve.Cli.Exit.{Exit, from_error, finished, exited, crashed, try_outcome}
use quic_serve.Examples.Echo.{EchoResponse}
use quic_serve.Examples.Matrix.{nth}
use quic_serve.Examples.Compute.{MatrixResponse}
use quic_serve.Examples.Conversation.{client_config}
use quic_serve.Examples.Script.{
  echo_call, matrix_call, calls, Others, Messages, Responses, and_then, joined, in_parallel, sized,
  with_client, main, Ending,
}
use quic_serve.Examples.Script.Schedule.{IsScheduled, Has, run_tasks-IsScheduled}
use quic_serve.Examples.Script.Awaits.{get-spawn, await_all-some}
use quic_serve.Examples.Script.Done.{IsDone, main-IsDone}

and_then-Has :
    {Session A F : Type 0} (x : Result Error A × Shared Session)
    (k : A → Shared Session → Ending F Session)
    → ((a : A) (s : Shared Session) → Has (k a s).0)
    → Has (and_then x k).0
and_then-Has (err e, s) k h = (exited (from_error e), refl)
and_then-Has (ok a, s) k h = h a s

joined-Has :
    {Session F : Type 0} (after : Shared Session → Shared Session) (echo : EchoResponse)
    (matrix : MatrixResponse F) (o : Option (Result Error (List EchoResponse))) (s : Shared Session)
    → Has o
    → Has (joined after echo matrix o s).0
unfolding close
joined-Has after echo matrix none s (r, found) = cc
joined-Has after echo matrix (some (err e)) s found = (exited (from_error e), refl)
joined-Has after echo matrix (some (ok rs)) s found =
    (finished (record { echo = echo; matrix = matrix; parallel = rs }), refl)

module _ {Session F : Type 0} (wire : Wire) (messages : Messages F) (others : Others Session) where
  in_parallel-Has :
      (echo : EchoResponse) (matrix : MatrixResponse F) (s : Shared Session)
      → ((i : ℕ) → i < 10 → IsScheduled i others.schedule)
      → Has (in_parallel wire messages others echo matrix s).0
  in_parallel-Has echo matrix s scheduled = joined-Has others.after echo matrix _ _ (
      await_all-some 10 0 _ (λ i low high.
        run_tasks-IsScheduled wire messages others others.schedule i _ (scheduled i high)
          (inl (get-spawn 10 0 i low high))))

  sized-Has :
      (info : Bool) (echo : EchoResponse) (matrix : MatrixResponse F) (o : Option (List F))
      (s : Shared Session)
      → ((i : ℕ) → i < 10 → IsScheduled i others.schedule)
      → Has (sized wire messages others info echo matrix o s).0
  sized-Has true echo matrix none s scheduled = (crashed, refl)
  sized-Has true echo matrix (some row) s scheduled = in_parallel-Has echo matrix s scheduled
  sized-Has false echo matrix o s scheduled = in_parallel-Has echo matrix s scheduled

  calls-Has :
      (info : Bool) (s : Shared Session)
      → ((i : ℕ) → i < 10 → IsScheduled i others.schedule)
      → Has (calls wire messages others info s).0
  calls-Has info s scheduled = and_then-Has (echo_call wire messages others s) _ (λ echo s1.
      and_then-Has (matrix_call wire messages others s1) _
        (λ matrix s2. sized-Has info echo matrix (nth 0 matrix.result) s2 scheduled))

module _ {Session Endpoint Store F : Type 0} (tls : Tls Store)
    (make_endpoint : Result String Endpoint)
    (set_default_client_config : ClientConfig Store → Endpoint → Endpoint) (net : Network Session)
    (wire : Wire) (messages : Messages F) (others : Others Session) (info : Bool) where
  with_client-Has :
      (x : Exit (Client Session Endpoint))
      → ((i : ℕ) → i < 10 → IsScheduled i others.schedule)
      → Has
          (with_client tls make_endpoint set_default_client_config net wire messages others info
            x).0
  with_client-Has (exited x) scheduled = (exited x, refl)
  with_client-Has crashed scheduled = (crashed, refl)
  with_client-Has (finished client) scheduled =
      and_then-Has (Lifecycle.connect net client.config client.shared) _
        (λ _ s. calls-Has wire messages others info s scheduled)

  -- The example client ends, by an error or not, in whatever order its ten tasks take their steps and
  -- whatever its other tasks do in between, if each of the ten gets to its call and its wait then ends. If
  -- it finishes without an error, then its ten responses are those that the tasks 0 to 9 have returned, in
  -- this order; if messages of level `info` are logged, the matrix that it got has a row; and it has closed
  -- its client: no session, no stream, no pending request. If after that and before the client is dropped
  -- only the response handler goes on, then there still is no session and no pending request, and no
  -- stream either unless the handler ends and puts back the one that it had taken.
  pub main-ends :
      ((i : ℕ) → i < 10 → IsScheduled i others.schedule)
      → (x : Exit (Responses F)) × (o : Option (Shared Session)) × (main tls make_endpoint
            set_default_client_config net wire messages others info
          ≡ (some x, o))
        × ((l : Responses F)
            → x ≡ finished l
            → (s : Shared Session) × (o ≡ some s) × IsDone wire messages others info l s)
  unfolding main
  main-ends scheduled =
      let (x, ends) =
        with_client-Has
          (try_outcome (Lifecycle.new tls make_endpoint set_default_client_config client_config))
          scheduled in
      let o = (main tls make_endpoint set_default_client_config net wire messages others info).1 in
      let e : main tls make_endpoint set_default_client_config net wire messages others info
          ≡ (some x, o) =
        ap (λ y. (y, o)) ends in
      (
        x,
        o,
        e,
        λ l same.
            main-IsDone tls make_endpoint set_default_client_config net wire messages others info l
              o (e ∙ ap (λ y. (some y, o)) same),
      )

  -- If the example client can be made and connects, its first request can be serialized, and the response
  -- handler starts before that call, whatever else goes on but another connection or the end of the
  -- handler, then it ends with `ConnectionClosed` at this call, which leaves a pending entry behind.
  pub main-connection_closed :
      (client : Client Session Endpoint) (session : Session) (stream : BidiStream)
      (es : List (Event Session)) (payload b : Bytes) (responses : Codec Response)
      (s : Shared Session)
      → Lifecycle.new tls make_endpoint set_default_client_config client_config ≡ done client
      → establish net client.config ≡ ok (session, stream)
      → s
        ≡ run wire responses client_config.format
            (handler_starts ∷ es)
            (connected session stream client.shared)
      → others.before 0 (connected session stream client.shared) ≡ s
      → All
          (KeepsNone wire messages.echo_request messages.request client_config.format responses)
          es
      → serialize messages.echo_request
          (record { message = "Hello, QuicServe!" })
          client_config.format
        ≡ ok payload
      → serialize messages.request (next_request "echo.echo" payload s) client_config.format ≡ ok b
      → main tls make_endpoint set_default_client_config net wire messages others info
        ≡ (some (exited (from_error connection_closed)), some (waiting s))
  unfolding main Lifecycle.connect echo_call call
  main-connection_closed client session stream es payload b responses s made opened now before keeps
        p r =
      let refused : begin_call wire messages.echo_request messages.request client_config.format
            "echo.echo" (record { message = "Hello, QuicServe!" }) s
          ≡ (err connection_closed, waiting s) =
        subst
          (λ x.
            begin_call wire messages.echo_request messages.request client_config.format "echo.echo"
              (record { message = "Hello, QuicServe!" }) x
            ≡ (err connection_closed, waiting x))
          (sym now)
          (begin_call-while_handling wire messages.echo_request messages.request
            client_config.format responses "echo.echo" (record { message = "Hello, QuicServe!" })
            (connected session stream client.shared) es payload b keeps p
            (subst
              (λ x.
                serialize messages.request (next_request "echo.echo" payload x) client_config.format
                ≡ ok b)
              now r)) in
      rw (made, opened, before, refused) refl
