-- ===== src/Cli/Closes.antt =====
-- How `run_client` of src/bin/quicserve.rs leaves its client.
use quic_serve.Prelude.{String, ◌≡◌, refl, Option, some}
use quic_serve.Error.{Error, Result, ok, err}
use quic_serve.Message.{Bytes}
use quic_serve.Config.{SocketAddr}
use quic_serve.Config.Quinn.{Tls, ClientConfig}
use quic_serve.Client.{Shared}
use quic_serve.Client.Lifecycle.{Client, Network, connect, close}
use quic_serve.Client.Closing.{IsDropped, IsClosed-IsDropped}
use quic_serve.Cli.{ClientArgs}
use quic_serve.Cli.Exit.{Exit, finished, exited, crashed}
use quic_serve.Cli.Connect.{
  then_close, after_connect, input_or_wait, with_client, prepare_client, run_client,
}

module _ {Session Endpoint Store : Type 0} (tls : Tls Store)
    (make_endpoint : Result String Endpoint)
    (set_default_client_config : ClientConfig Store → Endpoint → Endpoint) (net : Network Session)
    (parse : String → Result String SocketAddr) (read : String → Result String Bytes)
    (ctrl_c : Result String (Unit {0})) (meanwhile after : Shared Session → Shared Session) where
  -- The end of a command, if it finishes, with a client that was closed.
  abbrev pub Closes : Exit (Unit {0}) × Option (Shared Session) → Type 0
  Closes (r, o) = r ≡ finished tt → (s : Shared Session) × (o ≡ some s) × IsDropped after s

  then_close-Closes :
      (x : Exit (Unit {0})) (s : Shared Session)
      → let y =
          then_close tls make_endpoint set_default_client_config net parse read ctrl_c meanwhile
            after x s in
        Closes (y.0, some y.1)
  unfolding close
  then_close-Closes (finished _) s h =
      (_, refl, IsClosed-IsDropped after (close s).1 (refl, refl, refl))
  then_close-Closes (exited e) s h = cc
  then_close-Closes crashed s h = cc

  after_connect-Closes :
      (args : ClientArgs) (x : Result Error (Unit {0}) × Shared Session)
      → let y =
          after_connect tls make_endpoint set_default_client_config net parse read ctrl_c meanwhile
            after args x in
        Closes (y.0, some y.1)
  after_connect-Closes args (ok _, s) =
      then_close-Closes
        (input_or_wait tls make_endpoint set_default_client_config net parse read ctrl_c meanwhile
          after args.method args.input)
        (meanwhile s)
  after_connect-Closes args (err e, s) = λ h. cc

  with_client-Closes :
      (args : ClientArgs) (x : Exit (Client Session Endpoint))
      → Closes (
          with_client tls make_endpoint set_default_client_config net parse read ctrl_c meanwhile
            after args x)
  with_client-Closes args (finished client) =
      after_connect-Closes args (connect net client.config client.shared)
  with_client-Closes args (exited e) = λ h. cc
  with_client-Closes args crashed = λ h. cc

  -- If the client command finishes without an error, whatever its client's other tasks did in between,
  -- then it has closed its client: no session, no stream, no pending request. If after that and before
  -- the client is dropped only the response handler goes on, then there still is no session and no pending
  -- request, and no stream either unless the handler ends and puts back the one that it had taken.
  pub run_client-Closes :
      (args : ClientArgs)
      → (run_client tls make_endpoint set_default_client_config net parse read ctrl_c meanwhile
          after args).0
        ≡ finished tt
      → (s : Shared Session) × ((run_client tls make_endpoint set_default_client_config net parse
            read ctrl_c meanwhile after args).1
          ≡ some s)
        × IsDropped after s
  unfolding run_client
  run_client-Closes args h =
      with_client-Closes args
        (prepare_client tls make_endpoint set_default_client_config net parse read ctrl_c meanwhile
          after args)
        h
