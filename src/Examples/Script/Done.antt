-- ===== src/Examples/Script/Done.antt =====
-- What `main` of examples/rpc_client.rs has done once it has finished.
use quic_serve.Prelude.{
  Bool, true, false, ◌<◌, String, ◌≡◌, refl, sym, ap, Option, none, some, List, [], ◌∷◌, length,
  arith, subst, nat_eq,
}
use quic_serve.Error.{Error, Result, ok, err}
use quic_serve.Transport.{Wire}
use quic_serve.Config.Quinn.{Tls, ClientConfig}
use quic_serve.Client.{Shared}
use quic_serve.Client.Lifecycle.{Client, Network, establish, connected, close}
use quic_serve.Client.Lifecycle
use quic_serve.Cli.Exit.{Exit, finished, exited, crashed, try_outcome}
use quic_serve.Client.Closing.{IsDropped, IsClosed-IsDropped}
use quic_serve.Examples.Echo.{EchoResponse}
use quic_serve.Examples.Matrix.{nth}
use quic_serve.Examples.Compute.{MatrixResponse}
use quic_serve.Examples.Conversation.{client_config}
use quic_serve.Examples.Script.Awaits.{AreReturned, await_all-AreReturned}
use quic_serve.Examples.Script.{
  all_tasks, await_all, echo_call, matrix_call, calls, Others, Messages, Responses, and_then,
  joined, sized, with_client, main, Ending,
}

and_then-eq-finished :
    {Session A F : Type 0} (x : Result Error A × Shared Session)
    (k : A → Shared Session → Ending F Session) (l : Responses F) (s : Shared Session)
    → and_then x k ≡ (some (finished l), s)
    → (a : A) × (s1 : Shared Session) × (k a s1 ≡ (some (finished l), s))
and_then-eq-finished (ok a, s1) k l s e = (a, s1, e)
and_then-eq-finished (err x, s1) k l s e = cc

nth-eq-some : {A : Type 0} (l : List A) (a : A) → nth 0 l ≡ some a → 0 < length l
nth-eq-some [] a e = cc
nth-eq-some (x ∷ l) a e = omega arith

-- What is known once `main` has finished: the ten tasks were spawned with the client in the state
-- `spawned_with`.
pub record IsDone {Session F : Type 0} (wire : Wire) (messages : Messages F)
    (others : Others Session) (info : Bool) (l : Responses F) (s : Shared Session) : Type 0 where
  pub is_dropped : IsDropped others.after s
  pub has_row : info ≡ true → 0 < length l.matrix.result
  pub spawned_with : Shared Session
  pub all_ten : AreReturned 10 0 (all_tasks wire messages others spawned_with).returned l.parallel

module _ {Session F : Type 0} (wire : Wire) (messages : Messages F) (others : Others Session) where
  joined-IsDone :
      (info : Bool) (echo : EchoResponse) (matrix : MatrixResponse F)
      (o : Option (Result Error (List EchoResponse))) (s0 : Shared Session) (l : Responses F)
      (s : Shared Session)
      → (info ≡ true → 0 < length matrix.result)
      → await_all 10 0 (all_tasks wire messages others s0).returned ≡ o
      → joined others.after echo matrix o (all_tasks wire messages others s0).shared
        ≡ (some (finished l), s)
      → IsDone wire messages others info l s
  unfolding close
  joined-IsDone info echo matrix none s0 l s some_row awaits e = cc
  joined-IsDone info echo matrix (some (err x)) s0 l s some_row awaits e = cc
  joined-IsDone info echo matrix (some (ok rs)) s0 l s some_row awaits e =
      let all : Responses F = record { echo = echo; matrix = matrix; parallel = rs } in
      let same_l : all ≡ l = cc (ap (λ x. x.0) e) in
      let t = all_tasks wire messages others s0 in
      let same_s : others.after (close t.shared).1 ≡ s = ap (λ x. x.1) e in
      record {
        is_dropped =
            subst (IsDropped others.after) same_s
              (IsClosed-IsDropped others.after (close t.shared).1 (refl, refl, refl));
        has_row = subst (λ x. info ≡ true → 0 < length x.matrix.result) same_l some_row;
        spawned_with = s0;
        all_ten =
            subst (λ x. AreReturned 10 0 t.returned x.parallel) same_l
              (await_all-AreReturned 10 0 t.returned rs awaits);
      }

  sized-IsDone :
      (info : Bool) (echo : EchoResponse) (matrix : MatrixResponse F) (o : Option (List F))
      (s0 : Shared Session) (l : Responses F) (s : Shared Session)
      → nth 0 matrix.result ≡ o
      → sized wire messages others info echo matrix o s0 ≡ (some (finished l), s)
      → IsDone wire messages others info l s
  sized-IsDone true echo matrix none s0 l s first e = cc
  sized-IsDone true echo matrix (some row) s0 l s first e =
      joined-IsDone true echo matrix _ s0 l s (λ _. nth-eq-some matrix.result row first) refl e
  sized-IsDone false echo matrix o s0 l s first e =
      joined-IsDone false echo matrix _ s0 l s (λ enabled. cc) refl e

  calls-IsDone :
      (info : Bool) (s0 : Shared Session) (l : Responses F) (s : Shared Session)
      → calls wire messages others info s0 ≡ (some (finished l), s)
      → IsDone wire messages others info l s
  calls-IsDone info s0 l s e =
      let (echo, s1, e1) = and_then-eq-finished (echo_call wire messages others s0) _ l s e in
      let (response, s2, e2) =
        and_then-eq-finished (matrix_call wire messages others s1) _ l s e1 in
      sized-IsDone info echo response (nth 0 response.result) s2 l s refl e2

module _ {Session Endpoint Store F : Type 0} (tls : Tls Store)
    (make_endpoint : Result String Endpoint)
    (set_default_client_config : ClientConfig Store → Endpoint → Endpoint) (net : Network Session)
    (wire : Wire) (messages : Messages F) (others : Others Session) (info : Bool) where
  with_client-IsDone :
      (x : Exit (Client Session Endpoint)) (l : Responses F) (o : Option (Shared Session))
      → with_client tls make_endpoint set_default_client_config net wire messages others info x
        ≡ (some (finished l), o)
      → (s : Shared Session) × (o ≡ some s) × IsDone wire messages others info l s
  with_client-IsDone (exited x) l o e = cc
  with_client-IsDone crashed l o e = cc
  with_client-IsDone (finished client) l o e =
      let y : Ending F Session =
        and_then (Lifecycle.connect net client.config client.shared)
          (λ _ s. calls wire messages others info s) in
      let ends : y ≡ (some (finished l), y.1) = ap (λ q. (q.0, y.1)) e in
      let (_, s1, e1) =
        and_then-eq-finished (Lifecycle.connect net client.config client.shared) _ l y.1 ends in
      (y.1, sym (ap (λ q. q.1) e), calls-IsDone wire messages others info s1 l y.1 e1)

  pub main-IsDone :
      (l : Responses F) (o : Option (Shared Session))
      → main tls make_endpoint set_default_client_config net wire messages others info
        ≡ (some (finished l), o)
      → (s : Shared Session) × (o ≡ some s) × IsDone wire messages others info l s
  unfolding main
  main-IsDone l o e =
      with_client-IsDone
        (try_outcome (Lifecycle.new tls make_endpoint set_default_client_config client_config)) l o
        e
