-- ===== src/Server/Connection/Accepts.antt =====
-- Which sessions and connections get a task.
use quic_serve.Prelude.{
  String, str_eq, ◌≡◌, refl, ◌↔◌, Bool, true, false, not, ◌&&◌, List, [], ◌∷◌, if◌then◌else◌, All,
  arith,
}
use quic_serve.Error.{Result, ok, err}
use quic_serve.Server.Connection.{AcceptRequest, accept_loop, handle_connection, serve}

-- The values of the successful outcomes.
abbrev pub oks {ℓ} : {A : Type ℓ} → List (Result String A) → List A
oks [] = []
oks (ok a ∷ rs) = a ∷ oks rs
oks (err e ∷ rs) = oks rs

abbrev pub is_err {ℓ} : {A : Type ℓ} → Result String A → Bool
is_err (ok _) = false
is_err (err _) = true

-- A server runs until its endpoint is closed, and then ends without error; every connection whose
-- handshake succeeded has got a task, once and in the order of arrival, whatever failed in between.
pub serve-oks :
    {C : Type 0} (attempts : List (Result String C)) → serve attempts ≡ (ok tt, oks attempts)
unfolding serve
serve-oks [] = refl
serve-oks (ok c ∷ attempts) = rw (serve-oks attempts) refl
serve-oks (err e ∷ attempts) = serve-oks attempts

module _ {S : Type 0} where
  -- A request that must be rejected, but cannot be.
  abbrev pub is_fatal : AcceptRequest S → Bool
  is_fatal r = not (str_eq r.path "/rpc") && is_err r.reject

  -- The requests that stand before the first fatal one.
  abbrev pub before_fatal : List (AcceptRequest S) → List (AcceptRequest S)
  before_fatal [] = []
  before_fatal (r ∷ rs) = let rest = before_fatal rs in if is_fatal r then [] else r ∷ rest

  -- What accepting the requests for the path "/rpc" brings.
  abbrev pub rpc_outcomes : List (AcceptRequest S) → List (Result String S)
  rpc_outcomes [] = []
  rpc_outcomes (r ∷ rs) =
      let rest = rpc_outcomes rs in if str_eq r.path "/rpc" then r.accept ∷ rest else rest

  accept_loop-tasks :
      (requests : List (AcceptRequest S))
      → (accept_loop requests).1 ≡ oks (rpc_outcomes (before_fatal requests))
  unfolding accept_loop
  accept_loop-tasks [] = refl
  accept_loop-tasks (r ∷ rs) = ground (arith, accept_loop-tasks rs)

  accept_loop-ok :
      (requests : List (AcceptRequest S))
      → ((accept_loop requests).0 ≡ ok tt) ↔ All (λ r. is_fatal r ≡ false) requests
  unfolding accept_loop
  accept_loop-ok [] = (λ _. tt, λ _. refl)
  accept_loop-ok (r ∷ rs) = ground (arith, accept_loop-ok rs)

  -- On a connection whose handshakes succeed, the sessions that get a task are those requested for the
  -- path "/rpc" and accepted, once and in order, up to the first request for another path that cannot
  -- be rejected; and the connection ends without error exactly when there is no such request.
  pub handle_connection-accepts :
      (requests : List (AcceptRequest S))
      → ((handle_connection (ok tt) (ok requests)).1 ≡ oks (rpc_outcomes (before_fatal requests)))
        × (((handle_connection (ok tt) (ok requests)).0 ≡ ok tt)
            ↔ All (λ r. is_fatal r ≡ false) requests)
  unfolding handle_connection
  handle_connection-accepts requests = (accept_loop-tasks requests, accept_loop-ok requests)
