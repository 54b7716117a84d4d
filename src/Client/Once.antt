-- ===== src/Client/Once.antt =====
-- No caller gets two results: in src/client.rs the sender of a channel leaves `pending` as it is used.
use quic_serve.Prelude.{
  ℕ, ◌+◌, ◌≤◌, ◌≡◌, refl, inl, inr, Bool, true, false, Option, none, some, Option-cases, List, [],
  ◌∷◌, ◌++◌, Assoc, get, insert, remove, nat_eq, ◌==◌, arith,
}
use quic_serve.Error.{Error, Result, ok, err}
use quic_serve.Message.{Bytes, Response, Codec, SerializationFormat, deserialize}
use quic_serve.Transport.{MessageStream, Wire, send}
use quic_serve.Client.{Channel, Shared, initial, sent_on, transmit_on}
use quic_serve.Client.Handler.{response_result, handle_decoded}
use quic_serve.Client.Lifecycle.{closings}
use quic_serve.Client.Events.{
  Event, reserve, open_channel, request_sent, handler_starts, response_came, handler_ends, connects,
  closes, step, run,
}

abbrev pub bit : Bool → ℕ
bit true = 1
bit false = 0

-- How many pending requests wait on the n-th channel.
abbrev pub waits_for : ℕ → Assoc ℕ Channel → ℕ
waits_for n [] = 0
waits_for n ((_, c) ∷ m) = bit (c.serial == n) + waits_for n m

-- How many results were sent on the n-th channel.
abbrev pub results_on : ℕ → List (Channel × Result Error Bytes) → ℕ
results_on n [] = 0
results_on n ((c, _) ∷ rs) = bit (c.serial == n) + results_on n rs

pub waits_for-remove : (n id : ℕ) (m : Assoc ℕ Channel) → waits_for n (remove id m) ≤ waits_for n m
unfolding remove
waits_for-remove n id [] = omega arith
waits_for-remove n id ((j, c) ∷ m) = ground (arith, waits_for-remove n id m)

pub waits_for-get :
    (n id : ℕ) (c : Channel) (m : Assoc ℕ Channel)
    → get id m ≡ some c
    → bit (c.serial == n) + waits_for n (remove id m) ≤ waits_for n m
unfolding get remove
waits_for-get n id c [] e = cc
waits_for-get n id c ((j, d) ∷ m) e =
    ground (arith, waits_for-remove n id m, waits_for-get n id c m)

pub results_on-append :
    (n : ℕ) (rs qs : List (Channel × Result Error Bytes))
    → results_on n (rs ++ qs) ≡ results_on n rs + results_on n qs
results_on-append n [] qs = omega arith
results_on-append n ((c, _) ∷ rs) qs = omega (arith, results_on-append n rs qs)

pub results_on-closings : (n : ℕ) (m : Assoc ℕ Channel) → results_on n (closings m) ≡ waits_for n m
results_on-closings n [] = refl
results_on-closings n ((j, c) ∷ m) = omega (arith, results_on-closings n m)

abbrev pub Results : Type 0
Results = List (Channel × Result Error Bytes)

-- Of the channels opened so far, each is waited on, or was sent on, at most once, and no other is.
abbrev IsOnceAmong : ℕ → Assoc ℕ Channel → Results → Type 0
IsOnceAmong opened m rs =
    (n : ℕ)
    → (waits_for n m + results_on n rs ≤ 1) × (opened ≤ n → waits_for n m + results_on n rs ≡ 0)

IsOnceAmong-less :
    (opened : ℕ) (m m' : Assoc ℕ Channel) (rs rs' : Results)
    → IsOnceAmong opened m rs
    → ((n : ℕ) → waits_for n m' + results_on n rs' ≤ waits_for n m + results_on n rs)
    → IsOnceAmong opened m' rs'
IsOnceAmong-less opened m m' rs rs' h le n =
    (omega (arith, (h n).0, le n), λ far. omega (arith, (h n).1 far, le n))

IsOnceAmong-open :
    (opened id : ℕ) (m : Assoc ℕ Channel) (rs : Results)
    → IsOnceAmong opened m rs
    → IsOnceAmong (opened + 1) (insert id (record { serial = opened; request_id = id }) m) rs
unfolding insert
IsOnceAmong-open opened id m rs h n = ground (arith, (h n).0, (h n).1, waits_for-remove n id m)

abbrev pub IsOnce : {Session : Type 0} → Shared Session → Type 0
IsOnce s = IsOnceAmong s.opened s.pending s.delivered

module _ {Session : Type 0} (wire : Wire) (responses : Codec Response)
    (format : SerializationFormat) where
  handle_decoded-IsOnce :
      (r : Result Error Response) (s : Shared Session)
      → IsOnce s
      → IsOnce (handle_decoded responses format r s)
  handle_decoded-IsOnce (err e) s h = h
  handle_decoded-IsOnce (ok a) s h = elim (Option-cases (get a.id s.pending)) [
    | inl missing ↦ rw missing (
        IsOnceAmong-less s.opened s.pending (remove a.id s.pending) s.delivered s.delivered h
          λ n. omega (arith, waits_for-remove n a.id s.pending))
    | inr (c, found) ↦ rw found (
        IsOnceAmong-less s.opened s.pending (remove a.id s.pending) s.delivered
          (s.delivered ++ (c, response_result a) ∷ []) h
          λ n. omega (
            arith,
            waits_for-get n a.id c s.pending found,
            results_on-append n s.delivered ((c, response_result a) ∷ []),
          ))
  ]

  sent_on-IsOnce :
      (s : Shared Session) (r : Result Error (Unit {0}) × MessageStream)
      → IsOnce s
      → IsOnce (sent_on s r).1
  sent_on-IsOnce s (ok _, stream) h = h
  sent_on-IsOnce s (err e, stream) h = h

  transmit_on-IsOnce :
      (b : Bytes) (s : Shared Session) (o : Option MessageStream)
      → IsOnce s
      → IsOnce (transmit_on wire b s o).1
  transmit_on-IsOnce b s none h = h
  transmit_on-IsOnce b s (some stream) h = sent_on-IsOnce s (send wire b stream) h

  pub step-IsOnce :
      (e : Event Session) (s : Shared Session) → IsOnce s → IsOnce (step wire responses format e s)
  unfolding step insert
  step-IsOnce reserve s h = h
  step-IsOnce (open_channel id) s h = IsOnceAmong-open s.opened id s.pending s.delivered h
  step-IsOnce (request_sent b) s h = transmit_on-IsOnce b s s.message_stream h
  step-IsOnce handler_starts s h = h
  step-IsOnce (response_came b) s h = handle_decoded-IsOnce (deserialize responses b format) s h
  step-IsOnce (handler_ends stream) s h = h
  step-IsOnce (connects session stream) s h = h
  step-IsOnce closes s h =
      IsOnceAmong-less s.opened s.pending [] s.delivered (s.delivered ++ closings s.pending) h λ n.
        omega (
          arith,
          results_on-append n s.delivered (closings s.pending),
          results_on-closings n s.pending,
        )

  pub run-IsOnce :
      (es : List (Event Session)) (s : Shared Session)
      → IsOnce s
      → IsOnce (run wire responses format es s)
  unfolding run
  run-IsOnce [] s h = h
  run-IsOnce (e ∷ es) s h = run-IsOnce es (step wire responses format e s) (step-IsOnce e s h)

  -- However the tasks of a client are interleaved, at most one result is sent on each channel, and none
  -- on a channel on which a caller still waits.
  pub run-sends_once :
      (es : List (Event Session)) (n : ℕ)
      → waits_for n (run wire responses format es initial).pending
          + results_on n (run wire responses format es initial).delivered
        ≤ 1
  run-sends_once es n = (run-IsOnce es initial (λ k. (omega arith, λ _. refl)) n).0
