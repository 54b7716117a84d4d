-- ===== src/Client/Settled.antt =====
-- A client that is closed leaves no caller without a result: src/client.rs.
use quic_serve.Prelude.{
  ℕ, ◌+◌, ◌≤◌, ◌<◌, ◌≡◌, refl, Option, none, some, Option-cases, inl, inr, List, [], ◌∷◌, ◌++◌,
  Assoc, get, insert, remove, nat_eq, ◌==◌, UniqueKeys, remove-UniqueKeys, insert-UniqueKeys,
  remove_absent, arith,
}
use quic_serve.Error.{Error, Result, ok, err}
use quic_serve.Message.{Bytes, Response, Codec, SerializationFormat, deserialize}
use quic_serve.Transport.{MessageStream, Wire, send}
use quic_serve.Client.{Channel, Shared, initial, sent_on, transmit_on}
use quic_serve.Client.Handler.{response_result, handle_decoded}
use quic_serve.Client.Lifecycle.{closings, close}
use quic_serve.Client.Events.{
  Event, reserve, open_channel, request_sent, handler_starts, response_came, handler_ends, connects,
  closes, step, run,
}
use quic_serve.Client.Once.{
  bit, waits_for, results_on, Results, results_on-append, results_on-closings,
}

waits_for_unique :
    (n id : ℕ) (c : Channel) (m : Assoc ℕ Channel)
    → UniqueKeys m
    → get id m ≡ some c
    → bit (c.serial == n) + waits_for n (remove id m) ≡ waits_for n m
unfolding get remove
waits_for_unique n id c [] u e = cc
waits_for_unique n id c ((j, d) ∷ m) (free, u) e =
    ground (arith, waits_for_unique n id c m u, remove_absent id m, free)

-- Of the channels opened so far, each is waited on or was sent on, and only once; no other is.
abbrev IsExactAmong : ℕ → Assoc ℕ Channel → Results → Type 0
IsExactAmong opened m rs =
    (n : ℕ)
    → (n < opened → waits_for n m + results_on n rs ≡ 1)
      × (opened ≤ n → waits_for n m + results_on n rs ≡ 0)

IsExactAmong-same :
    (opened : ℕ) (m m' : Assoc ℕ Channel) (rs rs' : Results)
    → IsExactAmong opened m rs
    → ((n : ℕ) → waits_for n m' + results_on n rs' ≡ waits_for n m + results_on n rs)
    → IsExactAmong opened m' rs'
IsExactAmong-same opened m m' rs rs' h e n =
    (λ near. omega (arith, (h n).0 near, e n), λ far. omega (arith, (h n).1 far, e n))

IsExactAmong-open :
    (opened id : ℕ) (m : Assoc ℕ Channel) (rs : Results)
    → get id m ≡ none
    → IsExactAmong opened m rs
    → IsExactAmong (opened + 1) (insert id (record { serial = opened; request_id = id }) m) rs
unfolding insert
IsExactAmong-open opened id m rs free h n =
    rw (remove_absent id m free) (ground (arith, (h n).0, (h n).1))

module _ {Session : Type 0} where
  abbrev pub IsExact : Shared Session → Type 0
  IsExact s = UniqueKeys s.pending × IsExactAmong s.opened s.pending s.delivered

  -- A channel is opened only under an id on which nobody waits.
  abbrev OpensFree : Event Session → Shared Session → Type 0
  OpensFree (open_channel id) s = get id s.pending ≡ none
  OpensFree _ s = Unit

module _ {Session : Type 0} (wire : Wire) (responses : Codec Response)
    (format : SerializationFormat) where
  abbrev pub OpenFree : List (Event Session) → Shared Session → Type 0
  OpenFree [] s = Unit
  OpenFree (e ∷ es) s = OpensFree e s × OpenFree es (step wire responses format e s)

  handle_decoded-IsExact :
      (r : Result Error Response) (s : Shared Session)
      → IsExact s
      → IsExact (handle_decoded responses format r s)
  handle_decoded-IsExact (err e) s h = h
  handle_decoded-IsExact (ok a) s (u, h) = elim (Option-cases (get a.id s.pending)) [
    | inl missing ↦ rw (missing, remove_absent a.id s.pending missing) (u, h)
    | inr (c, found) ↦ rw found (
      remove-UniqueKeys a.id s.pending u,
      IsExactAmong-same s.opened s.pending (remove a.id s.pending) s.delivered
          (s.delivered ++ (c, response_result a) ∷ []) h
          λ n. omega (
            arith,
            waits_for_unique n a.id c s.pending u found,
            results_on-append n s.delivered ((c, response_result a) ∷ []),
          ),
    )
  ]

  sent_on-IsExact :
      (s : Shared Session) (r : Result Error (Unit {0}) × MessageStream)
      → IsExact s
      → IsExact (sent_on s r).1
  sent_on-IsExact s (ok _, stream) h = h
  sent_on-IsExact s (err e, stream) h = h

  transmit_on-IsExact :
      (b : Bytes) (s : Shared Session) (o : Option MessageStream)
      → IsExact s
      → IsExact (transmit_on wire b s o).1
  transmit_on-IsExact b s none h = h
  transmit_on-IsExact b s (some stream) h = sent_on-IsExact s (send wire b stream) h

  step-IsExact :
      (e : Event Session) (s : Shared Session)
      → OpensFree e s
      → IsExact s
      → IsExact (step wire responses format e s)
  unfolding step
  step-IsExact reserve s f h = h
  step-IsExact (open_channel id) s f (u, h) =
      (insert-UniqueKeys id _ s.pending u, IsExactAmong-open s.opened id s.pending s.delivered f h)
  step-IsExact (request_sent b) s f h = transmit_on-IsExact b s s.message_stream h
  step-IsExact handler_starts s f h = h
  step-IsExact (response_came b) s f h = handle_decoded-IsExact (deserialize responses b format) s h
  step-IsExact (handler_ends stream) s f h = h
  step-IsExact (connects session stream) s f h = h
  step-IsExact closes s f (u, h) = (
    tt,
    IsExactAmong-same s.opened s.pending [] s.delivered (s.delivered ++ closings s.pending) h λ n.
        omega (
          arith,
          results_on-append n s.delivered (closings s.pending),
          results_on-closings n s.pending,
        ),
  )

  run-IsExact :
      (es : List (Event Session)) (s : Shared Session)
      → OpenFree es s
      → IsExact s
      → IsExact (run wire responses format es s)
  unfolding run
  run-IsExact [] s f h = h
  run-IsExact (e ∷ es) s (f, fs) h =
      run-IsExact es (step wire responses format e s) fs (step-IsExact e s f h)

  -- However the tasks of a client are interleaved, if no channel is opened under an id on which another
  -- caller still waits, then once the client is closed every channel that was ever opened has been sent
  -- exactly one result: no caller is left waiting, and none was told twice.
  pub run-settles :
      (es : List (Event Session)) (n : ℕ)
      → OpenFree es initial
      → n < (run wire responses format es initial).opened
      → results_on n (close (run wire responses format es initial)).1.delivered ≡ 1
  unfolding close
  run-settles es n free before =
      let s = run wire responses format es initial in
      let (u, exact) =
        run-IsExact es initial free (tt, λ k. (λ h. absurd (omega arith), λ h. refl)) in
      omega (
        arith,
        (exact n).0 before,
        results_on-append n s.delivered (closings s.pending),
        results_on-closings n s.pending,
      )
