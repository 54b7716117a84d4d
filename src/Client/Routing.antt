-- ===== src/Client/Routing.antt =====
-- Every caller gets the response to its own request.
use quic_serve.Prelude.{
  ℕ, ◌≡◌, refl, sym, ◌⊎◌, inl, inr, Option, none, some, Option-cases, List, [], ◌∷◌, Assoc, get,
  insert, remove, nat_eq, All, All-append, arith,
}
use quic_serve.Error.{Error, connection_closed, Result, ok, err}
use quic_serve.Message.{Bytes, Response, Codec, SerializationFormat, deserialize}
use quic_serve.Transport.{MessageStream, Wire, send}
use quic_serve.Client.{Channel, Shared, initial, sent_on, transmit_on}
use quic_serve.Client.Handler.{response_result, handle_decoded}
use quic_serve.Client.Lifecycle.{closings}
use quic_serve.Client.Events.{
  Event, reserve, open_channel, request_sent, handler_starts, response_came, handler_ends, connects,
  closes, step, run,
}

-- Every pending channel was opened for the id under which it stands.
abbrev pub IsKeyed : Assoc ℕ Channel → Type 0
IsKeyed = All (λ p. p.1.request_id ≡ p.0)

remove-IsKeyed : (id : ℕ) (m : Assoc ℕ Channel) → IsKeyed m → IsKeyed (remove id m)
unfolding remove
remove-IsKeyed id [] h = tt
remove-IsKeyed id ((j, c) ∷ m) (p, h) = ground (arith, remove-IsKeyed id m h)

get-IsKeyed :
    (id : ℕ) (m : Assoc ℕ Channel) (c : Channel) → IsKeyed m → get id m ≡ some c → c.request_id ≡ id
unfolding get
get-IsKeyed id [] c h e = cc
get-IsKeyed id ((j, d) ∷ m) c (p, h) e = ground (arith, get-IsKeyed id m c h)

module _ (responses : Codec Response) (format : SerializationFormat) where
  -- The result that a caller got is that of a response to its request which has come, or the client
  -- was closed.
  abbrev pub IsExplained : (Bytes → Type 0) → Channel × Result Error Bytes → Type 0
  IsExplained Came (c, r) =
      (r ≡ err connection_closed)
      ⊎ ((b : Bytes) × (a : Response) × Came b
          × (deserialize responses b format ≡ ok a)
          × (a.id ≡ c.request_id)
          × (r ≡ response_result a))

  closings-IsExplained :
      (Came : Bytes → Type 0) (m : Assoc ℕ Channel) → All (IsExplained Came) (closings m)
  closings-IsExplained Came [] = tt
  closings-IsExplained Came ((j, c) ∷ m) = (inl refl, closings-IsExplained Came m)

-- The message is one of those that have come.
abbrev Admits : {Session : Type 0} → (Bytes → Type 0) → Event Session → Type 0
Admits Came (response_came b) = Came b
Admits Came _ = Unit

module _ {Session : Type 0} (wire : Wire) (responses : Codec Response)
    (format : SerializationFormat) where
  abbrev pub IsRouted : (Bytes → Type 0) → Shared Session → Type 0
  IsRouted Came s = IsKeyed s.pending × All (IsExplained responses format Came) s.delivered

  handle_decoded-IsRouted :
      (Came : Bytes → Type 0) (b : Bytes) (r : Result Error Response) (s : Shared Session)
      → Came b
      → deserialize responses b format ≡ r
      → IsRouted Came s
      → IsRouted Came (handle_decoded responses format r s)
  handle_decoded-IsRouted Came b (err e) s came d h = h
  handle_decoded-IsRouted Came b (ok a) s came d (keyed, explained) =
      elim (Option-cases (get a.id s.pending)) [
        | inl missing ↦ rw missing (remove-IsKeyed a.id s.pending keyed, explained)
        | inr (c, found) ↦ rw found (
          remove-IsKeyed a.id s.pending keyed,
          All-append (IsExplained responses format Came) s.delivered ((c, response_result a) ∷ [])
              explained
              (inr (b, a, came, d, sym (get-IsKeyed a.id s.pending c keyed found), refl), tt),
        )
      ]

  sent_on-IsRouted :
      (Came : Bytes → Type 0) (s : Shared Session) (r : Result Error (Unit {0}) × MessageStream)
      → IsRouted Came s
      → IsRouted Came (sent_on s r).1
  sent_on-IsRouted Came s (ok _, stream) h = h
  sent_on-IsRouted Came s (err e, stream) h = h

  transmit_on-IsRouted :
      (Came : Bytes → Type 0) (b : Bytes) (s : Shared Session) (o : Option MessageStream)
      → IsRouted Came s
      → IsRouted Came (transmit_on wire b s o).1
  transmit_on-IsRouted Came b s none h = h
  transmit_on-IsRouted Came b s (some stream) h = sent_on-IsRouted Came s (send wire b stream) h

  step-IsRouted :
      (Came : Bytes → Type 0) (e : Event Session) (s : Shared Session)
      → Admits Came e
      → IsRouted Came s
      → IsRouted Came (step wire responses format e s)
  unfolding step insert
  step-IsRouted Came reserve s k h = h
  step-IsRouted Came (open_channel id) s k (keyed, explained) =
      ((refl, remove-IsKeyed id s.pending keyed), explained)
  step-IsRouted Came (request_sent b) s k h = transmit_on-IsRouted Came b s s.message_stream h
  step-IsRouted Came handler_starts s k h = h
  step-IsRouted Came (response_came b) s k h =
      handle_decoded-IsRouted Came b (deserialize responses b format) s k refl h
  step-IsRouted Came (handler_ends stream) s k h = h
  step-IsRouted Came (connects session stream) s k h = h
  step-IsRouted Came closes s k (keyed, explained) = (
    tt,
    All-append (IsExplained responses format Came) s.delivered (closings s.pending) explained
        (closings-IsExplained responses format Came s.pending),
  )

  run-IsRouted :
      (Came : Bytes → Type 0) (es : List (Event Session)) (s : Shared Session)
      → All (Admits Came) es
      → IsRouted Came s
      → IsRouted Came (run wire responses format es s)
  unfolding run
  run-IsRouted Came [] s k h = h
  run-IsRouted Came (e ∷ es) s (k, ks) h =
      run-IsRouted Came es (step wire responses format e s) ks (step-IsRouted Came e s k h)

-- The message came in this run.
abbrev pub CameIn : {Session : Type 0} → List (Event Session) → Bytes → Type 0
CameIn [] b = ⊥
CameIn (response_came c ∷ es) b = (b ≡ c) ⊎ CameIn es b
CameIn (_ ∷ es) b = CameIn es b

module _ {Session : Type 0} where
  Admits-mono :
      (P Q : Bytes → Type 0) (es : List (Event Session))
      → ((b : Bytes) → P b → Q b)
      → All (Admits P) es
      → All (Admits Q) es
  Admits-mono P Q [] f h = tt
  Admits-mono P Q (response_came b ∷ es) f (p, h) = (f b p, Admits-mono P Q es f h)
  Admits-mono P Q (_ ∷ es) f (_, h) = (tt, Admits-mono P Q es f h)

  CameIn-later :
      (e : Event Session) (es : List (Event Session)) (b : Bytes) → CameIn es b → CameIn (e ∷ es) b
  CameIn-later (response_came c) es b h = inr h
  CameIn-later _ es b h = h

  Admits-CameIn : (es : List (Event Session)) → All (Admits (CameIn es)) es
  Admits-CameIn [] = tt
  Admits-CameIn (response_came b ∷ es) = (
    inl refl,
    Admits-mono (CameIn es) _ es (CameIn-later (response_came b) es) (Admits-CameIn es),
  )
  Admits-CameIn (e ∷ es) =
      (tt, Admits-mono (CameIn es) (CameIn (e ∷ es)) es (CameIn-later e es) (Admits-CameIn es))

module _ {Session : Type 0} (wire : Wire) (responses : Codec Response)
    (format : SerializationFormat) where
  -- However the tasks of a client are interleaved, every result that a caller gets is that of a response
  -- which has come and whose id is the caller's request id, or is `ConnectionClosed`.
  pub run-IsExplained :
      (es : List (Event Session))
      → All
          (IsExplained responses format (CameIn es))
          (run wire responses format es initial).delivered
  run-IsExplained es =
      (run-IsRouted wire responses format (CameIn es) es initial (Admits-CameIn es) (tt, tt)).1
