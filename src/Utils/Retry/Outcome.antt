-- ===== src/Utils/Retry/Outcome.antt =====
-- What `retry_with_backoff` returns: the first success among the allowed calls, else the last error.
use Prim.Native.Nat.{max}
use native.Mathlib.Decide.{dec_lt}
use native.Mathlib.Nat.{le_refl}
use quic_serve.Prelude.{
  ℕ, zero, suc, ◌+◌, ◌≤◌, ◌<◌, ◌≡◌, Option, some, List, [], ◌∷◌, ◌++◌, leb, false, true, arith,
}
use quic_serve.Error.{Error, Result, ok, err}
use quic_serve.Utils.Retry.{Run, next_delay, retry_loop, retry_with_backoff}

not-leb : (a b : ℕ) → b < a → leb a b ≡ false
not-leb a b h = ground arith

is-leb : (a b : ℕ) → a ≤ b → leb a b ≡ true
is-leb a b h = ground arith

module _ {T : Type 0} (f : ℕ → Result Error T) (jitter : ℕ → ℕ → ℕ) where
  -- The call fails.
  abbrev pub Fails : ℕ → Type 0
  Fails n = (e : Error) × (f n ≡ err e)

  -- The loop ends with this result after so many calls.
  abbrev pub EndsWith : Result Error T → ℕ → Option (Run T) → Type 0
  EndsWith r calls run =
      (sleeps : List ℕ) × (run ≡ some (record { result = r; calls = calls; sleeps = sleeps }))

  module _ (max_delay max_retries : ℕ) where
    pub retry_loop-stop :
        (fuel delay n : ℕ) (slept : List ℕ) (r : T)
        → f n ≡ ok r
        → retry_loop f jitter max_delay max_retries (suc fuel) delay n slept
          ≡ some (record { result = ok r; calls = n + 1; sleeps = slept })
    unfolding retry_loop
    retry_loop-stop fuel delay n slept r e = ground arith

    pub retry_loop-give_up :
        (fuel delay n : ℕ) (slept : List ℕ) (e : Error)
        → f n ≡ err e
        → max_retries ≤ n + 1
        → retry_loop f jitter max_delay max_retries (suc fuel) delay n slept
          ≡ some (record { result = err e; calls = n + 1; sleeps = slept })
    unfolding retry_loop
    retry_loop-give_up fuel delay n slept e h k = ground arith

    pub retry_loop-again :
        (fuel delay n : ℕ) (slept : List ℕ)
        → Fails n
        → n + 1 < max_retries
        → retry_loop f jitter max_delay max_retries (suc fuel) delay n slept
          ≡ retry_loop f jitter max_delay max_retries fuel
              (next_delay f jitter max_delay n delay)
              (n + 1)
              (slept ++ delay ∷ [])
    unfolding retry_loop
    retry_loop-again fuel delay n slept (e, h) k = ground arith

    loop-succeeds :
        (fuel delay n m : ℕ) (slept : List ℕ) (r : T)
        → n ≤ m
        → m < n + fuel
        → m < max 1 max_retries
        → ((i : ℕ) → n ≤ i → i < m → Fails i)
        → f m ≡ ok r
        → EndsWith (ok r) (m + 1) (retry_loop f jitter max_delay max_retries fuel delay n slept)
    loop-succeeds zero delay n m slept r le lt few fails e = absurd (omega arith)
    loop-succeeds (suc fuel) delay n m slept r le lt few fails e = elim (dec_lt n m) [
      | yes p ↦ rw (retry_loop-again fuel delay n slept (fails n (le_refl n) p) (omega arith)) (
          loop-succeeds fuel (next_delay f jitter max_delay n delay) (n + 1) m (slept ++ delay ∷ [])
            r (omega arith) (omega arith) few (λ i h k. fails i (omega arith) k) e)
      | no p ↦
          let same : m ≡ n = omega arith in
          (slept, rw same (retry_loop-stop fuel delay n slept r (rw same at e)))
    ]

    loop-Fails :
        (fuel delay n m : ℕ) (slept : List ℕ) (e : Error)
        → n ≤ m
        → m < n + fuel
        → m + 1 ≡ max 1 max_retries
        → ((i : ℕ) → n ≤ i → i < m → Fails i)
        → f m ≡ err e
        → EndsWith (err e) (m + 1) (retry_loop f jitter max_delay max_retries fuel delay n slept)
    loop-Fails zero delay n m slept e le lt last fails h = absurd (omega arith)
    loop-Fails (suc fuel) delay n m slept e le lt last fails h = elim (dec_lt n m) [
      | yes p ↦ rw (retry_loop-again fuel delay n slept (fails n (le_refl n) p) (omega arith)) (
          loop-Fails fuel (next_delay f jitter max_delay n delay) (n + 1) m (slept ++ delay ∷ []) e
            (omega arith) (omega arith) last (λ i a b. fails i (omega arith) b) h)
      | no p ↦
          let same : m ≡ n = omega arith in
          (slept, rw same (retry_loop-give_up fuel delay n slept e (rw same at h) (omega arith)))
    ]

  -- If the calls before the m-th fail and the m-th succeeds, and the m-th is among the first
  -- `max_retries` calls or is the very first, then the loop ends with that success, after m + 1 calls.
  pub retry_with_backoff-ok :
      (initial_delay max_delay max_retries m : ℕ) (r : T)
      → m < max 1 max_retries
      → ((i : ℕ) → i < m → Fails i)
      → f m ≡ ok r
      → EndsWith (ok r) (m + 1) (retry_with_backoff f jitter initial_delay max_delay max_retries)
  unfolding retry_with_backoff
  retry_with_backoff-ok initial_delay max_delay max_retries m r few fails e =
      loop-succeeds max_delay max_retries (suc max_retries) initial_delay 0 m [] r (omega arith)
        (omega arith) few (λ i _ h. fails i h) e

  -- If all of the first `max_retries` calls fail (of the first call, if `max_retries` is 0), then the
  -- loop ends with the error of the last of them, and makes no further call.
  pub retry_with_backoff-err :
      (initial_delay max_delay max_retries m : ℕ) (e : Error)
      → m + 1 ≡ max 1 max_retries
      → ((i : ℕ) → i < m → Fails i)
      → f m ≡ err e
      → EndsWith (err e) (m + 1) (retry_with_backoff f jitter initial_delay max_delay max_retries)
  unfolding retry_with_backoff
  retry_with_backoff-err initial_delay max_delay max_retries m e last fails h =
      loop-Fails max_delay max_retries (suc max_retries) initial_delay 0 m [] e (omega arith)
        (omega arith) last (λ i _ k. fails i k) h
