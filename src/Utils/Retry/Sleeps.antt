-- ===== src/Utils/Retry/Sleeps.antt =====
-- `retry_with_backoff` always ends, within its number of calls, and no sleep is longer than allowed.
use Prim.Native.Nat.{max}
use native.Mathlib.Decide.{dec_lt}
use quic_serve.Prelude.{
  ℕ, zero, suc, ◌+◌, ◌≤◌, ◌<◌, ◌≡◌, refl, Option, some, List, [], ◌∷◌, ◌++◌, arith, length,
  length-append, All, All-append, ◌⊎◌, inl, inr,
}
use quic_serve.Error.{Error, Result, ok, err}
use quic_serve.Utils.Retry.{Run, next_delay, retry_loop, retry_with_backoff}
use quic_serve.Utils.Retry.Outcome.{retry_loop-stop, retry_loop-give_up, retry_loop-again}

Result-cases : {E A : Type 0} (r : Result E A) → ((a : A) × (r ≡ ok a)) ⊎ ((e : E) × (r ≡ err e))
Result-cases (ok a) = inl (a, refl)
Result-cases (err e) = inr (e, refl)

module _ {T : Type 0} where
  -- The bounds on a run, given the longest sleep and the limit on the calls.
  pub record IsBounded (longest max_retries : ℕ) (run : Run T) : Type 0 where
    pub calls_le : run.calls ≤ max 1 max_retries
    pub slept_between : length run.sleeps + 1 ≡ run.calls
    pub each_le : All (λ d. d ≤ longest) run.sleeps

  -- The loop has ended with a run within the bounds.
  abbrev pub Ends : ℕ → ℕ → Option (Run T) → Type 0
  Ends longest max_retries o = (run : Run T) × (o ≡ some run) × IsBounded longest max_retries run

module _ {T : Type 0} (f : ℕ → Result Error T) (jitter : ℕ → ℕ → ℕ) where
  next_delay-le : (max_delay n delay : ℕ) → next_delay f jitter max_delay n delay ≤ max_delay
  unfolding next_delay
  next_delay-le max_delay n delay = omega arith

  module _ (longest max_delay max_retries : ℕ) (caps : max_delay ≤ longest) where
    loop-Ends :
        (fuel delay n : ℕ) (slept : List ℕ)
        → delay ≤ longest
        → n < max 1 max_retries
        → max 1 max_retries ≤ n + fuel
        → length slept ≡ n
        → All (λ d. d ≤ longest) slept
        → Ends longest max_retries (retry_loop f jitter max_delay max_retries fuel delay n slept)
    loop-Ends zero delay n slept d lt enough len all = absurd (omega arith)
    loop-Ends (suc fuel) delay n slept d lt enough len all = elim (Result-cases (f n)) [
      | inl (r, e) ↦ (
        record { result = ok r; calls = n + 1; sleeps = slept },
        retry_loop-stop f jitter max_delay max_retries fuel delay n slept r e,
        record { calls_le = omega arith; slept_between = omega arith; each_le = all },
      )
      | inr (e, h) ↦ elim (dec_lt (n + 1) max_retries) [
        | yes more ↦
            rw (retry_loop-again f jitter max_delay max_retries fuel delay n slept (e, h) more) (
              loop-Ends fuel (next_delay f jitter max_delay n delay) (n + 1) (slept ++ delay ∷ [])
                (omega (arith, next_delay-le max_delay n delay, caps)) (omega arith) (omega arith)
                (omega (arith, length-append slept (delay ∷ [])))
                (All-append (λ x. x ≤ longest) slept (delay ∷ []) all (d, tt)))
        | no last ↦ (
          record { result = err e; calls = n + 1; sleeps = slept },
          retry_loop-give_up f jitter max_delay max_retries fuel delay n slept e h (omega arith),
          record { calls_le = omega arith; slept_between = omega arith; each_le = all },
        )
      ]
    ]

  -- Whatever the calls return, the loop ends after at most `max_retries` calls (one, if that is 0), has
  -- slept once between two calls, and no sleep was longer than the greater of the initial and the
  -- maximal delay.
  pub retry_with_backoff-Ends :
      (initial_delay max_delay max_retries : ℕ)
      → Ends
          (max initial_delay max_delay)
          max_retries
          (retry_with_backoff f jitter initial_delay max_delay max_retries)
  unfolding retry_with_backoff
  retry_with_backoff-Ends initial_delay max_delay max_retries =
      loop-Ends (max initial_delay max_delay) max_delay max_retries (omega arith) (suc max_retries)
        initial_delay 0 [] (omega arith) (omega arith) (omega arith) refl tt
