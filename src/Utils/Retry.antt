-- ===== src/Utils/Retry.antt =====
-- `retry_with_backoff` of src/utils.rs. A `Duration` is its number of nanoseconds. The future that `f`
-- makes at its n-th call, from 0, has the outcome `f n`. The floating-point expression
-- `(delay.as_millis() as f64 * 2.0 * jitter_factor) as u64` is a parameter, `jitter n ms`: the random
-- factor that is drawn after the n-th call, applied to a delay of `ms` milliseconds.
pub mod Outcome
pub mod Sleeps
use Prim.Native.Nat.{min}
use quic_serve.Prelude.{
  ℕ, zero, suc, ◌+◌, ◌*◌, ◌/◌, true, false, Option, none, some, List, [], ◌∷◌, ◌++◌, leb,
}
use quic_serve.Error.{Error, Result, ok, err}

abbrev pub as_millis : ℕ → ℕ
as_millis d = d / 1000000

abbrev pub from_millis : ℕ → ℕ
from_millis ms = ms * 1000000

-- What a run of the loop did: its result, how often `f` was called, and the sleeps between the calls.
pub record Run (T : Type 0) : Type 0 where
  pub result : Result Error T
  pub calls : ℕ
  pub sleeps : List ℕ

module _ {T : Type 0} (f : ℕ → Result Error T) (jitter : ℕ → ℕ → ℕ) where
  unfoldable pub next_delay : ℕ → ℕ → ℕ → ℕ
  next_delay max_delay call delay = min max_delay (from_millis (jitter call (as_millis delay)))

  -- The loop; `none` means that the fuel ran out.
  unfoldable pub retry_loop : ℕ → ℕ → ℕ → ℕ → ℕ → List ℕ → Option (Run T)
  retry_loop max_delay max_retries zero delay retry_count slept = none
  retry_loop max_delay max_retries (suc fuel) delay retry_count slept = elim (f retry_count) [
    | ok r ↦ some (record { result = ok r; calls = retry_count + 1; sleeps = slept })
    | err e ↦ elim (leb max_retries (retry_count + 1)) [
      | true ↦ some (record { result = err e; calls = retry_count + 1; sleeps = slept })
      | false ↦
          retry_loop max_delay max_retries fuel (next_delay max_delay retry_count delay)
            (retry_count + 1) (slept ++ delay ∷ [])
    ]
  ]

  unfoldable pub retry_with_backoff : ℕ → ℕ → ℕ → Option (Run T)
  unfolding retry_loop next_delay
  retry_with_backoff initial_delay max_delay max_retries =
      retry_loop max_delay max_retries (suc max_retries) initial_delay 0 []
