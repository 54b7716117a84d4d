-- ===== src/Service.antt =====
-- The `Service` trait of src/lib.rs, and `tokio::time::timeout` around a call of it.
-- Services may keep state of any kind: a value of `World`, which a call reads and changes.
pub mod Bounded
use quic_serve.Prelude.{
  ℕ, ◌<◌, String, ◌≡◌, Bool, true, false, Option, none, some, List, if◌then◌else◌,
}
use quic_serve.Error.{Error, Result}
use quic_serve.Message.{Bytes}

-- One call: after how many milliseconds of waiting its future completes (`none`: never), what it then
-- returns and leaves behind, and what it leaves behind if it is dropped after so many milliseconds. Only
-- the time between polls counts: tokio documents that a future that does not yield may exceed a timeout
-- and still complete. Every poll comes to an end.
pub record CallRun (World : Type 0) : Type 0 where
  pub took : Option ℕ
  pub outcome : Result Error Bytes
  pub after : World
  pub dropped : ℕ → World

pub record Service (World : Type 0) : Type 0 where
  pub call : String → Bytes → World → CallRun World
  pub methods : World → List String

-- tokio's timer: whether `timeout` fires before a future that completes after so many milliseconds.
-- Its documentation leaves open what happens when both fall together.
pub record Timer : Type 0 where
  pub fires : ℕ → Option ℕ → Bool
  pub in_time : (limit took : ℕ) → took < limit → fires limit (some took) ≡ false
  pub too_late : (limit took : ℕ) → limit < took → fires limit (some took) ≡ true
  pub never : (limit : ℕ) → fires limit none ≡ true

-- `tokio::time::timeout(limit, future).await`; `none` is `Elapsed`.
unfoldable pub timeout :
    {World : Type 0} → Timer → ℕ → CallRun World → Option (Result Error Bytes) × World
timeout timer limit run =
    if timer.fires limit run.took then (none, run.dropped limit) else (some run.outcome, run.after)

abbrev waited_until : ℕ → Option ℕ → Option (Result Error Bytes) → Option ℕ
waited_until limit took none = some limit
waited_until limit took (some r) = took

-- For how many milliseconds that `await` waits: up to the limit if it gives `Elapsed`, or else until the
-- future completes (`none`: for ever).
unfoldable pub waits : {World : Type 0} → Timer → ℕ → CallRun World → Option ℕ
unfolding timeout
waits timer limit run = waited_until limit run.took (timeout timer limit run).0
