-- ===== src/Service/Bounded.antt =====
-- The wait for a call of a service, in the sessions of src/server.rs, is bounded by the timeout.
use quic_serve.Prelude.{ℕ, ◌≤◌, ◌≡◌, refl, Option, none, some, Bool-cases, inl, inr, false, arith}
use quic_serve.Service.{CallRun, Timer, timeout, waits}

pub holds-soon :
    (timer : Timer) (limit : ℕ) (o : Option ℕ)
    → timer.fires limit o ≡ false
    → (took : ℕ) × (o ≡ some took) × (took ≤ limit)
holds-soon timer limit none held = absurd (grind (arith, timer.never limit))
holds-soon timer limit (some took) held = (took, refl, grind (arith, timer.too_late limit took))

-- The wait is over, at the latest with the timeout.
abbrev pub IsOver : {World : Type 0} → Timer → ℕ → CallRun World → Type 0
IsOver timer limit run = (k : ℕ) × (waits timer limit run ≡ some k) × (k ≤ limit)

-- Whatever the service, and if its call never completes.
pub waits-IsOver :
    {World : Type 0} (timer : Timer) (limit : ℕ) (run : CallRun World) → IsOver timer limit run
unfolding waits timeout
waits-IsOver timer limit run = elim (Bool-cases (timer.fires limit run.took)) [
  | inl fired ↦ (limit, rw fired refl, omega arith)
  | inr held ↦
      let (took, takes, soon) = holds-soon timer limit run.took held in (took, rw held takes, soon)
]
