-- ===== src/Cli/Exit.antt =====
-- How a command of src/bin/quicserve.rs ends, with the errors of anyhow.
use quic_serve.Prelude.{String, ◌≡◌, refl}
use quic_serve.Error.{Error, Result, ok, err}
use quic_serve.Config.Quinn.{Outcome, done, failed, panicked}

-- `anyhow::Error`: an error of the library, one of tokio or the file system, or one with context.
pub data Anyhow : Type 0 where
  from_error : Error → Anyhow
  from_io : String → Anyhow
  with_context : String → Anyhow → Anyhow

pub data Exit (A : Type 0) : Type 0 where
  finished : A → Exit A
  exited : Anyhow → Exit A
  crashed : Exit A

infixl 5 ◌>>=◌
abbrev pub ◌>>=◌ : {A B : Type 0} → Exit A → (A → Exit B) → Exit B
finished a >>= f = f a
exited e >>= f = exited e
crashed >>= f = crashed

-- `r?`, and `r.context(message)?`
abbrev pub try : {A : Type 0} → Result Error A → Exit A
try (ok a) = finished a
try (err e) = exited (from_error e)

abbrev pub try_context : {A : Type 0} → String → Result Error A → Exit A
try_context message (ok a) = finished a
try_context message (err e) = exited (with_context message (from_error e))

abbrev pub try_io : {A : Type 0} → Result String A → Exit A
try_io (ok a) = finished a
try_io (err e) = exited (from_io e)

abbrev pub try_io_context : {A : Type 0} → String → Result String A → Exit A
try_io_context message (ok a) = finished a
try_io_context message (err e) = exited (with_context message (from_io e))

abbrev pub try_outcome : {A : Type 0} → Outcome A → Exit A
try_outcome (done a) = finished a
try_outcome (failed e) = exited (from_error e)
try_outcome panicked = crashed

-- Inversion of a bind that finishes, and of the steps.
pub >>=-eq-finished :
    {A B : Type 0} (m : Exit A) (f : A → Exit B) {b : B}
    → (m >>= f) ≡ finished b
    → (a : A) × (m ≡ finished a) × (f a ≡ finished b)
>>=-eq-finished (finished a) f h = (a, refl, h)
>>=-eq-finished (exited e) f h = cc
>>=-eq-finished crashed f h = cc

pub try_context-eq-finished :
    {A : Type 0} (message : String) (r : Result Error A) {a : A}
    → try_context message r ≡ finished a
    → r ≡ ok a
try_context-eq-finished message (ok a) h = cc
try_context-eq-finished message (err e) h = cc

pub try_outcome-eq-finished :
    {A : Type 0} (m : Outcome A) {a : A} → try_outcome m ≡ finished a → m ≡ done a
try_outcome-eq-finished (done a) h = cc
try_outcome-eq-finished (failed e) h = cc
try_outcome-eq-finished panicked h = cc
