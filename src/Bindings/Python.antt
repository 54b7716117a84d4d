-- ===== src/Bindings/Python.antt =====
-- src/bindings/python.rs: exceptions, and what the binding uses of pyo3.
pub mod Options
pub mod Calls
pub mod Serving
pub mod Applied
pub mod Registered
pub mod Remote
pub mod Module
use quic_serve.Prelude.{ℕ, String, Bool, Option, ◌≡◌, refl}
use quic_serve.Error.{
  Error, quic, http3, web_transport, timeout, connection_closed, invalid_config, to_string, Result,
  ok, err,
}
use quic_serve.Message.{Bytes}
use quic_serve.Config.Quinn.{Outcome, done, failed, panicked}

-- The exceptions that the binding raises, and any other that Python code does.
pub data PyErr : Type 0 where
  timeout_error : String → PyErr
  connection_error : String → PyErr
  value_error : String → PyErr
  runtime_error : String → PyErr
  exception : String → PyErr

unfoldable pub err_to_py : Error → PyErr
unfolding to_string
err_to_py timeout = timeout_error (to_string timeout)
err_to_py connection_closed = connection_error (to_string connection_closed)
err_to_py (quic e) = connection_error (to_string (quic e))
err_to_py (web_transport e) = connection_error (to_string (web_transport e))
err_to_py (http3 e) = connection_error (to_string (http3 e))
err_to_py (invalid_config e) = value_error (to_string (invalid_config e))
err_to_py e = runtime_error (to_string e)

-- How a function of the binding ends; a panic reaches Python as an exception of its own kind.
pub data Ending (A : Type 0) : Type 0 where
  returned : A → Ending A
  raised : PyErr → Ending A
  panicking : Ending A

infixl 5 ◌>>=◌
abbrev pub ◌>>=◌ : {A B : Type 0} → Ending A → (A → Ending B) → Ending B
returned a >>= f = f a
raised e >>= f = raised e
panicking >>= f = panicking

-- `r?`, and `r.map_err(err_to_py)?`
abbrev pub try : {A : Type 0} → Result PyErr A → Ending A
try (ok a) = returned a
try (err e) = raised e

unfoldable pub try_outcome : {A : Type 0} → Outcome A → Ending A
unfolding err_to_py
try_outcome (done a) = returned a
try_outcome (failed e) = raised (err_to_py e)
try_outcome panicked = panicking

pub >>=-eq-returned :
    {A B : Type 0} (m : Ending A) (f : A → Ending B) {b : B}
    → (m >>= f) ≡ returned b
    → (a : A) × (m ≡ returned a) × (f a ≡ returned b)
>>=-eq-returned (returned a) f h = (a, refl, h)
>>=-eq-returned (raised e) f h = cc
>>=-eq-returned panicking f h = cc

pub try_outcome-eq-returned :
    {A : Type 0} (m : Outcome A) {a : A} → try_outcome m ≡ returned a → m ≡ done a
unfolding try_outcome
try_outcome-eq-returned (done a) h = cc
try_outcome-eq-returned (failed e) h = cc
try_outcome-eq-returned panicked h = cc

-- What pyo3 does with Python's values. `into_bytes` is `String::into_bytes`, `display` the text of an
-- exception.
pub record Python (Value : Type 0) : Type 0 where
  pub extract_string : Value → Result PyErr String
  pub extract_bool : Value → Result PyErr Bool
  pub extract_u64 : Value → Result PyErr ℕ
  pub is_none : Value → Bool
  pub as_bytes : Value → Option Bytes
  pub hasattr : String → Value → Result PyErr Bool
  pub import_module : String → Result PyErr Value
  pub call_method0 : String → Value → Result PyErr Value
  pub call_method1 : String → Value → Value → Result PyErr Value
  pub into_bytes : String → Bytes
  pub display : PyErr → String
