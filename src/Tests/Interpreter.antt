-- ===== src/Tests/Interpreter.antt =====
-- The Python binding, on an interpreter that has four kinds of values.
use quic_serve.Prelude.{
  ℕ, ◌+◌, ◌≡◌, refl, String, Bool, true, false, none, some, [], ◌∷◌, Assoc, get, string_eq,
}
use quic_serve.Error.{Result, ok, err}
use quic_serve.Message.{json}
use quic_serve.Config.{default}
use quic_serve.Service.{Service}
use quic_serve.Bindings.Python.{PyErr, exception, Python}
use quic_serve.Bindings.Python.Options.{client_options, extract_format}
use quic_serve.Bindings.Python.Applied.{present, absent, client_options-IsGiven}
use quic_serve.Bindings.Python.Calls.{bridge}

data Value : Type 0 where
  nothing : Value
  text : String → Value
  truth : Bool → Value
  number : ℕ → Value

abbrev as_text : Value → Result PyErr String
as_text (text s) = ok s
as_text _ = err (exception "TypeError: not a str")

abbrev as_truth : Value → Result PyErr Bool
as_truth (truth b) = ok b
as_truth _ = err (exception "TypeError: not a bool")

abbrev as_number : Value → Result PyErr ℕ
as_number (number n) = ok n
as_number _ = err (exception "TypeError: not an int")

abbrev is_nothing : Value → Bool
is_nothing nothing = true
is_nothing _ = false

abbrev python : Python Value
python = record {
  extract_string = as_text;
  extract_bool = as_truth;
  extract_u64 = as_number;
  is_none = is_nothing;
  as_bytes = λ v. none;
  hasattr = λ name v. ok false;
  import_module = λ name. ok nothing;
  call_method0 = λ name v. err (exception "AttributeError");
  call_method1 = λ name m v. ok (text "null");
  into_bytes = λ s. [];
  display = λ e. "error";
}

abbrev opts : Assoc String Value
opts =
    ("timeout_ms", number 50)
    ∷ ("verify_peer", truth false)
    ∷ ("ca_path", text "ca.crt")
    ∷ ("format", text "json")
    ∷ ("idle_timeout_ms", number 7)
    ∷ []

client_options-IsGiven_example :
    client_options python opts default
    ≡ ok (record default {
      ca_path = some "ca.crt";
      verify_peer = false;
      timeout_ms = 50;
      format = json;
    })
unfolding get extract_format
client_options-IsGiven_example =
    client_options-IsGiven python opts none none (some "ca.crt") none (some false) (some 50)
      (some json) default
      (record {
        cert_path = absent;
        key_path = absent;
        ca_path = present (text "ca.crt") "ca.crt" refl;
        verify_peer = present (truth false) false refl;
        timeout_ms = present (number 50) 50 refl;
        server_name = absent;
        format_name = present (text "json") json refl;
      })

-- A method of Python that returns no bytes.
abbrev wordless : Service ℕ
wordless = bridge python (λ method payload w. (ok nothing, w + 1)) (λ w. ok nothing) (λ v. ok [])
