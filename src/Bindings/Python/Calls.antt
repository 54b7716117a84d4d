-- ===== src/Bindings/Python/Calls.antt =====
-- What `PyClient::call` sends, and the services written in Python: src/bindings/python.rs.
use quic_serve.Prelude.{
  String, ◌<>◌, Bool, true, false, Option, none, some, List, [], if◌then◌else◌,
}
use quic_serve.Error.{Error, other, Result, ok, err, ◌>>=◌, ok_or}
use quic_serve.Message.{Bytes}
use quic_serve.Service.{Service}
use quic_serve.Bindings.Python.{PyErr, value_error, Python}

module _ {Value : Type 0} (python : Python Value) where
  -- An object that can serialize itself does so; any other goes through Python's json module.
  abbrev serialized : Bool → Value → Result PyErr Bytes
  serialized true args = do
    result ← python.call_method0 "serialize" args
    ok_or (value_error "serialize() method must return bytes") (python.as_bytes result)
  serialized false args = do
    module_json ← python.import_module "json"
    json_str ← python.call_method1 "dumps" module_json args
    text ← python.extract_string json_str
    ok (python.into_bytes text)

  abbrev unless_bytes : Option Bytes → Value → Result PyErr Bytes
  unless_bytes (some b) args = ok b
  unless_bytes none args = do able ← python.hasattr "serialize" args; serialized able args

  unfoldable pub payload_of : Value → Result PyErr Bytes
  payload_of args = if python.is_none args then ok [] else unless_bytes (python.as_bytes args) args

  abbrev bytes_or_error : Option Bytes → Result Error Bytes
  bytes_or_error none = err (other "Python service returned non-bytes result")
  bytes_or_error (some b) = ok b

  -- What the bridge makes of the outcome of the service's `call`.
  abbrev pub bridge_outcome : Result PyErr Value → Result Error Bytes
  bridge_outcome (ok result) = bytes_or_error (python.as_bytes result)
  bridge_outcome (err e) = err (other ("Python service error: " <> python.display e))

  -- An object with the methods `call` and `methods`; they may change the state of the interpreter.
  -- `extract_names` is what a list of texts is extracted by.
  module _ {World : Type 0} (call_object : String → Bytes → World → Result PyErr Value × World)
      (methods_of : World → Result PyErr Value)
      (extract_names : Value → Result PyErr (List String)) where
    abbrev names_or_none : Result PyErr (List String) → List String
    names_or_none (ok names) = names
    names_or_none (err _) = []

    -- `PythonServiceBridge`. Its `call` awaits nothing: however long the Python method runs, the future is
    -- complete when its first poll returns, so it spends no time waiting, and cannot be dropped before.
    unfoldable pub bridge : Service World
    bridge = record {
      call = λ method payload w.
          let (result, w') = call_object method payload w in
          record {
            took = some 0;
            outcome = bridge_outcome result;
            after = w';
            dropped = λ limit. w';
          };
      methods = λ w. names_or_none (methods_of w >>= extract_names);
    }
