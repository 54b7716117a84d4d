-- ===== src/Bindings/Node.antt =====
-- src/bindings/node.rs: errors, what the binding uses of napi, the options of a configuration, and the
-- services that are objects of JavaScript.
pub mod Results
pub mod Options
pub mod Objects
pub mod Limits
pub mod Mirrored
pub mod Init
use quic_serve.Prelude.{
  ℕ, zero, suc, String, ◌<>◌, Bool, Option, none, some, List, [], Assoc, get, insert, keys,
  string_eq,
}
use quic_serve.Error.{Error, method_not_found, to_string, Result, ok, err, ◌>>=◌}
use quic_serve.Message.{Bytes}
use quic_serve.Config.Quinn.{Outcome, failed, panicked}

pub data Status : Type 0 where
  generic_failure invalid_arg : Status

-- An error of the binding, or one that napi returns.
pub data JsError : Type 0 where
  new : Status → String → JsError
  napi : String → JsError

-- What napi does with JavaScript's values. `named_string` is `get_named_property::<JsString>`, and so on;
-- `text` is `into_utf8()?.into_owned()?`, `truth` is `coerce_to_bool()?.get_value()?`.
pub record Napi (Value : Type 0) : Type 0 where
  pub named_string : String → Value → Result JsError Value
  pub named_number : String → Value → Result JsError Value
  pub named_object : String → Value → Result JsError Value
  pub text : Value → Result JsError String
  pub truth : Value → Result JsError Bool
  pub get_uint32 : Value → Result JsError ℕ
  pub as_string : Value → Result JsError Value
  pub as_object : Value → Result JsError Value
  pub as_function : Value → Result JsError Value
  pub get_property_names : Value → Result JsError Value
  pub get_array_length : Value → Result JsError ℕ
  pub string_element : ℕ → Value → Result JsError Value
  pub function_property : Value → Value → Result JsError Value

-- `JsService`
pub record JsService (Value : Type 0) : Type 0 where
  pub name : String
  pub methods : Assoc String Value

module _ {Value : Type 0} where
  abbrev handled : String → Option Value → Outcome Bytes
  handled method none = failed (method_not_found ("Method not found: " <> method))
  handled method (some handler) = panicked

  -- `call`: calling the handler is left `unimplemented!()`.
  unfoldable pub call : JsService Value → String → Bytes → Outcome Bytes
  call self method payload = handled method (get method self.methods)

  unfoldable pub methods_of : JsService Value → List String
  methods_of self = keys self.methods

  module _ (js : Napi Value) where
    -- `for i in 0..length`, with so many rounds left, the next at `i`.
    unfoldable pub store_methods :
        (handler names : Value) (left i : ℕ)
        → Assoc String Value
        → Result JsError (Assoc String Value)
    store_methods handler names zero i methods = ok methods
    store_methods handler names (suc left) i methods = do
      method_name ← js.string_element i names
      method_name_str ← js.text method_name
      method ← js.function_property method_name handler
      store_methods handler names left (suc i) (insert method_name_str method methods)
