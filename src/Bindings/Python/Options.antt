-- ===== src/Bindings/Python/Options.antt =====
-- The options that `PyClient::new` and `PyServer::new` of src/bindings/python.rs read.
use quic_serve.Prelude.{String, Option, none, some, Assoc, get, string_eq, str_eq, if◌then◌else◌}
use quic_serve.Error.{Result, ok, err, ◌>>=◌}
use quic_serve.Message.{SerializationFormat, json, protobuf}
use quic_serve.Config.{Config}
use quic_serve.Bindings.Python.{PyErr, value_error, Python}

module _ {Value : Type 0} (python : Python Value) where
  -- `if let Some(value) = opts.get_item(key) { … extract()?; … }`
  abbrev pub option_as :
      {A : Type 0}
      → (Value → Result PyErr A)
      → (A → Config → Config)
      → Option Value
      → Config
      → Result PyErr Config
  option_as extract set none config = ok config
  option_as extract set (some value) config = do a ← extract value; ok (set a config)

  abbrev format_of : String → Result PyErr SerializationFormat
  format_of name =
      if str_eq name "json"
      then ok json
      else if str_eq name "protobuf"
      then ok protobuf
      else err (value_error "Invalid format, must be 'json' or 'protobuf'")

  unfoldable pub extract_format : Value → Result PyErr SerializationFormat
  extract_format value = do name ← python.extract_string value; format_of name

  unfoldable pub client_options : Assoc String Value → Config → Result PyErr Config
  unfolding extract_format
  client_options opts c0 = do
    c1 ←
        option_as python.extract_string (λ p c. record c { cert_path = some p })
          (get "cert_path" opts) c0
    c2 ←
        option_as python.extract_string (λ p c. record c { key_path = some p })
          (get "key_path" opts) c1
    c3 ←
        option_as python.extract_string (λ p c. record c { ca_path = some p }) (get "ca_path" opts)
          c2
    c4 ←
        option_as python.extract_bool (λ b c. record c { verify_peer = b }) (get "verify_peer" opts)
          c3
    c5 ←
        option_as python.extract_u64 (λ n c. record c { timeout_ms = n }) (get "timeout_ms" opts) c4
    c6 ←
        option_as python.extract_string (λ s c. record c { server_name = some s })
          (get "server_name" opts) c5
    option_as extract_format (λ f c. record c { format = f }) (get "format" opts) c6

  unfoldable pub server_options : Assoc String Value → Config → Result PyErr Config
  unfolding extract_format
  server_options opts c0 = do
    c1 ←
        option_as python.extract_string (λ p c. record c { cert_path = some p })
          (get "cert_path" opts) c0
    c2 ←
        option_as python.extract_string (λ p c. record c { key_path = some p })
          (get "key_path" opts) c1
    c3 ←
        option_as python.extract_string (λ p c. record c { ca_path = some p }) (get "ca_path" opts)
          c2
    c4 ←
        option_as python.extract_u64 (λ n c. record c { timeout_ms = n }) (get "timeout_ms" opts) c3
    option_as extract_format (λ f c. record c { format = f }) (get "format" opts) c4

  -- `if let Some(opts) = options { … }`
  abbrev pub given :
      (Assoc String Value → Config → Result PyErr Config)
      → Option (Assoc String Value)
      → Config
      → Result PyErr Config
  given apply none config = ok config
  given apply (some opts) config = apply opts config
