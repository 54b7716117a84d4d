-- ===== src/Bindings/Node/Options.antt =====
-- `js_config_to_config` of src/bindings/node.rs. `parse` is `SocketAddr::from_str`.
use quic_serve.Prelude.{String, ◌<>◌, some, str_eq, List, [], ◌∷◌, if◌then◌else◌}
use quic_serve.Error.{Result, ok, err, ◌>>=◌, map_err}
use quic_serve.Message.{SerializationFormat, protobuf, json}
use quic_serve.Config.{Config, SocketAddr}
use quic_serve.Config
use quic_serve.Bindings.Node.{JsError, new, invalid_arg, Napi}

-- `if let Ok(value) = property { … extract(value)?; … }`
unfoldable pub if_ok :
    {Value A : Type 0}
    → Result JsError Value
    → (Value → Result JsError A)
    → (A → Config → Config)
    → Config
    → Result JsError Config
if_ok (err _) extract set c = ok c
if_ok (ok value) extract set c = do a ← extract value; ok (set a c)

-- One after the other, up to the first error.
abbrev pub apply_all : List (Config → Result JsError Config) → Config → Result JsError Config
apply_all [] c = ok c
apply_all (f ∷ rest) c = f c >>= apply_all rest

abbrev format_named : String → Result JsError SerializationFormat
format_named name =
    if str_eq name "protobuf"
    then ok protobuf
    else if str_eq name "json"
    then ok json
    else err (new invalid_arg "Invalid format")

module _ {Value : Type 0} (js : Napi Value) (parse : String → Result String SocketAddr) where
  abbrev pub format_of : Value → Result JsError SerializationFormat
  format_of value = do name ← js.text value; format_named name

  -- The optional properties, in the order in which they are read.
  unfoldable pub options : Value → List (Config → Result JsError Config)
  options o =
      if_ok (js.named_string "certPath" o) js.text (λ p c. record c { cert_path = some p })
      ∷ if_ok (js.named_string "keyPath" o) js.text (λ p c. record c { key_path = some p })
      ∷ if_ok (js.named_string "caPath" o) js.text (λ p c. record c { ca_path = some p })
      ∷ if_ok (js.named_object "verifyPeer" o) js.truth (λ b c. record c { verify_peer = b })
      ∷ if_ok (js.named_string "format" o) format_of (λ f c. record c { format = f })
      ∷ if_ok (js.named_number "timeoutMs" o) js.get_uint32 (λ n c. record c { timeout_ms = n })
      ∷ if_ok (js.named_number "maxConcurrentStreams" o) js.get_uint32
          (λ n c. record c { max_concurrent_streams = n })
      ∷ if_ok (js.named_number "keepAliveMs" o) js.get_uint32
          (λ n c. record c { keep_alive_ms = some n })
      ∷ if_ok (js.named_number "idleTimeoutMs" o) js.get_uint32
          (λ n c. record c { idle_timeout_ms = some n })
      ∷ if_ok (js.named_string "serverName" o) js.text (λ s c. record c { server_name = some s })
      ∷ []

  unfoldable pub js_config_to_config : Value → Result JsError Config
  unfolding Config.new options
  js_config_to_config o = do
    addr_value ← js.named_string "addr" o
    addr_str ← js.text addr_value
    addr ← map_err (λ e. new invalid_arg ("Invalid address: " <> e)) (parse addr_str)
    apply_all (options o) (Config.new addr)
