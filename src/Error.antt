-- ===== src/Error.antt =====
-- src/error.rs: the error type, its `Display` text, and the conversions into it.
-- An error of another crate is met only through its text, so each of its kinds holds that text.
use quic_serve.Prelude.{String, ◌<>◌, Option, none, some}

pub data Error : Type 0 where
  io quic http3 web_transport : String → Error
  serialization deserialization encoding decoding : String → Error
  method_not_found : String → Error
  timeout : Error
  rpc_failed : String → Error
  connection_closed : Error
  invalid_config authentication_failed certificate_error other : String → Error

-- `Result<T, E>`
pub data Result {ℓ κ} (E : Type ℓ) (A : Type κ) : Type (ℓ ⊔ κ) where
  ok : A → Result E A
  err : E → Result E A

infixl 5 ◌>>=◌ ◌>>◌
-- The `?` operator.
abbrev pub ◌>>=◌ {ℓ κ μ} :
    {E : Type ℓ} {A : Type κ} {B : Type μ} → Result E A → (A → Result E B) → Result E B
ok a >>= f = f a
err e >>= f = err e

abbrev pub ◌>>◌ {ℓ κ μ} :
    {E : Type ℓ} {A : Type κ} {B : Type μ} → Result E A → Result E B → Result E B
m >> k = m >>= λ _. k

-- `map_err`
abbrev pub map_err {ℓ κ μ} :
    {E : Type ℓ} {F : Type κ} {A : Type μ} → (E → F) → Result E A → Result F A
map_err f (ok a) = ok a
map_err f (err e) = err (f e)

-- `Option::ok_or_else`
abbrev pub ok_or {ℓ κ} : {E : Type ℓ} {A : Type κ} → E → Option A → Result E A
ok_or e none = err e
ok_or e (some a) = ok a

-- The `#[error(…)]` attributes.
unfoldable pub to_string : Error → String
to_string (io e) = "IO error: " <> e
to_string (quic e) = "QUIC connection error: " <> e
to_string (http3 e) = "HTTP/3 error: " <> e
to_string (web_transport e) = "WebTransport error: " <> e
to_string (serialization e) = "Serialization error: " <> e
to_string (deserialization e) = "Deserialization error: " <> e
to_string (encoding e) = "Protocol buffer encoding error: " <> e
to_string (decoding e) = "Protocol buffer decoding error: " <> e
to_string (method_not_found m) = "Method not found: " <> m
to_string timeout = "Request timeout"
to_string (rpc_failed e) = "RPC call failed: " <> e
to_string connection_closed = "Connection closed"
to_string (invalid_config e) = "Invalid configuration: " <> e
to_string (authentication_failed e) = "Authentication failed: " <> e
to_string (certificate_error e) = "Certificate error: " <> e
to_string (other e) = e

-- The `From` implementations, each given the text of the error that it converts.
unfoldable pub from_anyhow : String → Error
from_anyhow e = other e

unfoldable pub from_connect_error : String → Error
from_connect_error e = quic e

unfoldable pub from_connection_error : String → Error
from_connection_error e = quic e

unfoldable pub from_h3 : String → Error
from_h3 e = http3 e
