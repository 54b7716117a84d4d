-- ===== src/Examples/Echo.antt =====
-- `EchoService` of examples/rpc_server.rs, with the messages of src/protos that it exchanges.
use quic_serve.Prelude.{
  ℕ, String, ◌<>◌, decimal, some, [], ◌∷◌, str_eq, ◌-◌, ◌^◌, ltb, if◌then◌else◌,
}
use quic_serve.Error.{Error, method_not_found, decoding, encoding, Result, err, ◌>>=◌, map_err}
use quic_serve.Message.{Bytes, Codec}
use quic_serve.Service.{Service}

pub record EchoRequest : Type 0 where
  pub message : String

pub record EchoResponse : Type 0 where
  pub message : String

-- An `int32` or `int64` is its 32 or 64 bits.
pub record StreamRequest : Type 0 where
  pub count : ℕ
  pub interval_ms : ℕ

pub record StreamResponse : Type 0 where
  pub sequence : ℕ
  pub payload : String
  pub timestamp : ℕ

-- `{}` of an `i32`
unfoldable pub decimal_i32 : ℕ → String
decimal_i32 n = if ltb n (2 ^ 31) then decimal n else ("-" <> decimal (2 ^ 32 - n))

-- prost's code for the four messages.
pub record EchoCodecs : Type 0 where
  pub echo_request : Codec EchoRequest
  pub echo_response : Codec EchoResponse
  pub stream_request : Codec StreamRequest
  pub stream_response : Codec StreamResponse

-- `now` is the number of seconds since 1970 on the clock, which is not set before it.
module _ {World : Type 0} (codecs : EchoCodecs) (now : World → ℕ) where
  abbrev echo : Bytes → Result Error Bytes
  echo payload = do
    request ← map_err decoding (codecs.echo_request.decode payload)
    map_err encoding
        (codecs.echo_response.encode (record { message = "Echo: " <> request.message }) [])

  abbrev stream : Bytes → World → Result Error Bytes
  stream payload w = do
    request ← map_err decoding (codecs.stream_request.decode payload)
    map_err encoding (
        codecs.stream_response.encode
          (record {
            sequence = 1;
            payload = "First response of " <> decimal_i32 request.count;
            timestamp = now w;
          })
          [])

  unfoldable pub call : String → Bytes → World → Result Error Bytes
  unfolding decimal_i32
  call method payload w =
      if str_eq method "echo"
      then echo payload
      else if str_eq method "stream"
      then stream payload w
      else err (method_not_found method)

  -- Its `call` never waits.
  unfoldable pub echo_service : Service World
  unfolding call
  echo_service = record {
    call = λ method payload w. record {
      took = some 0;
      outcome = call method payload w;
      after = w;
      dropped = λ limit. w;
    };
    methods = λ w. "echo" ∷ "stream" ∷ [];
  }
