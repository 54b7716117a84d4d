-- ===== src/Tests/Helpers.antt =====
-- The helpers of src/utils.rs, the codecs and the serialization formats at concrete inputs.
use quic_serve.Prelude.{
  ℕ, zero, suc, ◌+◌, ◌<◌, ◌≡◌, refl, String, contains, decimal, none, some, [], ◌∷◌, str_eq,
  if◌then◌else◌, arith,
}
use quic_serve.Error.{Error, timeout, connection_closed, invalid_config, Result, ok, err}
use quic_serve.Message.{protobuf, json}
use quic_serve.Transport.ProtobufCodec
use quic_serve.Transport.Codecs.{ProtobufCodec_decode-encode}
use quic_serve.Utils.Format.{parse_format, format_method_name, splitn}
use quic_serve.Utils.Format.Methods.{splitn-format_method_name}
use quic_serve.Utils.Retry.{retry_with_backoff}
use quic_serve.Utils.Retry.Outcome.{Fails, EndsWith, retry_with_backoff-ok, retry_with_backoff-err}
use quic_serve.Utils.Retry.Sleeps.{Ends, retry_with_backoff-Ends}
use quic_serve.Utils.Address.{parse_socket_addr}
use quic_serve.Config.{SocketAddr}
use quic_serve.Tests.Toy.{raw, raw-IsLawful}

-- An empty encoding is lost.
ProtobufCodec_decode-encode_example :
    ProtobufCodec.decode raw (ProtobufCodec.encode raw [] []).1 ≡ (ok none, [])
ProtobufCodec_decode-encode_example = ProtobufCodec_decode-encode raw raw-IsLawful [] [] refl

parse_format_runs :
    (parse_format "ProtoBuf" ≡ ok protobuf)
    × (parse_format "JSON" ≡ ok json)
    × (parse_format "xml" ≡ err (invalid_config "Unknown serialization format: xml"))
unfolding parse_format
parse_format_runs = (refl, refl, refl)

splitn-format_method_name_example : splitn "math.add.all" ≡ "math" ∷ "add.all" ∷ []
unfolding contains format_method_name
splitn-format_method_name_example = splitn-format_method_name "math" "add.all" refl

-- Two failures and then a success, with delays that double.
abbrev attempts : ℕ → Result Error ℕ
attempts zero = err timeout
attempts (suc zero) = err connection_closed
attempts (suc (suc n)) = ok n

abbrev doubled : ℕ → ℕ → ℕ
doubled n ms = ms + ms

first_fail : (i : ℕ) → i < 2 → Fails attempts doubled i
first_fail zero h = (timeout, refl)
first_fail (suc zero) h = (connection_closed, refl)
first_fail (suc (suc i)) h = absurd (omega arith)

retry_run :
    retry_with_backoff attempts doubled 100000000 150000000 5
    ≡ some (record { result = ok 0; calls = 3; sleeps = 100000000 ∷ 150000000 ∷ [] })
unfolding retry_with_backoff
retry_run = refl

retry_with_backoff-ok_example :
    EndsWith attempts doubled (ok 0) 3 (retry_with_backoff attempts doubled 100 150 5)
retry_with_backoff-ok_example =
    retry_with_backoff-ok attempts doubled 100 150 5 2 0 (omega arith) first_fail refl

one-Fails : (i : ℕ) → i < 1 → Fails attempts doubled i
one-Fails zero h = (timeout, refl)
one-Fails (suc i) h = absurd (omega arith)

retry_with_backoff-err_example :
    EndsWith attempts doubled
      (err connection_closed)
      2
      (retry_with_backoff attempts doubled 100 150 2)
retry_with_backoff-err_example =
    retry_with_backoff-err attempts doubled 100 150 2 1 connection_closed (omega arith) one-Fails
      refl

retry_with_backoff-Ends_example : Ends 150 0 (retry_with_backoff attempts doubled 100 150 0)
retry_with_backoff-Ends_example = retry_with_backoff-Ends attempts doubled 100 150 0

-- A parser that knows one address.
abbrev pub parse : String → Result String SocketAddr
parse s =
    if str_eq s "10.0.0.1:4433"
    then ok (record { ip = "10.0.0.1"; port = 4433 })
    else err "invalid socket address syntax"

parse_socket_addr_run :
    parse_socket_addr parse "10.0.0.1" 4433 ≡ ok (record { ip = "10.0.0.1"; port = 4433 })
unfolding parse_socket_addr contains decimal
parse_socket_addr_run = refl
