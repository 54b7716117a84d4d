-- ===== src/Benchmarks.antt =====
-- benches/benchmarks.rs: what it measures. Which benchmarks run how often is criterion's decision, and so
-- a parameter; every error there is a panic.
pub mod Echoes
use quic_serve.Prelude.{
  ℕ, zero, suc, String, Bool, false, ◌||◌, not, Option, none, some, List, [], ◌∷◌, str_eq, insert,
  string_eq, if◌then◌else◌,
}
use quic_serve.Error.{Error, method_not_found, Result, ok, err}
use quic_serve.Message.{Bytes, Request, Codec}
use quic_serve.Transport.{Wire}
use quic_serve.Config.{Config, SocketAddr, default}
use quic_serve.Config.Quinn.{Outcome, done, failed, panicked, ◌>>=◌, Tls, ServerConfig}
use quic_serve.Service.{Service}
use quic_serve.Server.{Server, register_service}
use quic_serve.Server
use quic_serve.Client.{Channel, Shared}
use quic_serve.Client.Wait.{Waited}
use quic_serve.Client.Whole.{call}
use quic_serve.Client.Lifecycle.{close}
use quic_serve.Examples.Matrix.{replicate}
use quic_serve.Examples.Echo.{EchoRequest}
use quic_serve.Examples.Certificates.{Rcgen, Files, generate_self_signed_cert}

pub record BenchRequest : Type 0 where
  pub payload : Bytes

pub record BenchResponse : Type 0 where
  pub payload : Bytes

unfoldable pub create_bench_request : ℕ → BenchRequest
create_bench_request size = record { payload = replicate size 0 }

-- `unwrap`
abbrev pub unwrap {ℓ} : {E : Type 0} {A : Type ℓ} → Result E A → Outcome A
unwrap (ok a) = done a
unwrap (err e) = panicked

abbrev pub unwrap_outcome {ℓ} : {A : Type ℓ} → Outcome A → Outcome A
unwrap_outcome (done a) = done a
unwrap_outcome (failed e) = panicked
unwrap_outcome panicked = panicked

-- Each closure of `bench_serialization`, on prost's and serde_json's code for the message.
module _ (codec : Codec EchoRequest) where
  abbrev pub sample : EchoRequest
  sample = record { message = "Hello, this is a benchmark message for serialization!" }

  unfoldable pub protobuf_serialize : Outcome Bytes
  protobuf_serialize = unwrap (codec.encode sample [])

  unfoldable pub json_serialize : Outcome Bytes
  json_serialize = unwrap (codec.to_vec sample)

  unfoldable pub protobuf_deserialize : Outcome EchoRequest
  unfolding protobuf_serialize
  protobuf_deserialize = protobuf_serialize >>= λ bytes. unwrap (codec.decode bytes)

  unfoldable pub json_deserialize : Outcome EchoRequest
  unfolding json_serialize
  json_deserialize = json_serialize >>= λ bytes. unwrap (codec.from_slice bytes)

-- `BenchService` never waits and changes nothing.
unfoldable pub call_bench : String → Bytes → Result Error Bytes
call_bench method payload =
    if str_eq method "echo" then ok payload else err (method_not_found method)

unfoldable pub bench_service : {World : Type 0} → Service World
unfolding call_bench
bench_service = record {
  call = λ method payload w. record {
    took = some 0;
    outcome = call_bench method payload;
    after = w;
    dropped = λ limit. w;
  };
  methods = λ w. "echo" ∷ [];
}

abbrev pub server_config : Config
server_config = record default {
  addr = record { ip = "127.0.0.1"; port = 4434 };
  cert_path = some "certs/bench_server.crt";
  key_path = some "certs/bench_server.key";
}

abbrev pub client_config : Config
client_config = record default {
  addr = record { ip = "127.0.0.1"; port = 4434 };
  verify_peer = false;
}

abbrev pub and_then :
    {A Disk : Type 0}
    → Result String (Unit {0}) × Disk
    → (Disk → Outcome A × Disk)
    → Outcome A × Disk
and_then (err e, d) rest = (panicked, d)
and_then (ok _, d) rest = rest d

-- The server's thread, up to `serve`.
module _ {World Endpoint Store DistinguishedName Certificate Disk : Type 0}
    (rcgen : Rcgen DistinguishedName Certificate) (files : Files Disk) (tls : Disk → Tls Store)
    (bind : ServerConfig → SocketAddr → Result String Endpoint)
    (set_protocols : Endpoint → Endpoint) where
  abbrev started : Disk → Outcome (Server World Endpoint) × Disk
  started d = (
    unwrap_outcome (Server.new (tls d) bind set_protocols server_config) >>= λ server.
        done (register_service "bench" bench_service server).1,
    d,
  )

  unfoldable pub start : Disk → Outcome (Server World Endpoint) × Disk
  unfolding register_service bench_service generate_self_signed_cert
  start d =
      if not (files.exists "certs/bench_server.crt" d)
        || not (files.exists "certs/bench_server.key" d)
      then and_then (files.create_dir_all "certs" d)
          (λ d1. and_then (generate_self_signed_cert rcgen files "certs/bench_server" d1) started)
      else started d

-- The client's part of `bench_rpc_calls`; `during` is what its other tasks do while it waits.
module _ {Session : Type 0} (wire : Wire) (bench_requests : Codec BenchRequest)
    (requests : Codec Request) (bench_responses : Codec BenchResponse)
    (during : Channel → Shared Session → Waited × Shared Session) where
  abbrev unwrapped :
      Result Error BenchResponse × Shared Session → Outcome BenchResponse × Shared Session
  unwrapped (r, s) = (unwrap r, s)

  -- What `b.iter` measures.
  unfoldable pub iteration : ℕ → Shared Session → Outcome BenchResponse × Shared Session
  unfolding call create_bench_request
  iteration size s = unwrapped (
      call wire bench_requests requests bench_responses client_config.format during "bench.echo"
        (create_bench_request size) s)

  abbrev and_again :
      Outcome BenchResponse × Shared Session
      → (Shared Session → Outcome (Unit {0}) × Shared Session)
      → Outcome (Unit {0}) × Shared Session
  and_again (done _, s) rest = rest s
  and_again (failed e, s) rest = (failed e, s)
  and_again (panicked, s) rest = (panicked, s)

  -- So many iterations with one size.
  unfoldable pub iterations : ℕ → ℕ → Shared Session → Outcome (Unit {0}) × Shared Session
  unfolding iteration
  iterations zero size s = (done tt, s)
  iterations (suc n) size s = let rest = iterations n size in and_again (iteration size s) rest

  abbrev and_next :
      Outcome (Unit {0}) × Shared Session
      → (Shared Session → Outcome (Unit {0}) × Shared Session)
      → Outcome (Unit {0}) × Shared Session
  and_next (done _, s) rest = rest s
  and_next (failed e, s) rest = (failed e, s)
  and_next (panicked, s) rest = (panicked, s)

  -- The group, with the number of iterations of each size, and `close`.
  unfoldable pub group :
      (ten hundred thousand ten_thousand : ℕ) → Shared Session → Outcome (Unit {0}) × Shared Session
  unfolding iterations close
  group a b c d s0 = and_next (iterations a 10 s0) λ s1. and_next (iterations b 100 s1) λ s2.
      and_next (iterations c 1000 s2)
        λ s3. and_next (iterations d 10000 s3) λ s4. (done tt, (close s4).1)
