-- ===== src/Config/Client/Ignored.antt =====
-- Which settings `build_client_config` reads, and when it panics.
use quic_serve.Prelude.{ℕ, ◌<◌, String, ◌≡◌, ◌≢◌, refl, inl, inr, Option, none, some, arith}
use quic_serve.Config.{Config}
use quic_serve.Config.Quinn.{panicked, >>=-eq-panicked, Tls}
use quic_serve.Config.Client.{idle_timeout, client_roots, build_client_config}

-- Two configurations agree on the CA file, the server name, and the two intervals.
pub record Agrees (c d : Config) : Type 0 where
  pub ca_path : c.ca_path ≡ d.ca_path
  pub server_name : c.server_name ≡ d.server_name
  pub keep_alive_ms : c.keep_alive_ms ≡ d.keep_alive_ms
  pub idle_timeout_ms : c.idle_timeout_ms ≡ d.idle_timeout_ms

module _ {Store : Type 0} (tls : Tls Store) where
  -- The client configuration depends on the CA file, the server name and the two intervals alone:
  -- configurations that agree on these give the same, whatever their `verify_peer`, certificate, key,
  -- limit on the streams, format, timeout and address.
  pub build_client_config-Agrees :
      (c d : Config) → Agrees c d → build_client_config tls c ≡ build_client_config tls d
  unfolding build_client_config
  build_client_config-Agrees c d h =
      ground (arith, h.ca_path, h.server_name, h.keep_alive_ms, h.idle_timeout_ms)

  idle_timeout-panics :
      (o : Option ℕ)
      → idle_timeout tls o ≡ panicked
      → (ms : ℕ) × (o ≡ some ms) × (tls.varint_max < ms)
  idle_timeout-panics none h = cc
  idle_timeout-panics (some ms) h = (ms, refl, ground arith)

  client_roots-not-panicked : (ca name : Option String) → client_roots tls ca name ≢ panicked
  unfolding client_roots
  client_roots-not-panicked none name h = cc
  client_roots-not-panicked (some ca) name h = ground arith

  -- Building a client configuration panics only if there is an idle timeout past the greatest `VarInt`.
  pub build_client_config-panics :
      (c : Config)
      → build_client_config tls c ≡ panicked
      → (ms : ℕ) × (c.idle_timeout_ms ≡ some ms) × (tls.varint_max < ms)
  unfolding build_client_config
  build_client_config-panics c h =
      elim (>>=-eq-panicked (client_roots tls c.ca_path c.server_name) _ h) [
        | inl roots ↦ absurd (client_roots-not-panicked c.ca_path c.server_name roots)
        | inr (roots, made, h') ↦ elim (>>=-eq-panicked (idle_timeout tls c.idle_timeout_ms) _ h') [
          | inl idle ↦ idle_timeout-panics c.idle_timeout_ms idle
          | inr (idle, _, never) ↦ cc
        ]
      ]
