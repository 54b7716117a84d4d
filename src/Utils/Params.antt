-- ===== src/Utils/Params.antt =====
-- `validate_connection_params` of src/utils.rs.
use quic_serve.Prelude.{ℕ, ◌≤◌, ◌≡◌, ◌↔◌, Option, none, some, ltb, ◌==◌, ◌||◌, if◌then◌else◌, arith}
use quic_serve.Error.{Error, invalid_config, Result, ok, err, ◌>>◌}

-- `if let Some(v) = limit { if v < least { return Err(…) } }`
abbrev check_least : ℕ → Error → Option ℕ → Result Error (Unit {0})
check_least least e none = ok tt
check_least least e (some v) = if ltb v least then err e else ok tt

unfoldable pub validate_connection_params : Option ℕ → Option ℕ → ℕ → Result Error (Unit {0})
validate_connection_params keep_alive_ms idle_timeout_ms max_concurrent_streams = do
  check_least 100 (invalid_config "Keep-alive interval must be at least 100ms") keep_alive_ms
  check_least 1000 (invalid_config "Idle timeout must be at least 1000ms") idle_timeout_ms
  if max_concurrent_streams == 0 || ltb 1000 max_concurrent_streams
      then err (invalid_config "Max concurrent streams must be between 1 and 1000")
      else ok tt

-- A limit that is given is at least so large.
abbrev pub AtLeast : ℕ → Option ℕ → Type 0
AtLeast least none = Unit
AtLeast least (some v) = least ≤ v

-- The parameters are accepted exactly when a given keep-alive interval is at least 100 ms, a given idle
-- timeout at least 1000 ms, and the number of streams between 1 and 1000.
pub validate_connection_params_iff :
    (keep_alive_ms idle_timeout_ms : Option ℕ) (max_concurrent_streams : ℕ)
    → (validate_connection_params keep_alive_ms idle_timeout_ms max_concurrent_streams ≡ ok tt) ↔ (
        AtLeast 100 keep_alive_ms
        × AtLeast 1000 idle_timeout_ms
        × (1 ≤ max_concurrent_streams)
        × (max_concurrent_streams ≤ 1000))
unfolding validate_connection_params
validate_connection_params_iff none none n = ground arith
validate_connection_params_iff none (some i) n = ground arith
validate_connection_params_iff (some k) none n = ground arith
validate_connection_params_iff (some k) (some i) n = ground arith
