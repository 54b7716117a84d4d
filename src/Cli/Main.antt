-- ===== src/Cli/Main.antt =====
-- `main` of src/bin/quicserve.rs, and `configure_logging` of src/utils.rs.
use quic_serve.Prelude.{String, ◌≡◌, Bool, true, false, Option, none, some}
use quic_serve.Error.{Result, ok, err}
use quic_serve.Cli.{Cli, Commands, serve, connect, ServerArgs, ClientArgs}
use quic_serve.Cli.Exit.{Exit, finished, exited, crashed}

-- What env_logger and the log crate do to a process: `try_init` takes its filter from RUST_LOG, and
-- `installed` is the filter of the logger that the process has. A logger, once set, stays.
pub record Logging (Process : Type 0) : Type 0 where
  pub rust_log : Process → Option String
  pub set_rust_log : String → Process → Process
  pub try_init : Process → Result String (Unit {0}) × Process
  pub installed : Process → Option String
  pub installed-set_rust_log :
      (filter : String) (p : Process) → installed (set_rust_log filter p) ≡ installed p
  pub try_init-ok :
      (p q : Process) → try_init p ≡ (ok tt, q) → (filter : String) × (installed q ≡ some filter)
  pub try_init-stays :
      (p : Process) (filter : String)
      → installed p ≡ some filter
      → installed (try_init p).1 ≡ some filter

module _ {Process : Type 0} (logging : Logging Process) where
  abbrev pub default_filter : Option String → Process → Process
  default_filter none p = logging.set_rust_log "info,quicserve=debug" p
  default_filter (some _) p = p

  -- `env_logger::init()` is `try_init` that panics.
  abbrev pub or_panic : Result String (Unit {0}) × Process → Exit Process
  or_panic (ok _, p) = finished p
  or_panic (err e, p) = crashed

  unfoldable pub configure_logging : Process → Exit Process
  configure_logging p = or_panic (logging.try_init (default_filter (logging.rust_log p) p))

  -- `env_logger::try_init().ok()`
  unfoldable pub set_log_level : Bool → Process → Process
  set_log_level true p = (logging.try_init (logging.set_rust_log "debug,quicserve=trace" p)).1
  set_log_level false p = p

  module _ (run_server : ServerArgs → Exit (Unit {0}))
      (run_client : ClientArgs → Exit (Unit {0})) where
    abbrev pub run_command : Commands → Exit (Unit {0})
    run_command (serve args) = run_server args
    run_command (connect args) = run_client args

    abbrev pub with_logging : Cli → Exit Process → Exit (Unit {0}) × Option Process
    with_logging cli (exited e) = (exited e, none)
    with_logging cli crashed = (crashed, none)
    with_logging cli (finished p) = (run_command cli.command, some (set_log_level cli.debug p))

    -- How the program ends, and the process in which the command runs.
    unfoldable pub main : Cli → Process → Exit (Unit {0}) × Option Process
    unfolding configure_logging set_log_level
    main cli p = with_logging cli (configure_logging p)
