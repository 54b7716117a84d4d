-- ===== src/Cli/Debug.antt =====
-- The flag `--debug` of src/bin/quicserve.rs.
use quic_serve.Prelude.{arith, String, ◌≡◌, refl, sym, ◌∙◌, Bool, true, false, Option, none, some}
use quic_serve.Error.{Result, ok, err}
use quic_serve.Cli.{Commands, ServerArgs, ClientArgs}
use quic_serve.Cli.Exit.{Exit, finished, exited, crashed}
use quic_serve.Cli.Main.{
  Logging, default_filter, or_panic, configure_logging, set_log_level, main, with_logging,
}

module _ {Process : Type 0} (logging : Logging Process) where
  -- The logger of the process in which a command runs.
  abbrev pub logger : Option Process → Option String
  logger none = none
  logger (some p) = logging.installed p

  or_panic-installed :
      (x : Result String (Unit {0}) × Process) (p q : Process)
      → logging.try_init p ≡ x
      → or_panic logging x ≡ finished q
      → (filter : String) × (logging.installed q ≡ some filter)
  or_panic-installed (ok _, r) p q e h =
      let (filter, i) = logging.try_init-ok p r e in (filter, ground (arith, i, h))
  or_panic-installed (err m, r) p q e h = cc

  set_log_level-installed :
      (debug : Bool) (p : Process) (filter : String)
      → logging.installed p ≡ some filter
      → logging.installed (set_log_level logging debug p) ≡ some filter
  unfolding set_log_level
  set_log_level-installed true p filter i =
      logging.try_init-stays _ filter (logging.installed-set_rust_log "debug,quicserve=trace" p ∙ i)
  set_log_level-installed false p filter i = i

  module _ (run_server : ServerArgs → Exit (Unit {0}))
      (run_client : ClientArgs → Exit (Unit {0})) where
    with_logging-logger :
        (command : Commands) (x : Exit Process)
        → ((q : Process) → x ≡ finished q → (filter : String) × (logging.installed q ≡ some filter))
        → logger
            (with_logging logging run_server run_client
              (record { debug = true; command = command })
              x).1
          ≡ logger
              (with_logging logging run_server run_client
                (record { debug = false; command = command })
                x).1
    with_logging-logger command (finished q) known =
        let (filter, i) = known q refl in
        set_log_level-installed true q filter i ∙ sym (set_log_level-installed false q filter i)
    with_logging-logger command (exited e) known = refl
    with_logging-logger command crashed known = refl

    -- The flag `--debug` changes nothing about the logger with which the command runs: the logger is
    -- already set when the flag is read.
    pub main-ignores_debug :
        (command : Commands) (p : Process)
        → logger
            (main logging run_server run_client (record { debug = true; command = command }) p).1
          ≡ logger
              (main logging run_server run_client (record { debug = false; command = command }) p).1
    unfolding main configure_logging
    main-ignores_debug command p =
        with_logging-logger command (configure_logging logging p)
          (λ q. or_panic-installed _ (default_filter logging (logging.rust_log p) p) q refl)
