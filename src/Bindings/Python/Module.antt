-- ===== src/Bindings/Python/Module.antt =====
-- The module that src/bindings/python.rs makes: its classes, and what its initialization does to logging.
use quic_serve.Prelude.{ℕ, String, ◌≡◌, refl, Option, none, some}
use quic_serve.Error.{Result, ok, err}
use quic_serve.Cli.Main.{Logging, default_filter}
use quic_serve.Bindings.Python.{PyErr, Ending, returned, panicking, ◌>>=◌, try}

pub data PySerializationFormat : Type 0 where
  json protobuf : PySerializationFormat

-- The number that Python sees.
abbrev pub discriminant : PySerializationFormat → ℕ
discriminant json = 0
discriminant protobuf = 1

pub data PyClass : Type 0 where
  py_client py_server py_serialization_format : PyClass

-- What the binding calls of pyo3 for its module; `Interpreter` is the interpreter's state.
pub record PyModules (Module Object Interpreter : Type 0) : Type 0 where
  pub new : String → Result PyErr Module
  pub add_class : PyClass → Module → Result PyErr Module
  pub import : String → Result PyErr Object
  pub getattr : String → Object → Result PyErr Object
  pub set_item : Object → String → Module → Interpreter → Result PyErr Interpreter

module _ {Module Object Interpreter : Type 0} (modules : PyModules Module Object Interpreter) where
  abbrev pub with_classes : Module → Ending Module
  with_classes m0 = do
    m1 ← try (modules.add_class py_client m0)
    m2 ← try (modules.add_class py_server m1)
    try (modules.add_class py_serialization_format m2)

  -- The helper that puts a module into `sys.modules`.
  unfoldable pub register_python_module : Interpreter → Ending Interpreter
  register_python_module interpreter = do
    module0 ← try (modules.new "quicserve")
    module1 ← with_classes module0
    sys ← try (modules.import "sys")
    table ← try (modules.getattr "modules" sys)
    try (modules.set_item table "quicserve" module1 interpreter)

  module _ {Process : Type 0} (logging : Logging Process)
      (try_init_from_env : String → Process → Result String (Unit {0}) × Process) where
    -- `env_logger::init_from_env(…)` panics where it cannot set the logger.
    abbrev pub or_panicking : Module → Result String (Unit {0}) × Process → Ending Module × Process
    or_panicking m (ok _, p) = (returned m, p)
    or_panicking m (err e, p) = (panicking, p)

    abbrev pub then_logging : Ending Module → Process → Ending Module × Process
    then_logging (returned m) p =
        or_panicking m (try_init_from_env "info" (default_filter logging (logging.rust_log p) p))
    then_logging ending p = (ending, p)

    -- The module's initialization; `try_init_from_env` is given the filter that holds without RUST_LOG.
    unfoldable pub quicserve : Module → Process → Ending Module × Process
    quicserve m p = then_logging (with_classes m) p

    -- RUST_LOG is set by the time that the logger is.
    default_filter-set :
        (o : Option String) (p : Process)
        → logging.rust_log p ≡ o
        → ((filter : String) (q : Process)
            → logging.rust_log (logging.set_rust_log filter q) ≡ some filter)
        → (filter : String) × (logging.rust_log (default_filter logging o p) ≡ some filter)
    default_filter-set none p e sets = ("info,quicserve=debug", sets "info,quicserve=debug" p)
    default_filter-set (some filter) p e sets = (filter, e)

    -- A module whose classes can be added sets logging up as the command line's `configure_logging` does,
    -- whatever the filter for a process without RUST_LOG: it may panic where a logger is set already.
    quicserve-configure_logging :
        (m0 m : Module) (p : Process)
        → ((filter : String) (q : Process)
            → logging.rust_log (logging.set_rust_log filter q) ≡ some filter)
        → ((default filter : String) (q : Process)
            → logging.rust_log q ≡ some filter
            → try_init_from_env default q ≡ logging.try_init q)
        → with_classes m0 ≡ returned m
        → quicserve m0 p
          ≡ or_panicking m (logging.try_init (default_filter logging (logging.rust_log p) p))
    unfolding quicserve
    quicserve-configure_logging m0 m p sets reads e =
        let (filter, found) = default_filter-set (logging.rust_log p) p refl sets in
        rw (e, reads "info" filter (default_filter logging (logging.rust_log p) p) found) refl
