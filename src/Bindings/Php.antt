-- ===== src/Bindings/Php.antt =====
-- src/bindings/php.rs: the callbacks into PHP, and the service and the registry that hold them.
-- `ZVal` is the type of PHP's values, `World` the state of PHP.
pub mod Serving
pub mod Memory
pub mod Methods
use quic_serve.Prelude.{
  ℕ, String, ◌<>◌, Bool, true, false, Option, none, some, List, [], ◌∷◌, ◌++◌, contains, length,
  Assoc, get, insert, keys, string_eq, if◌then◌else◌,
}
use quic_serve.Error.{Result, ok, err}
use quic_serve.Message.{Bytes}
use quic_serve.Service.{Service}

-- The errors of callbacks: those that src/bindings/php.rs uses, and `method_not_found` of src/error.rs.
pub data CallbackError : Type 0 where
  invalid_method : CallbackError
  callback_invocation : String → CallbackError
  method_not_found : String → CallbackError

-- What `zend_fcall_info_call` leaves in its return value: a null pointer, or a value whose text is null or
-- so many bytes.
pub data Returned : Type 0 where
  null null_text : Returned
  text : Bytes → Returned

-- PHP's functions, each a step of its state; `true` is the status 0. `zval_string` is `ZVAL_STRING`
-- on the bytes behind a pointer, as far as they are the program's, and its third argument. `join_error`
-- is the text of the error where the blocking task has panicked.
pub record Zend (ZVal World : Type 0) : Type 0 where
  pub fcall_info_init : ZVal → World → Bool × World
  pub zval_string : Bytes → ℕ → ZVal
  pub fcall_info_call : ZVal → List ZVal → World → (Bool × Returned) × World
  pub zval_ptr_dtor : ZVal → World → World
  pub retval_dtor : World → World
  pub join_error : World → Option String
  pub utf8 : String → Bytes

-- How a future that calls PHP ends.
pub data Ending : Type 0 where
  finished : Result CallbackError Bytes → Ending
  panicking : Ending

module _ {ZVal World : Type 0} (zend : Zend ZVal World) where
  abbrev extracted : Bool × Returned → Result CallbackError Bytes
  extracted (false, _) = err (callback_invocation "Failed to call PHP callback")
  extracted (true, null) = err (callback_invocation "NULL return value from PHP callback")
  extracted (true, null_text) = err (callback_invocation "NULL return value from PHP callback")
  extracted (true, text bytes) = ok bytes

  -- The return value is cleaned up where its bytes have been taken.
  abbrev cleaned : Bool × Returned → World → World
  cleaned (true, text bytes) w = zend.retval_dtor w
  cleaned _ w = w

  -- The parameters are the method, with the NUL behind it, and the payload, which has none.
  abbrev called : ZVal → String → Bytes → Bool × World → Result CallbackError Bytes × World
  called callback method payload (false, w) =
      (err (callback_invocation "Failed to initialize callback"), w)
  called callback method payload (true, w) =
      let name = zend.zval_string (zend.utf8 method ++ 0 ∷ []) 1 in
      let data_of = zend.zval_string payload (length payload) in
      let (result, w1) = zend.fcall_info_call callback (name ∷ data_of ∷ []) w in
      (extracted result, cleaned result (zend.zval_ptr_dtor data_of (zend.zval_ptr_dtor name w1)))

  abbrev joined :
      Option String → Result CallbackError Bytes × World → Result CallbackError Bytes × World
  joined none done = done
  joined (some e) (_, w) = (err (callback_invocation ("Task join error: " <> e)), w)

  -- `PhpCallback::invoke`. `driving`: the thread drives a future already, and then tokio's `block_on`
  -- panics.
  unfoldable pub invoke : Bool → ZVal → String → Bytes → World → Ending × World
  invoke driving callback method payload w =
      if contains 0 method
      then (finished (err invalid_method), w)
      else if driving
      then (panicking, w)
      else let (r, w') =
          joined (zend.join_error w)
            (called callback method payload (zend.fcall_info_init callback w)) in
        (finished r, w')

-- The callbacks of `PhpServiceImpl`.
abbrev pub Methods : Type 0 → Type 0
Methods ZVal = Assoc String ZVal

module _ {ZVal : Type 0} where
  unfoldable pub register_method : String → ZVal → Methods ZVal → Methods ZVal
  register_method method callback methods = insert method callback methods

  unfoldable pub methods_of : Methods ZVal → List String
  methods_of methods = keys methods

  module _ {World : Type 0} (zend : Zend ZVal World) where
    abbrev invoked : Bool → Option ZVal → String → Bytes → World → Ending × World
    invoked driving (some callback) method payload w = invoke zend driving callback method payload w
    invoked driving none method payload w = (finished (err (method_not_found method)), w)

    -- `call` of `PhpServiceImpl`.
    unfoldable pub call : Bool → String → Bytes → Methods ZVal → World → Ending × World
    unfolding invoke
    call driving method payload methods w = invoked driving (get method methods) method payload w

-- `PhpServiceRegistry`, and the global variable that holds one.
abbrev pub PhpServiceRegistry : Type 0 → Type 0
PhpServiceRegistry World = Assoc String (Service World)

module _ {World : Type 0} where
  unfoldable pub register_service :
      String → Service World → PhpServiceRegistry World → PhpServiceRegistry World
  register_service name service registry = insert name service registry

  unfoldable pub get_service : String → PhpServiceRegistry World → Option (Service World)
  get_service name registry = get name registry

  unfoldable pub list_services : PhpServiceRegistry World → List String
  list_services registry = keys registry

  unfoldable pub init_service_registry :
      Option (PhpServiceRegistry World) → Option (PhpServiceRegistry World)
  init_service_registry none = some []
  init_service_registry (some registry) = some registry

  -- `php_quicserve_init_enhanced`; `status` is what `php_quicserve_init` returned, `true` for 0.
  unfoldable pub init_enhanced :
      Bool → Option (PhpServiceRegistry World) → Bool × Option (PhpServiceRegistry World)
  unfolding init_service_registry
  init_enhanced false registry = (false, registry)
  init_enhanced true registry = (true, init_service_registry registry)
