-- ===== src/Bindings/Php/Memory.antt =====
-- What src/bindings/php.rs does with the memory of PHP: the references that callbacks hold, and the boxes
-- that `Box::into_raw` takes out of Rust's hands. A `ZVal` is what a box of PHP's values holds.
pub mod Balance
use quic_serve.Prelude.{
  ℕ, ◌+◌, String, Bool, true, false, Option, none, some, List, [], ◌∷◌, ◌++◌, Assoc, get, string_eq,
  contains, if◌then◌else◌,
}
use quic_serve.Bindings.Php.{Methods, register_method, Returned, null, null_text, text}

-- The values to which a reference was taken, by `zval_copy_ctor`, by `ZVAL_STRING` or as the result of a
-- call, and those that `zval_ptr_dtor` has released, the last first; and the number of boxes that have
-- been made and that nothing frees.
pub record Ledger (ZVal : Type 0) : Type 0 where
  pub taken : List ZVal
  pub released : List ZVal
  pub boxes : ℕ

abbrev pub untouched : {ZVal : Type 0} → Ledger ZVal
untouched = record { taken = []; released = []; boxes = 0 }

-- The callbacks in a table.
abbrev pub values : {ZVal : Type 0} → Methods ZVal → List ZVal
values [] = []
values ((_, v) ∷ methods) = v ∷ values methods

module _ {ZVal : Type 0} where
  -- `PhpCallback::new`
  unfoldable pub new_callback : ZVal → Ledger ZVal → Ledger ZVal
  new_callback v l = record l { taken = v ∷ l.taken; boxes = l.boxes + 1 }

  -- `Drop for PhpCallback`; its pointer is never null.
  unfoldable pub drop_callback : ZVal → Ledger ZVal → Ledger ZVal
  drop_callback v l = record l { released = v ∷ l.released }

  -- What `HashMap::insert` returns is dropped.
  abbrev pub drop_old : Option ZVal → Ledger ZVal → Ledger ZVal
  drop_old none l = l
  drop_old (some v) l = drop_callback v l

  -- `PhpCallback::new` and `register_method`, as zif_quicserve_register_service_enhanced calls them.
  unfoldable pub register_callback :
      String → ZVal → Methods ZVal × Ledger ZVal → Methods ZVal × Ledger ZVal
  unfolding new_callback drop_callback register_method
  register_callback method v (methods, l) =
      (register_method method v methods, drop_old (get method methods) (new_callback v l))

  -- The drop of a `PhpServiceImpl`, with all its callbacks.
  unfoldable pub drop_methods : Methods ZVal → Ledger ZVal → Ledger ZVal
  unfolding drop_callback
  drop_methods [] l = l
  drop_methods ((_, v) ∷ methods) l = drop_methods methods (drop_callback v l)

  -- `PhpCallback::invoke`, once it has the two parameters and the result of `zend_fcall_info_call`.
  abbrev pub called_memory :
      (name payload retval : ZVal) → Bool × Returned → Ledger ZVal → Ledger ZVal
  called_memory name payload retval (true, text bytes) l = record l {
    taken = retval ∷ payload ∷ name ∷ l.taken;
    released = retval ∷ payload ∷ name ∷ l.released;
    boxes = l.boxes + 3;
  }
  called_memory name payload retval (true, null_text) l = record l {
    taken = retval ∷ payload ∷ name ∷ l.taken;
    released = payload ∷ name ∷ l.released;
    boxes = l.boxes + 3;
  }
  called_memory name payload retval _ l = record l {
    taken = payload ∷ name ∷ l.taken;
    released = payload ∷ name ∷ l.released;
    boxes = l.boxes + 3;
  }

  -- `initialized` is the status of `zend_fcall_info_init`.
  unfoldable pub invoke_memory :
      Bool → (name payload retval : ZVal) → Bool × Returned → Ledger ZVal → Ledger ZVal
  invoke_memory false name payload retval result l = l
  invoke_memory true name payload retval result l = called_memory name payload retval result l

-- What PHP does to a server: it registers a method, or one of its callbacks is invoked.
pub data Use (ZVal : Type 0) : Type 0 where
  registers : (method : String) (callback : ZVal) → Use ZVal
  invokes : (initialized : Bool) (name payload retval : ZVal) (result : Bool × Returned) → Use ZVal

module _ {ZVal : Type 0} where
  abbrev pub use_one : Use ZVal → Methods ZVal × Ledger ZVal → Methods ZVal × Ledger ZVal
  use_one (registers method callback) s = register_callback method callback s
  use_one (invokes initialized name payload retval result) (methods, l) =
      (methods, invoke_memory initialized name payload retval result l)

  abbrev pub use_all : List (Use ZVal) → Methods ZVal × Ledger ZVal → Methods ZVal × Ledger ZVal
  use_all [] s = s
  use_all (u ∷ uses) s = use_all uses (use_one u s)
