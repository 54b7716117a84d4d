-- ===== src/Bindings/Php/Serving.antt =====
-- The functions of src/bindings/php.rs that PHP calls. Each returns what it reports by `php_error`, its
-- return value, and the server as it leaves it.
use quic_serve.Prelude.{
  Assoc, get, insert, nat_eq, ℕ, suc, ◌%◌, ◌^◌, String, ◌<>◌, Bool, true, false, Option, none, some,
  List, [], ◌∷◌, contains, string_eq, if◌then◌else◌,
}
use quic_serve.Error.{Result, ok, err}
use quic_serve.Message.{Bytes}
use quic_serve.Bindings.Php.{Methods, register_method, methods_of}

pub data Level : Type 0 where
  warning fatal : Level

pub data ZValue : Type 0 where
  null : ZValue
  bool : Bool → ZValue
  long : ℕ → ZValue

abbrev pub Reports : Type 0
Reports = List (Level × String)

-- `CString::new(text).unwrap_or_else(…)`
abbrev pub message : String → String
message text = if contains 0 text then "Unknown error" else text

-- `PhpQuicServeServer`. An `Arc<PhpServiceImpl>` is the address of a table of methods; `tables` are the
-- tables that exist.
pub record PhpQuicServeServer (ZVal Server : Type 0) : Type 0 where
  pub server : Server
  pub service_impl : ℕ
  pub tables : Assoc ℕ (Methods ZVal)

abbrev or_no_methods : {ZVal : Type 0} → Option (Methods ZVal) → Methods ZVal
or_no_methods none = []
or_no_methods (some methods) = methods

-- What is behind an `Arc`.
abbrev pub methods_at : {ZVal : Type 0} → ℕ → Assoc ℕ (Methods ZVal) → Methods ZVal
methods_at arc tables = or_no_methods (get arc tables)

-- What the binding calls of `Server`, and `service`, the `Arc` that a session finds under a name.
-- Neither `has_service` nor a `new` with four arguments is in src/server.rs. Errors are their texts.
pub record ServerCalls (Server : Type 0) : Type 0 where
  pub has_service : String → Server → Bool
  pub service : String → Server → Option ℕ
  pub register_service : String → ℕ → Server → Result String (Unit {0}) × Server
  pub new : String → ℕ → String → String → Result String Server

-- `CStr::from_ptr(…).to_str().unwrap_or_default()`, given what is read from the bytes up to the NUL.
abbrev pub or_default : Option String → String
or_default none = ""
or_default (some s) = s

abbrev pub registered :
    {Server : Type 0}
    → ServerCalls Server
    → Bool
    → String
    → ℕ
    → Server
    → Result String (Unit {0}) × Server
registered calls true name arc server = (ok tt, server)
registered calls false name arc server = calls.register_service name arc server

abbrev pub answered : {S : Type 0} → Result String (Unit {0}) × S → Reports × ZValue × S
answered (ok _, s) = ([], bool true, s)
answered (err e, s) = ((warning, message ("Failed to register service: " <> e)) ∷ [], bool false, s)

module _ {ZVal Server : Type 0} (from_utf8 : Bytes → Option String)
    (calls : ServerCalls Server) where
  abbrev pub with_server :
      PhpQuicServeServer ZVal Server
      → Result String (Unit {0}) × Server
      → Result String (Unit {0}) × PhpQuicServeServer ZVal Server
  with_server s (r, server) = (r, record s { server = server })

  abbrev pub with_method :
      String → ZVal → PhpQuicServeServer ZVal Server → PhpQuicServeServer ZVal Server
  with_method method callback s = record s {
    tables =
        insert s.service_impl (register_method method callback (methods_at s.service_impl s.tables))
          s.tables;
  }

  -- `zif_quicserve_register_service_enhanced`, given the server that its resource is, if it is one.
  unfoldable pub register_service_enhanced :
      Option (PhpQuicServeServer ZVal Server)
      → Bytes
      → Bytes
      → ZVal
      → Reports × ZValue × Option (PhpQuicServeServer ZVal Server)
  unfolding register_method
  register_service_enhanced none service_name method_name callback =
      ((warning, "Invalid QuicServe server resource") ∷ [], bool false, none)
  register_service_enhanced (some s) service_name method_name callback =
      let name = or_default (from_utf8 service_name) in
      let (reports, value, s') = answered (
        with_server (with_method (or_default (from_utf8 method_name)) callback s)
          (registered calls (calls.has_service name s.server) name s.service_impl s.server)) in
      (reports, value, some s')

  abbrev created :
      (PhpQuicServeServer ZVal Server → ℕ)
      → ℕ
      → Assoc ℕ (Methods ZVal)
      → Result String Server
      → Reports × ZValue × Option (PhpQuicServeServer ZVal Server)
  created register_resource arc tables (ok server) =
      let s : PhpQuicServeServer ZVal Server = record {
        server = server;
        service_impl = arc;
        tables = insert arc [] tables;
      } in
      ([], long (register_resource s), some s)
  created register_resource arc tables (err e) =
      ((warning, message ("Failed to create server: " <> e)) ∷ [], null, none)

  -- `zif_quicserve_create_server_enhanced`; `runtime`: `TOKIO_RUNTIME` is set. `port` is the 64 bits of
  -- PHP's number, `register_resource` is `zend_register_resource`, and `arc` the address at which
  -- `Arc::new` puts the empty table, next to the tables that exist.
  unfoldable pub create_server_enhanced :
      Bool
      → (PhpQuicServeServer ZVal Server → ℕ)
      → (arc : ℕ) → Assoc ℕ (Methods ZVal)
      → Bytes
      → ℕ
      → Bytes
      → Bytes
      → Reports × ZValue × Option (PhpQuicServeServer ZVal Server)
  create_server_enhanced false register_resource arc tables host port cert_path key_path =
      ((fatal, "QuicServe runtime not initialized") ∷ [], null, none)
  create_server_enhanced true register_resource arc tables host port cert_path key_path =
      created register_resource arc tables (
        calls.new (or_default (from_utf8 host)) (port % 2 ^ 16) (or_default (from_utf8 cert_path))
          (or_default (from_utf8 key_path)))

-- The callback that answers a method of a service: a session finds the service under its name in the
-- server, and the `call` of that `PhpServiceImpl` finds the callback in its own table.
module _ {ZVal Server : Type 0} (calls : ServerCalls Server) where
  abbrev pub found_in : Assoc ℕ (Methods ZVal) → String → Option ℕ → Option ZVal
  found_in tables method none = none
  found_in tables method (some arc) = get method (methods_at arc tables)

  abbrev pub served : String → String → PhpQuicServeServer ZVal Server → Option ZVal
  served name method s = found_in s.tables method (calls.service name s.server)

-- `CString::new(…).unwrap_or_default()`
abbrev c_string : String → String
c_string text = if contains 0 text then "" else text

-- The loop over the names; `add_index_zval` is PHP's, on the value that is filled.
unfoldable pub add_all :
    {Value : Type 0} → (ℕ → String → Value → Value) → ℕ → List String → Value → Value
add_all add_index_zval i [] value = value
add_all add_index_zval i (m ∷ names) value =
    add_all add_index_zval (suc i) names (add_index_zval i (c_string m) value)

-- `zif_quicserve_list_methods`; the value that is filled is made by `ZVAL_NULL`.
unfoldable pub list_methods :
    {ZVal Server Value : Type 0}
    → (zval_null : Value) → (ℕ → String → Value → Value)
    → Option (PhpQuicServeServer ZVal Server)
    → Bytes
    → Reports × Value
unfolding methods_of add_all
list_methods zval_null add_index_zval none service_name =
    ((warning, "Invalid QuicServe server resource") ∷ [], zval_null)
list_methods zval_null add_index_zval (some s) service_name =
    ([], add_all add_index_zval 0 (methods_of (methods_at s.service_impl s.tables)) zval_null)
