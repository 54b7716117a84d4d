-- ===== src/Bindings/Node/Init.antt =====
-- The initialization of the module of src/bindings/node.rs; `create_named_method` is napi's.
use quic_serve.Prelude.{String}
use quic_serve.Error.{Result, ◌>>=◌}
use quic_serve.Bindings.Node.{JsError}

module _ {Exports Callback : Type 0}
    (create_named_method : String → Callback → Exports → Result JsError Exports) where
  unfoldable pub init : (create_client create_server : Callback) → Exports → Result JsError Exports
  init create_client create_server exports = do
    exports ← create_named_method "createClient" create_client exports
    create_named_method "createServer" create_server exports
