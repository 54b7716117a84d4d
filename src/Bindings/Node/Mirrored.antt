-- ===== src/Bindings/Node/Mirrored.antt =====
-- The two tables of services of a server made in JavaScript: src/bindings/node.rs.
use quic_serve.Prelude.{
  String, ◌≡◌, refl, sym, ap, ◌∙◌, Option, none, some, List, [], ◌∷◌, get, insert, get-insert,
  string_eq, str_eq, if◌then◌else◌, subst, Bool, true, false,
}
use quic_serve.Error.{Result, ok, err}
use quic_serve.Config.{Config, SocketAddr}
use quic_serve.Config.Quinn.{Tls, ServerConfig, Outcome, done, failed, panicked}
use quic_serve.Service.{Service}
use quic_serve.Server.{Server}
use quic_serve.Server.Starting.{new-done}
use quic_serve.Server
use quic_serve.Bindings.Node.{JsError, Napi, JsService, store_methods}
use quic_serve.Bindings.Node.Results.{OkIs, bind-OkIs}
use quic_serve.Bindings.Node.Objects.{
  js_runtime_new, built, made, mapped, configured, JsServer, create_server, register_service,
  registered, server_on,
}

-- What JavaScript does to a server object.
pub data Action (Value : Type 0) : Type 0 where
  register on : Value → Value → Action Value

abbrev through : {A B : Type 0} → (A → B) → Option A → Option B
through f none = none
through f (some a) = some (f a)

through-if :
    {A B : Type 0} (f : A → B) (t : Bool) (s : A) (o : Option A)
    → (if t then some (f s) else through f o) ≡ through f (if t then some s else o)
through-if f true s o = refl
through-if f false s o = refl

module _ {Value World Endpoint : Type 0} (js : Napi Value) (runtime : Result String (Unit {0}))
    (as_service : JsService Value → Service World) where
  -- An operation that throws leaves the object as it was.
  abbrev or_same :
      JsServer Value World Endpoint
      → Result JsError (JsServer Value World Endpoint)
      → JsServer Value World Endpoint
  or_same self (ok self') = self'
  or_same self (err e) = self

  abbrev pub act : Action Value → JsServer Value World Endpoint → JsServer Value World Endpoint
  act (register name handler) self =
      or_same self (register_service js runtime as_service name handler self)
  act (on event callback) self = or_same self (server_on js runtime as_service event callback self)

  abbrev pub act_all :
      List (Action Value) → JsServer Value World Endpoint → JsServer Value World Endpoint
  act_all [] self = self
  act_all (a ∷ actions) self = act_all actions (act a self)

  -- Under each name the server has the service that the object's own table has.
  pub record Mirrored (self : JsServer Value World Endpoint) : Type 0 where
    pub same :
        (name : String)
        → get name self.server.services ≡ through as_service (get name self.services)

  registered-same :
      (js_service : JsService Value) (self : JsServer Value World Endpoint) (name : String)
      → get name self.server.services ≡ through as_service (get name self.services)
      → get name (insert js_service.name (as_service js_service) self.server.services)
        ≡ through as_service (get name (insert js_service.name js_service self.services))
  registered-same js_service self name same =
      get-insert js_service.name name (as_service js_service) self.server.services
      ∙ ap (λ x. if str_eq js_service.name name then some (as_service js_service) else x) same
      ∙ through-if as_service (str_eq js_service.name name) js_service (get name self.services)
      ∙ ap (through as_service) (sym (get-insert js_service.name name js_service self.services))

  registered-Mirrored :
      (js_service : JsService Value) (self : JsServer Value World Endpoint)
      → Mirrored self
      → OkIs Mirrored (registered js runtime as_service js_service self)
  unfolding registered Server.register_service
  registered-Mirrored js_service self m = record {
    is_ok = λ self' e.
        let made = record self {
          server = record self.server {
            services = insert js_service.name (as_service js_service) self.server.services;
          };
          services = insert js_service.name js_service self.services;
        } in
        let same : made ≡ self' = cc e in
        subst Mirrored same
          (record { same = λ name. registered-same js_service self name (m.same name) });
  }

  register_service-Mirrored :
      (name handler : Value) (self : JsServer Value World Endpoint)
      → Mirrored self
      → OkIs Mirrored (register_service js runtime as_service name handler self)
  unfolding register_service
  register_service-Mirrored name handler self m =
      bind-OkIs Mirrored (js.as_string name) _ λ name_string.
        bind-OkIs Mirrored (js.text name_string) _ λ name_text.
          bind-OkIs Mirrored (js.as_object handler) _ λ object.
            bind-OkIs Mirrored (js.get_property_names object) _ λ names.
              bind-OkIs Mirrored (js.get_array_length names) _ λ length.
                bind-OkIs Mirrored (store_methods js object names length 0 []) _ λ methods.
                  bind-OkIs Mirrored (js_runtime_new runtime) _
                    λ _. registered-Mirrored (record { name = name_text; methods = methods }) self m

  server_on-Mirrored :
      (event callback : Value) (self : JsServer Value World Endpoint)
      → Mirrored self
      → OkIs Mirrored (server_on js runtime as_service event callback self)
  unfolding server_on
  server_on-Mirrored event callback self m =
      bind-OkIs Mirrored (js.as_string event) _ λ event_string.
        bind-OkIs Mirrored (js.text event_string) _ λ event_text.
          bind-OkIs Mirrored (js.as_function callback) _ λ f. record {
            is_ok = λ self' e.
                let made = record self { event_callback = some f } in
                let same : made ≡ self' = cc e in subst Mirrored same (record { same = m.same });
          }

  or_same-Mirrored :
      (self : JsServer Value World Endpoint) (r : Result JsError (JsServer Value World Endpoint))
      → Mirrored self
      → OkIs Mirrored r
      → Mirrored (or_same self r)
  or_same-Mirrored self (ok self') m fine = fine.is_ok self' refl
  or_same-Mirrored self (err e) m fine = m

  act_all-Mirrored :
      (actions : List (Action Value)) (self : JsServer Value World Endpoint)
      → Mirrored self
      → Mirrored (act_all actions self)
  act_all-Mirrored [] self m = m
  act_all-Mirrored (register name handler ∷ actions) self m =
      act_all-Mirrored actions (act (register name handler) self)
        (or_same-Mirrored self _ m (register_service-Mirrored name handler self m))
  act_all-Mirrored (on event callback ∷ actions) self m =
      act_all-Mirrored actions (act (on event callback) self)
        (or_same-Mirrored self _ m (server_on-Mirrored event callback self m))

module _ {Value World Endpoint Store : Type 0} (js : Napi Value)
    (parse : String → Result String SocketAddr) (runtime : Result String (Unit {0}))
    (as_service : JsService Value → Service World) (tls : Tls Store)
    (bind : ServerConfig → SocketAddr → Result String Endpoint)
    (set_protocols : Endpoint → Endpoint) where
  abbrev js_server : Server World Endpoint → JsServer Value World Endpoint
  js_server s = record { server = s; services = []; event_callback = none }

  made-eq-ok :
      (what : String) (o : Outcome (Server World Endpoint)) (self : JsServer Value World Endpoint)
      → mapped js_server (made what o) ≡ some (ok self)
      → (s : Server World Endpoint) × (o ≡ done s) × (js_server s ≡ self)
  made-eq-ok what (done s) self e = (s, refl, cc)
  made-eq-ok what (failed x) self e = cc
  made-eq-ok what panicked self e = cc

  built-eq-ok :
      (r : Result JsError Config)
      (make : Config → Option (Result JsError (JsServer Value World Endpoint)))
      (self : JsServer Value World Endpoint)
      → built make r ≡ some (ok self)
      → (c : Config) × (make c ≡ some (ok self))
  built-eq-ok (ok c) make self e = (c, e)
  built-eq-ok (err x) make self e = cc

  -- A server object that JavaScript has made has under each name the service that its own table has,
  -- through any sequence of `registerService` and `on`, whether they succeed or throw.
  pub create_server-Mirrored :
      (o : Value) (self : JsServer Value World Endpoint) (actions : List (Action Value))
      → create_server js parse runtime (Server.new tls bind set_protocols) o ≡ some (ok self)
      → Mirrored js runtime as_service (act_all js runtime as_service actions self)
  unfolding create_server get
  create_server-Mirrored o self actions e =
      let (c, h) =
        built-eq-ok (configured js parse runtime o)
          (λ config.
            mapped js_server
              (made "Failed to create server: " (Server.new tls bind set_protocols config)))
          self e in
      let (s, new, same) =
        made-eq-ok "Failed to create server: " (Server.new tls bind set_protocols c) self h in
      let (_, _, bare) = new-done tls bind set_protocols c s new in
      act_all-Mirrored js runtime as_service actions self
        (subst (Mirrored js runtime as_service) same (record { same = λ name. rw bare refl }))
