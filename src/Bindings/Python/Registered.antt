-- ===== src/Bindings/Python/Registered.antt =====
-- A server started from Python has the services of the `PyServer`: src/bindings/python.rs.
use quic_serve.Prelude.{
  UniqueKeys, String, ◌≡◌, refl, sym, ◌∙◌, Option, none, some, [], ◌∷◌, Assoc, get, insert,
  get-insert, string_eq, str_eq, Bool-cases, inl, inr, subst, eq_iff, ap,
}
use quic_serve.Error.{Result}
use quic_serve.Config.{SocketAddr}
use quic_serve.Config.Quinn.{Tls, ServerConfig}
use quic_serve.Server.{Services, Server, register_service}
use quic_serve.Server
use quic_serve.Server.Starting.{new-done}
use quic_serve.Bindings.Python.{try_outcome-eq-returned, returned, try_outcome, >>=-eq-returned}
use quic_serve.Bindings.Python.Serving.{PyServer, register_all, start}

abbrev or_else {ℓ} : {A : Type ℓ} → Option A → Option A → Option A
or_else none b = b
or_else (some a) b = some a

or_else-none {ℓ} : {A : Type ℓ} (o : Option A) → or_else o none ≡ o
or_else-none none = refl
or_else-none (some a) = refl

get-keyed :
    {V : Type 0} (k j : String) (v : V) (m n : Assoc String V)
    → get k m ≡ none
    → or_else (get j m) (get j (insert k v n)) ≡ or_else (get j ((k, v) ∷ m)) (get j n)
unfolding get
get-keyed k j v m n free = elim (Bool-cases (str_eq k j)) [
  | inl same ↦
      let absent : get j m ≡ none = subst (λ x. get x m ≡ none) ((eq_iff k j).0 same) free in
      rw (get-insert k j v n, same, absent) refl
  | inr other ↦ rw (get-insert k j v n, other) refl
]

module _ {World Endpoint : Type 0} where
  -- The server keeps its configuration, and a name means the service that it means in the map, or else
  -- the one it meant before.
  register_all-get :
      (services : Services World) (server : Server World Endpoint)
      → UniqueKeys services
      → (server' : Server World Endpoint) × (register_all services server ≡ returned server')
        × (server'.config ≡ server.config)
        × ((name : String)
            → get name server'.services ≡ or_else (get name services) (get name server.services))
  unfolding register_all register_service get
  register_all-get [] server unique = (server, refl, refl, λ name. refl)
  register_all-get ((k, v) ∷ services) server (free, unique) =
      let (server', e, c, g) = register_all-get services (register_service k v server).1 unique in
      (server', e, c, λ name. g name ∙ get-keyed k name v services server.services free)

  module _ {Store : Type 0} (tls : Tls Store)
      (bind : ServerConfig → SocketAddr → Result String Endpoint)
      (set_protocols : Endpoint → Endpoint) where
    -- Where the server of a `PyServer` starts, it has the configuration of the object, and a name means
    -- the service that was registered under it in Python, if any.
    pub start-get :
        (self : PyServer World Endpoint) (server : Server World Endpoint) (name : String)
        → UniqueKeys self.services
        → start tls bind set_protocols self ≡ returned server
        → (server.config ≡ self.config) × (get name server.services ≡ get name self.services)
    unfolding start get
    start-get self server name unique e =
        let (made, new, rest) =
          >>=-eq-returned (try_outcome (Server.new tls bind set_protocols self.config)) _ e in
        let (c, _, bare) =
          new-done tls bind set_protocols self.config made (try_outcome-eq-returned _ new) in
        let (server', started, c', g) = register_all-get self.services made unique in
        let same : server' ≡ server = cc in
        (
          sym (ap (λ s. s.config) same) ∙ c' ∙ c,
          sym (ap (λ s. get name s.services) same)
              ∙ g name
              ∙ rw bare (or_else-none (get name self.services)),
        )
