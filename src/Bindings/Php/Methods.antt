-- ===== src/Bindings/Php/Methods.antt =====
-- Which methods a server made in PHP has, and what a call of one does: src/bindings/php.rs.
use quic_serve.Prelude.{
  ℕ, Assoc, nat_eq, beq_refl, String, ◌≡◌, refl, sym, ap, ◌∙◌, ◌↔◌, Bool, true, false, ◌||◌, ◌&&◌,
  Option, none, some, contains, get, get-insert, insert, string_eq, str_eq, eq_iff, eq_refl, subst,
  if◌then◌else◌, Bool-cases, Option-cases, inl, inr,
}
use quic_serve.Error.{Result, ok, err}
use quic_serve.Message.{Bytes}
use quic_serve.Bindings.Php.{
  Methods, register_method, Zend, Ending, CallbackError, finished, panicking, call, invoke,
}
use quic_serve.Bindings.Php.Serving.{
  PhpQuicServeServer, ServerCalls, bool, or_default, register_service_enhanced, registered,
  answered, with_server, with_method, methods_at, found_in, served,
}

module _ {ZVal World : Type 0} (zend : Zend ZVal World) where
  invoke-panicking :
      (driving : Bool) (callback : ZVal) (method : String) (payload : Bytes) (w : World)
      → ((invoke zend driving callback method payload w).0 ≡ panicking)
        ↔ ((driving ≡ true) × (contains 0 method ≡ false))
  unfolding invoke
  invoke-panicking driving callback method payload w = elim (Bool-cases (contains 0 method)) [
    | inl nul ↦ rw nul (λ e. cc, λ p. cc p.1)
    | inr free ↦ rw free (if_free driving _)
  ]
    where
      if_free :
          (b : Bool) (x : Result CallbackError Bytes × World)
          → ((if◌then◌else◌ {A = Ending × World} b (panicking, w) (finished x.0, x.1)).0
              ≡ panicking)
            ↔ ((b ≡ true) × (false ≡ false))
      if_free true x = (λ e. (refl, refl), λ p. refl)
      if_free false x = (λ e. cc, λ p. cc p.0)

  -- A call of a service from PHP panics exactly where the thread already drives a future, the method
  -- is registered, and its name has no NUL character.
  pub call-panicking :
      (driving : Bool) (method : String) (payload : Bytes) (methods : Methods ZVal) (w : World)
      → ((call zend driving method payload methods w).0 ≡ panicking) ↔ (
          (driving ≡ true)
          × ((callback : ZVal) × (get method methods ≡ some callback))
          × (contains 0 method ≡ false))
  unfolding call
  call-panicking driving method payload methods w = elim (Option-cases (get method methods)) [
    | inl absent ↦ rw absent (λ e. cc, λ (d, (cb, e), c). cc)
    | inr (callback, found) ↦
        let both = invoke-panicking driving callback method payload w in
        rw found
          (λ e. let (d, c) = both.0 e in (d, (callback, refl), c), λ (d, _, c). both.1 (d, c))
  ]

abbrev is_some : Option ℕ → Bool
is_some none = false
is_some (some arc) = true

-- The services of the server by their names: one that is registered is there afterwards, with the table
-- that it was registered with, as are the others, and a registration that fails changes nothing.
pub record IsLawful {Server : Type 0} (calls : ServerCalls Server) : Type 0 where
  pub has : (name : String) (s : Server) → calls.has_service name s ≡ is_some (calls.service name s)
  pub adds :
      (name : String) (arc : ℕ) (other : String) (s : Server)
      → (calls.register_service name arc s).0 ≡ ok tt
      → calls.service other (calls.register_service name arc s).1
        ≡ (if str_eq name other then some arc else calls.service other s)
  pub keeps :
      (name : String) (arc : ℕ) (e : String) (s : Server)
      → (calls.register_service name arc s).0 ≡ err e
      → (calls.register_service name arc s).1 ≡ s

-- Every service of the server has this one table.
abbrev pub Shares : {Server : Type 0} → ServerCalls Server → ℕ → Server → Type 0
Shares calls arc s = (name : String) (a : ℕ) → calls.service name s ≡ some a → a ≡ arc

abbrev succeeded : {A : Type 0} → Result String A → Bool
succeeded (ok _) = true
succeeded (err _) = false

-- The table where it is there.
abbrev there_if : ℕ → Bool → Option ℕ
there_if arc true = some arc
there_if arc false = none

there_if-some : (arc a : ℕ) (b : Bool) → there_if arc b ≡ some a → a ≡ arc
there_if-some arc a true e = cc
there_if-some arc a false e = cc

there_if-added :
    (arc : ℕ) (t h : Bool)
    → (if t then some arc else there_if arc h) ≡ there_if arc (h || (true && t))
there_if-added arc true true = refl
there_if-added arc true false = refl
there_if-added arc false true = refl
there_if-added arc false false = refl

there_if-not_added : (arc : ℕ) (h t : Bool) → there_if arc h ≡ there_if arc (h || (false && t))
there_if-not_added arc true t = refl
there_if-not_added arc false t = refl

there_if-already :
    (arc : ℕ) (h t : Bool)
    → (t ≡ true → h ≡ true)
    → there_if arc h ≡ there_if arc (h || (true && t))
there_if-already arc true t known = refl
there_if-already arc false true known = cc (known refl)
there_if-already arc false false known = refl

module _ {Server : Type 0} (calls : ServerCalls Server) (lawful : IsLawful calls) (name : String)
    (arc : ℕ) (s : Server) (shares : Shares calls arc s) where
  -- What a registration does to the services of the server.
  record Has (x : Result String (Unit {0}) × Server) : Type 0 where
    reported : calls.has_service name x.1 ≡ succeeded x.0
    all :
        (other : String)
        → calls.service other x.1
          ≡ there_if arc (calls.has_service other s || (succeeded x.0 && str_eq name other))

  service-shared :
      (other : String) → calls.service other s ≡ there_if arc (calls.has_service other s)
  service-shared other = elim (Option-cases (calls.service other s)) [
    | inl missing ↦ rw (lawful.has other s, missing) refl
    | inr (a, found) ↦ rw (lawful.has other s, found) (ap some (shares other a found))
  ]

  new-Has :
      (x : Result String (Unit {0}) × Server)
      → calls.register_service name arc s ≡ x
      → calls.has_service name s ≡ false
      → Has x
  new-Has (ok t, server) e absent =
      let services : (other : String)
          → calls.service other server
            ≡ (if str_eq name other then some arc else calls.service other s) =
        λ other.
          sym (ap (λ x. calls.service other x.1) e)
          ∙ lawful.adds name arc other s (ap (λ x. x.0) e) in
      record {
        reported = lawful.has name server ∙ rw (services name, eq_refl name) refl;
        all = λ other.
            services other
            ∙ rw (service-shared other)
                (there_if-added arc (str_eq name other) (calls.has_service other s));
      }
  new-Has (err t, server) e absent =
      let same : server ≡ s = sym (ap (λ x. x.1) e) ∙ lawful.keeps name arc t s (ap (λ x. x.0) e) in
      record {
        reported = rw same absent;
        all = λ other. rw same (
            service-shared other
            ∙ there_if-not_added arc (calls.has_service other s) (str_eq name other));
      }

  registered-Has : (h : Bool) → calls.has_service name s ≡ h → Has (registered calls h name arc s)
  registered-Has true there = record {
    reported = there;
    all = λ other.
        service-shared other
        ∙ there_if-already arc (calls.has_service other s) (str_eq name other)
            (λ same. subst (λ t. calls.has_service t s ≡ true) ((eq_iff name other).0 same) there);
  }
  registered-Has false absent = new-Has (calls.register_service name arc s) refl absent

module _ {ZVal Server : Type 0} (from_utf8 : Bytes → Option String)
    (calls : ServerCalls Server) where
  answered-with_server :
      (s : PhpQuicServeServer ZVal Server) (x : Result String (Unit {0}) × Server)
      → ((answered (with_server from_utf8 calls s x)).1 ≡ bool (succeeded x.0))
        × ((answered (with_server from_utf8 calls s x)).2 ≡ record s { server = x.1 })
  answered-with_server s (ok _, server) = (refl, refl)
  answered-with_server s (err e, server) = (refl, refl)

  methods_at-insert :
      (arc : ℕ) (method name : String) (callback : ZVal) (tables : Assoc ℕ (Methods ZVal))
      → get method (
          methods_at arc
            (insert arc (register_method name callback (methods_at arc tables)) tables))
        ≡ (if str_eq name method then some callback else get method (methods_at arc tables))
  unfolding register_method
  methods_at-insert arc method name callback tables =
      rw
        (
          get-insert arc arc (insert name callback (methods_at arc tables)) tables,
          beq_refl arc,
          get-insert name method callback (methods_at arc tables),
        )
        refl

  found_in-there_if :
      (arc : ℕ) (method name : String) (callback : ZVal) (tables : Assoc ℕ (Methods ZVal))
      (b : Bool)
      → found_in calls
          (insert arc (register_method name callback (methods_at arc tables)) tables)
          method
          (there_if arc b)
        ≡ (if b
            then if str_eq name method then some callback else get method (methods_at arc tables)
            else none)
  found_in-there_if arc method name callback tables true =
      methods_at-insert arc method name callback tables
  found_in-there_if arc method name callback tables false = refl

  -- Registering a method of a service from PHP, on every branch, on a server whose services all have its
  -- one table, as those of a new server do, if the server keeps track of its services as `IsLawful` says:
  -- it returns whether the server has the service afterwards, all services still have that table, and so
  -- the callback answers that method of every service that the server has, not only of the one it was
  -- registered for; all other methods are answered as before. This is so even where the registration
  -- fails: then the services are the same, and the callback answers the method in each of them.
  pub register_service_enhanced-served :
      (s : PhpQuicServeServer ZVal Server) (service_name method_name : Bytes) (callback : ZVal)
      → IsLawful calls
      → Shares calls s.service_impl s.server
      → (s' : PhpQuicServeServer ZVal Server) × (returned : Bool) × ((register_service_enhanced
            from_utf8 calls
            (some s)
            service_name
            method_name
            callback).1
          ≡ bool returned)
        × ((register_service_enhanced from_utf8 calls (some s) service_name method_name callback).2
            ≡ some s')
        × (calls.has_service (or_default (from_utf8 service_name)) s'.server ≡ returned)
        × (s'.service_impl ≡ s.service_impl)
        × Shares calls s'.service_impl s'.server
        × ((name method : String)
            → served calls name method s' ≡ (
                if calls.has_service name s.server
                  || (returned && str_eq (or_default (from_utf8 service_name)) name)
                then if str_eq (or_default (from_utf8 method_name)) method
                  then some callback
                  else get method (methods_at s.service_impl s.tables)
                else none))
  unfolding register_service_enhanced
  register_service_enhanced-served s service_name method_name callback lawful shares =
      let svc = or_default (from_utf8 service_name) in
      let m = or_default (from_utf8 method_name) in
      let s1 : PhpQuicServeServer ZVal Server = with_method from_utf8 calls m callback s in
      let x = registered calls (calls.has_service svc s.server) svc s.service_impl s.server in
      let has =
        registered-Has calls lawful svc s.service_impl s.server shares
          (calls.has_service svc s.server) refl in
      let (value, kept) = answered-with_server s1 x in
      (
        record s1 { server = x.1 },
        succeeded x.0,
        value,
        ap some kept,
        has.reported,
        refl,
        λ name a found. there_if-some s.service_impl a _ (sym (has.all name) ∙ found),
        λ name method. rw (has.all name) (
            found_in-there_if s.service_impl method m callback s.tables
              (calls.has_service name s.server || (succeeded x.0 && str_eq svc name))),
      )
