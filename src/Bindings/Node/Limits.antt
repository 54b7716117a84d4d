-- ===== src/Bindings/Node/Limits.antt =====
-- The numbers in a configuration that comes from JavaScript: src/bindings/node.rs and src/config.rs.
use quic_serve.Prelude.{
  ℕ, ◌≤◌, ◌^◌, ◌-◌, String, ◌≡◌, ◌≢◌, List, [], ◌∷◌, All, Option, none, some, arith, subst,
}
use quic_serve.Error.{Result, ok, err, map_err}
use quic_serve.Config.{Config, SocketAddr}
use quic_serve.Config
use quic_serve.Config.Quinn.{panicked, Tls}
use quic_serve.Config.Client.{build_client_config}
use quic_serve.Config.Client.Ignored.{build_client_config-panics}
use quic_serve.Config.Server.{server_transport}
use quic_serve.Bindings.Node.{JsError, Napi}
use quic_serve.Bindings.Node.Results.{steps, bind-OkIs, OkIs}
use quic_serve.Bindings.Node.Options.{if_ok, apply_all, options, js_config_to_config}

abbrev AtMost : ℕ → Option ℕ → Type 0
AtMost most none = Unit
AtMost most (some n) = n ≤ most

-- The limits of a configuration are at most this number.
abbrev pub Fits : ℕ → Config → Type 0
Fits most c = AtMost most c.idle_timeout_ms × (c.max_concurrent_streams ≤ most)

apply_all-OkIs :
    (P : Config → Type 0) (steps : List (Config → Result JsError Config))
    → All (λ f. (c : Config) → P c → OkIs P (f c)) steps
    → (c : Config) → P c
    → OkIs P (apply_all steps c)
apply_all-OkIs P [] keeps c p = record {
  is_ok = λ c' e. let same : c ≡ c' = cc e in subst P same p;
}
apply_all-OkIs P (f ∷ rest) (keep, keeps) c p = record {
  is_ok = λ c' e.
      let by = steps (f c) (apply_all rest) c' e in
      (apply_all-OkIs P rest keeps by.between ((keep c p).is_ok by.between by.first_ok)).is_ok c'
        by.rest_ok;
}

-- An option keeps what its setter keeps.
if_ok-OkIs :
    {Value A : Type 0} (P : Config → Type 0) (property : Result JsError Value)
    (extract : Value → Result JsError A) (set : A → Config → Config)
    → ((c : Config) (v : Value) (a : A) → P c → extract v ≡ ok a → P (set a c))
    → (c : Config) → P c
    → OkIs P (if_ok property extract set c)
unfolding if_ok
if_ok-OkIs P (err _) extract set sets c p = record {
  is_ok = λ c' e. let same : c ≡ c' = cc e in subst P same p;
}
if_ok-OkIs P (ok v) extract set sets c p = record {
  is_ok = λ c' e.
      let by = steps (extract v) (λ a. ok (set a c)) c' e in
      let same : set by.between c ≡ c' = cc by.rest_ok in
      subst P same (sets c v by.between p by.first_ok);
}

module _ {Value : Type 0} (js : Napi Value) (parse : String → Result String SocketAddr) (most : ℕ)
    (u32 : (v : Value) (n : ℕ) → js.get_uint32 v ≡ ok n → n ≤ most) where
  options-Fits :
      (o : Value)
      → All (λ f. (c : Config) → Fits most c → OkIs (Fits most) (f c)) (options js parse o)
  unfolding options
  options-Fits o = (
    if_ok-OkIs (Fits most) _ _ _ (λ c v a p e. p),
    (
      if_ok-OkIs (Fits most) _ _ _ (λ c v a p e. p),
      (
        if_ok-OkIs (Fits most) _ _ _ (λ c v a p e. p),
        (
          if_ok-OkIs (Fits most) _ _ _ (λ c v a p e. p),
          (
            if_ok-OkIs (Fits most) _ _ _ (λ c v a p e. p),
            (
              if_ok-OkIs (Fits most) _ _ _ (λ c v a p e. p),
              (
                if_ok-OkIs (Fits most) _ _ _ (λ c v a p e. (p.0, u32 v a e)),
                (
                  if_ok-OkIs (Fits most) _ _ _ (λ c v a p e. p),
                  (
                    if_ok-OkIs (Fits most) _ _ _ (λ c v a p e. (u32 v a e, p.1)),
                    (if_ok-OkIs (Fits most) _ _ _ (λ c v a p e. p), tt),
                  ),
                ),
              ),
            ),
          ),
        ),
      ),
    ),
  )

  js_config_to_config-Fits :
      (o : Value) → 30000 ≤ most → OkIs (Fits most) (js_config_to_config js parse o)
  unfolding js_config_to_config Config.new
  js_config_to_config-Fits o room = bind-OkIs (Fits most) (js.named_string "addr" o) _ λ value.
      bind-OkIs (Fits most) (js.text value) _ λ letters.
        bind-OkIs (Fits most) (map_err _ (parse letters)) _ λ addr.
          apply_all-OkIs (Fits most) (options js parse o) (options-Fits o) (Config.new addr)
            (room, omega arith)

  module _ {Store : Type 0} (tls : Tls Store) where
    server_transport-Fits :
        (c : Config) → Fits most c → most ≤ tls.varint_max → server_transport tls c ≢ panicked
    unfolding server_transport
    server_transport-Fits c fits room h = ground arith

    client-Fits :
        (c : Config) → Fits most c → most ≤ tls.varint_max → build_client_config tls c ≢ panicked
    client-Fits c fits room h =
        let (ms, e, more) = build_client_config-panics tls c h in
        let bound : ms ≤ most = subst (AtMost most) e fits.0 in absurd (omega arith)

-- No number in a configuration that comes from JavaScript is too great for quinn: if the options are
-- accepted, then the number of streams and the idle timeout are below 2 ^ 32, since each is read as a
-- `u32` or is the default, and neither a client nor the transport of a server panics where quinn's
-- `VarInt` is made of them, as long as a `VarInt` holds every `u32`.
pub js_config_to_config-never_panics :
    {Value Store : Type 0} (js : Napi Value) (parse : String → Result String SocketAddr)
    (tls : Tls Store) (o : Value) (c : Config)
    → ((v : Value) (n : ℕ) → js.get_uint32 v ≡ ok n → n ≤ 2 ^ 32 - 1)
    → 2 ^ 32 - 1 ≤ tls.varint_max
    → js_config_to_config js parse o ≡ ok c
    → Fits (2 ^ 32 - 1) c
      × (build_client_config tls c ≢ panicked)
      × (server_transport tls c ≢ panicked)
js_config_to_config-never_panics js parse tls o c u32 room h =
    let most = 2 ^ 32 - 1 in
    let fits = (js_config_to_config-Fits js parse most u32 o (omega arith)).is_ok c h in
    (
      fits,
      client-Fits js parse most u32 tls c fits room,
      server_transport-Fits js parse most u32 tls c fits room,
    )
