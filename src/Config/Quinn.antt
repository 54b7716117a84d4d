-- ===== src/Config/Quinn.antt =====
-- What src/config.rs calls of quinn, rustls, rustls_pemfile and `std::fs`, and the configurations that it
-- builds through their setters.
use quic_serve.Prelude.{
  ◌≡◌, refl, ◌⊎◌, inl, inr, ℕ, String, Bool, Option, none, List, ltb, if◌then◌else◌,
}
use quic_serve.Error.{Error, Result, ok, err}
use quic_serve.Message.{Bytes}
use quic_serve.Utils.Streams.{Certificate}

-- A computation that returns a `Result` or panics, as `unwrap` and `Vec::remove` do.
pub data Outcome {ℓ} (A : Type ℓ) : Type ℓ where
  done : A → Outcome A
  failed : Error → Outcome A
  panicked : Outcome A

infixl 5 ◌>>=◌
abbrev pub ◌>>=◌ {ℓ κ} : {A : Type ℓ} {B : Type κ} → Outcome A → (A → Outcome B) → Outcome B
done a >>= f = f a
failed e >>= f = failed e
panicked >>= f = panicked

abbrev pub lift {ℓ} : {A : Type ℓ} → Result Error A → Outcome A
lift (ok a) = done a
lift (err e) = failed e

-- Inversion of a bind that is done.
pub >>=-eq-done {ℓ κ} :
    {A : Type ℓ} {B : Type κ} (m : Outcome A) (f : A → Outcome B) {b : B}
    → (m >>= f) ≡ done b
    → (a : A) × (m ≡ done a) × (f a ≡ done b)
>>=-eq-done (done a) f h = (a, refl, h)
>>=-eq-done (failed e) f h = cc
>>=-eq-done panicked f h = cc

-- Where a bind that panics has panicked.
pub >>=-eq-panicked {ℓ κ} :
    {A : Type ℓ} {B : Type κ} (m : Outcome A) (f : A → Outcome B)
    → (m >>= f) ≡ panicked
    → (m ≡ panicked) ⊎ ((a : A) × (m ≡ done a) × (f a ≡ panicked))
>>=-eq-panicked (done a) f h = inr (a, refl, h)
>>=-eq-panicked (failed e) f h = cc
>>=-eq-panicked panicked f h = inl refl

-- A limit that no setter has touched is `none`, and quinn's default holds.
pub record TransportConfig : Type 0 where
  pub keep_alive_interval : Option ℕ
  pub max_idle_timeout : Option ℕ
  pub max_concurrent_uni_streams : Option ℕ

abbrev pub default_transport : TransportConfig
default_transport = record {
  keep_alive_interval = none;
  max_idle_timeout = none;
  max_concurrent_uni_streams = none;
}

-- The roots that a client trusts.
pub data Roots (Store : Type 0) : Type 0 where
  custom : (store : Store) (enable_sni : Bool) → Roots Store
  native_roots : Roots Store

pub record ClientConfig (Store : Type 0) : Type 0 where
  pub roots : Roots Store
  pub transport : TransportConfig

pub record ServerConfig : Type 0 where
  pub cert_chain : List Certificate
  pub key : Bytes
  pub transport : TransportConfig

-- Errors are their texts. `varint_max` is the largest value of quinn's `VarInt`, by which it bounds an
-- idle timeout in milliseconds and a number of streams; `default_sni` is what rustls sets by itself.
pub record Tls (Store : Type 0) : Type 0 where
  pub read : String → Result String Bytes
  pub add_root : Certificate → Result String Store
  pub default_sni : Bool
  pub certs : Bytes → Result String (List Bytes)
  pub pkcs8_private_keys : Bytes → Result String (List Bytes)
  pub with_single_cert : List Certificate → Bytes → Result String (Unit {0})
  pub varint_max : ℕ

-- `x.try_into().unwrap()` into a `VarInt`
abbrev pub to_varint : ℕ → ℕ → Outcome ℕ
to_varint most x = if ltb most x then panicked else done x
