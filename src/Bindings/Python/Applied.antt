-- ===== src/Bindings/Python/Applied.antt =====
-- What the options of `PyClient::new` in src/bindings/python.rs do to a configuration.
use quic_serve.Prelude.{String, ◌≡◌, refl, ap, Option, none, some, Assoc, get, string_eq, ℕ, Bool}
use quic_serve.Error.{Result, ok}
use quic_serve.Message.{SerializationFormat}
use quic_serve.Config.{Config}
use quic_serve.Bindings.Python.{PyErr, Python}
use quic_serve.Bindings.Python.Options.{option_as, extract_format, client_options}

-- What an option holds: nothing if it is absent, else what its value extracts to.
pub data Holds {Value A : Type 0} (extract : Value → Result PyErr A)
    : Option Value → Option A → Type 0 where
  absent : Holds extract none none
  present : (value : Value) (a : A) → extract value ≡ ok a → Holds extract (some value) (some a)

-- The value of the option, or else the one there was.
abbrev pub or_old : {A : Type 0} → Option A → A → A
or_old none old = old
or_old (some a) old = a

abbrev pub or_kept : {A : Type 0} → Option A → Option A → Option A
or_kept none old = old
or_kept (some a) old = some a

option_as-Holds :
    {Value A : Type 0} (python : Python Value) (extract : Value → Result PyErr A)
    (set : A → Config → Config) (update : Option A → Config → Config)
    → ((c : Config) → c ≡ update none c)
    → ((a : A) (c : Config) → set a c ≡ update (some a) c)
    → (o : Option Value) (x : Option A) (c : Config) → Holds extract o x
    → option_as python extract set o c ≡ ok (update x c)
option_as-Holds python extract set update keeps sets o x c absent = ap ok (keeps c)
option_as-Holds python extract set update keeps sets o x c (present value a e) =
    rw e (ap ok (sets a c))

module _ {Value : Type 0} (python : Python Value) where
  -- The options of a dictionary, each with what it holds.
  pub record IsGiven (opts : Assoc String Value) (cert key ca name : Option String)
      (verify : Option Bool) (timeout : Option ℕ) (format : Option SerializationFormat)
      : Type 0 where
    pub cert_path : Holds python.extract_string (get "cert_path" opts) cert
    pub key_path : Holds python.extract_string (get "key_path" opts) key
    pub ca_path : Holds python.extract_string (get "ca_path" opts) ca
    pub verify_peer : Holds python.extract_bool (get "verify_peer" opts) verify
    pub timeout_ms : Holds python.extract_u64 (get "timeout_ms" opts) timeout
    pub server_name : Holds python.extract_string (get "server_name" opts) name
    pub format_name : Holds (extract_format python) (get "format" opts) format

  -- If the value of each option that is present can be extracted, then the options are accepted: each
  -- sets the field of its name, every other field keeps its value, and other keys are ignored.
  pub client_options-IsGiven :
      (opts : Assoc String Value) (cert key ca name : Option String) (verify : Option Bool)
      (timeout : Option ℕ) (format : Option SerializationFormat) (c : Config)
      → IsGiven opts cert key ca name verify timeout format
      → client_options python opts c
        ≡ ok (record c {
          cert_path = or_kept cert c.cert_path;
          key_path = or_kept key c.key_path;
          ca_path = or_kept ca c.ca_path;
          verify_peer = or_old verify c.verify_peer;
          timeout_ms = or_old timeout c.timeout_ms;
          server_name = or_kept name c.server_name;
          format = or_old format c.format;
        })
  unfolding client_options
  client_options-IsGiven opts cert key ca name verify timeout format c given =
      let c1 : Config = record c { cert_path = or_kept cert c.cert_path } in
      let c2 : Config = record c1 { key_path = or_kept key c1.key_path } in
      let c3 : Config = record c2 { ca_path = or_kept ca c2.ca_path } in
      let c4 : Config = record c3 { verify_peer = or_old verify c3.verify_peer } in
      let c5 : Config = record c4 { timeout_ms = or_old timeout c4.timeout_ms } in
      let c6 : Config = record c5 { server_name = or_kept name c5.server_name } in
      rw
        (
          option_as-Holds python python.extract_string (λ a d. record d { cert_path = some a })
              (λ x d. record d { cert_path = or_kept x d.cert_path }) (λ d. refl) (λ a d. refl)
              (get "cert_path" opts) cert c given.cert_path,
          option_as-Holds python python.extract_string (λ a d. record d { key_path = some a })
              (λ x d. record d { key_path = or_kept x d.key_path }) (λ d. refl) (λ a d. refl)
              (get "key_path" opts) key c1 given.key_path,
          option_as-Holds python python.extract_string (λ a d. record d { ca_path = some a })
              (λ x d. record d { ca_path = or_kept x d.ca_path }) (λ d. refl) (λ a d. refl)
              (get "ca_path" opts) ca c2 given.ca_path,
          option_as-Holds python python.extract_bool (λ a d. record d { verify_peer = a })
              (λ x d. record d { verify_peer = or_old x d.verify_peer }) (λ d. refl) (λ a d. refl)
              (get "verify_peer" opts) verify c3 given.verify_peer,
          option_as-Holds python python.extract_u64 (λ a d. record d { timeout_ms = a })
              (λ x d. record d { timeout_ms = or_old x d.timeout_ms }) (λ d. refl) (λ a d. refl)
              (get "timeout_ms" opts) timeout c4 given.timeout_ms,
          option_as-Holds python python.extract_string (λ a d. record d { server_name = some a })
              (λ x d. record d { server_name = or_kept x d.server_name }) (λ d. refl) (λ a d. refl)
              (get "server_name" opts) name c5 given.server_name,
          option_as-Holds python (extract_format python) (λ a d. record d { format = a })
              (λ x d. record d { format = or_old x d.format }) (λ d. refl) (λ a d. refl)
              (get "format" opts) format c6 given.format_name,
        )
        refl
