-- ===== src/Config/Server/Requires.antt =====
-- What a server configuration that is built has read and set, and a key file that makes it panic.
use quic_serve.Prelude.{◌≤◌, String, ◌≡◌, refl, subst, Option, some, List, [], ◌∷◌, arith}
use quic_serve.Error.{Error, Result, ok, map_err, ok_or}
use quic_serve.Message.{Bytes}
use quic_serve.Utils.Streams.{certificates}
use quic_serve.Config.{Config}
use quic_serve.Config.Quinn.{done, panicked, lift, TransportConfig, ServerConfig, Tls, >>=-eq-done}
use quic_serve.Config.Server.{
  Identity, remove_first, read_files, parse_identity, server_transport, build_server_config,
}

lift-map_err :
    {A : Type 0} (f : String → Error) (r : Result String A) (a : A)
    → lift (map_err f r) ≡ done a
    → r ≡ ok a
lift-map_err f r a h = ground arith

done-injective : {A : Type 0} (a b : A) → done a ≡ done b → a ≡ b
done-injective a b h = cc

lift-ok_or :
    {A : Type 0} (e : Error) (o : Option A) (a : A) → lift (ok_or e o) ≡ done a → o ≡ some a
lift-ok_or e o a h = ground arith

remove_first-done :
    (keys : List Bytes) (key : Bytes)
    → remove_first keys ≡ done key
    → (more : List Bytes) × (keys ≡ key ∷ more)
remove_first-done [] key h = cc
remove_first-done (k ∷ more) key h = (more, ground arith)

module _ {Store : Type 0} (tls : Tls Store) where
  -- The bytes of the two files that the configuration names.
  pub record IsRead (c : Config) (chain_bytes key_bytes : Bytes) : Type 0 where
    pub cert_path : String
    pub key_path : String
    pub has_cert : c.cert_path ≡ some cert_path
    pub has_key : c.key_path ≡ some key_path
    pub cert_read : tls.read cert_path ≡ ok chain_bytes
    pub key_read : tls.read key_path ≡ ok key_bytes

  -- The chain and the key that the TLS library finds in the bytes, and that it takes together.
  pub record IsParsed (chain_bytes key_bytes : Bytes) (id : Identity) : Type 0 where
    pub chain : List Bytes
    pub more_keys : List Bytes
    pub chain_parsed : tls.certs chain_bytes ≡ ok chain
    pub chain_used : id.cert_chain ≡ certificates chain
    pub keys_parsed : tls.pkcs8_private_keys key_bytes ≡ ok (id.key ∷ more_keys)
    pub accepted : tls.with_single_cert id.cert_chain id.key ≡ ok tt

  -- The limits are those of the configuration, and fit.
  pub record IsLimited (c : Config) (t : TransportConfig) : Type 0 where
    pub keep_alive : t.keep_alive_interval ≡ c.keep_alive_ms
    pub idle : t.max_idle_timeout ≡ c.idle_timeout_ms
    pub streams : t.max_concurrent_uni_streams ≡ some c.max_concurrent_streams
    pub streams_le : c.max_concurrent_streams ≤ tls.varint_max

  read_files-IsRead :
      (c : Config) (files : Bytes × Bytes)
      → read_files tls c.cert_path c.key_path ≡ done files
      → IsRead c files.0 files.1
  unfolding read_files
  read_files-IsRead c files h =
      let (cert_path, e1, h1) = >>=-eq-done (lift (ok_or _ c.cert_path)) _ h in
      let (key_path, e2, h2) = >>=-eq-done (lift (ok_or _ c.key_path)) _ h1 in
      let (chain, e3, h3) = >>=-eq-done (lift (map_err _ (tls.read cert_path))) _ h2 in
      let (key, e4, h4) = >>=-eq-done (lift (map_err _ (tls.read key_path))) _ h3 in
      record {
        cert_path = cert_path;
        key_path = key_path;
        has_cert = lift-ok_or _ c.cert_path cert_path e1;
        has_key = lift-ok_or _ c.key_path key_path e2;
        cert_read = cc (lift-map_err _ (tls.read cert_path) chain e3, h4);
        key_read = cc (lift-map_err _ (tls.read key_path) key e4, h4);
      }

  parse_identity-IsParsed :
      (chain_bytes key_bytes : Bytes) (id : Identity)
      → parse_identity tls chain_bytes key_bytes ≡ done id
      → IsParsed chain_bytes key_bytes id
  unfolding parse_identity
  parse_identity-IsParsed chain_bytes key_bytes id h =
      let (chain, e1, h1) = >>=-eq-done (lift (map_err _ (tls.certs chain_bytes))) _ h in
      let (keys, e2, h2) = >>=-eq-done (lift (map_err _ (tls.pkcs8_private_keys key_bytes))) _ h1 in
      let (key, e3, h3) = >>=-eq-done (remove_first keys) _ h2 in
      let (u, e4, h4) =
        >>=-eq-done (lift (map_err _ (tls.with_single_cert (certificates chain) key))) _ h3 in
      let (more, e5) = remove_first-done keys key e3 in
      record {
        chain = chain;
        more_keys = more;
        chain_parsed = lift-map_err _ (tls.certs chain_bytes) chain e1;
        chain_used = cc h4;
        keys_parsed = cc (lift-map_err _ (tls.pkcs8_private_keys key_bytes) keys e2, e5, h4);
        accepted = cc (lift-map_err _ (tls.with_single_cert (certificates chain) key) u e4, h4);
      }

  server_transport-IsLimited :
      (c : Config) (t : TransportConfig) → server_transport tls c ≡ done t → IsLimited c t
  unfolding server_transport
  server_transport-IsLimited c t h = ground arith

  -- What a built server configuration has come from.
  pub record IsBuilt (c : Config) (s : ServerConfig) : Type 0 where
    pub chain_bytes : Bytes
    pub key_bytes : Bytes
    pub was_read : IsRead c chain_bytes key_bytes
    pub was_parsed :
        IsParsed chain_bytes key_bytes (record { cert_chain = s.cert_chain; key = s.key })
    pub was_limited : IsLimited c s.transport

  -- A server configuration that is built has its certificate chain from the certificate file and the
  -- first PKCS #8 key of the key file, both of which are configured and which the TLS library accepts
  -- together, and carries the two intervals and the limit on streams as they are configured; the latter
  -- fits a `VarInt`.
  pub build_server_config-IsBuilt :
      (c : Config) (s : ServerConfig) → build_server_config tls c ≡ done s → IsBuilt c s
  unfolding build_server_config
  build_server_config-IsBuilt c s h =
      let (files, e1, h1) = >>=-eq-done (read_files tls c.cert_path c.key_path) _ h in
      let (id, e2, h2) = >>=-eq-done (parse_identity tls files.0 files.1) _ h1 in
      let (t, e3, h3) = >>=-eq-done (server_transport tls c) _ h2 in
      subst (IsBuilt c) (done-injective _ s h3) (record {
        chain_bytes = files.0;
        key_bytes = files.1;
        was_read = read_files-IsRead c files e1;
        was_parsed = parse_identity-IsParsed files.0 files.1 id e2;
        was_limited = server_transport-IsLimited c t e3;
      })

  -- A key file in which there is no PKCS #8 key, though it parses, panics the server instead of
  -- failing with a certificate error, whenever both files can be read and the certificates parse.
  pub build_server_config-no_key :
      (c : Config) (cert_path key_path : String) (chain_bytes key_bytes : Bytes)
      (chain : List Bytes)
      → c.cert_path ≡ some cert_path
      → c.key_path ≡ some key_path
      → tls.read cert_path ≡ ok chain_bytes
      → tls.read key_path ≡ ok key_bytes
      → tls.certs chain_bytes ≡ ok chain
      → tls.pkcs8_private_keys key_bytes ≡ ok []
      → build_server_config tls c ≡ panicked
  unfolding build_server_config
  build_server_config-no_key c cert_path key_path chain_bytes key_bytes chain e1 e2 e3 e4 e5 e6 =
      rw (e1, e2, e3, e4, e5, e6) refl
