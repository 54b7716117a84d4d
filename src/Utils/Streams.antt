-- ===== src/Utils/Streams.antt =====
-- `check_stream_alive`, `read_certificate_file`, `parse_certificates` and `get_local_addresses` of
-- src/utils.rs; the files, the streams and the crates that they call are parameters.
use quic_serve.Prelude.{ℕ, String, ◌<>◌, Bool, true, false, List, [], ◌∷◌, map}
use quic_serve.Error.{Error, certificate_error, Result, ok, err, ◌>>=◌, map_err}
use quic_serve.Message.{Bytes}

-- The two halves of a stream: writing bytes, and reading exactly so many bytes. Each returns the stream
-- as it leaves it.
pub record Stream (S : Type 0) : Type 0 where
  pub write_all : Bytes → S → Result String (Unit {0}) × S
  pub read_exact : ℕ → S → Result String Bytes × S

module _ {S : Type 0} (io : Stream S) where
  abbrev is_ok {ℓ} : {A : Type ℓ} → Result String A × S → Bool × S
  is_ok (ok _, s) = (true, s)
  is_ok (err _, s) = (false, s)

  abbrev then_read : Result String (Unit {0}) × S → Bool × S
  then_read (ok _, s) = is_ok (io.read_exact 1 s)
  then_read (err _, s) = (false, s)

  unfoldable pub check_stream_alive : S → Bool × S
  check_stream_alive s = then_read (io.write_all (0 ∷ []) s)

-- `File::open` and `Read::read_to_end`.
pub record Files (FilePath Handle : Type 0) : Type 0 where
  pub open_file : FilePath → Result String Handle
  pub read_to_end : Handle → Result String Bytes

module _ {FilePath Handle : Type 0} (files : Files FilePath Handle) where
  unfoldable pub read_certificate_file : FilePath → Result Error Bytes
  read_certificate_file path = do
    file ←
        map_err (λ e. certificate_error ("Failed to open certificate file: " <> e))
          (files.open_file path)
    map_err (λ e. certificate_error ("Failed to read certificate file: " <> e))
        (files.read_to_end file)

-- `rustls::Certificate`
pub record Certificate : Type 0 where
  pub der : Bytes

abbrev pub certificates : List Bytes → List Certificate
certificates = map λ c. record { der = c }

-- `certs` is `rustls_pemfile::certs`.
unfoldable pub parse_certificates :
    (Bytes → Result String (List Bytes)) → Bytes → Result Error (List Certificate)
parse_certificates certs cert_data = do
  found ← map_err (λ e. certificate_error ("Failed to parse certificate: " <> e)) (certs cert_data)
  ok (certificates found)

-- Given the outcome of `local_ip_address::local_ip`.
unfoldable pub get_local_addresses : {IpAddr : Type 0} → Result String IpAddr → List IpAddr
get_local_addresses (ok ip) = ip ∷ []
get_local_addresses (err _) = []
