-- ===== src/Examples/Certificates.antt =====
-- The certificate of the example server: `generate_self_signed_cert` of examples/rpc_server.rs, and how
-- `main` there calls it. rcgen and the file system are parameters, and their errors are texts.
pub mod Ready
use quic_serve.Prelude.{ℕ, String, ◌<>◌, Bool, ◌||◌, not, List, [], ◌∷◌, if◌then◌else◌}
use quic_serve.Error.{other, Result, ok, err}
use quic_serve.Message.{Bytes}
use quic_serve.Config.Quinn.{Outcome, done, failed}

pub record Date : Type 0 where
  pub year : ℕ
  pub month : ℕ
  pub day : ℕ

pub data DnType : Type 0 where
  common_name : DnType

pub data KeyUsagePurpose : Type 0 where
  digital_signature key_encipherment : KeyUsagePurpose

-- The fields that the code sets.
pub record CertificateParams (DistinguishedName : Type 0) : Type 0 where
  pub not_before : Date
  pub not_after : Date
  pub distinguished_name : DistinguishedName
  pub key_usages : List KeyUsagePurpose

pub record Rcgen (DistinguishedName Certificate : Type 0) : Type 0 where
  pub default_params : CertificateParams DistinguishedName
  pub push : DnType → String → DistinguishedName → DistinguishedName
  pub from_params : CertificateParams DistinguishedName → Result String Certificate
  pub serialize_pem : Certificate → Result String Bytes
  pub serialize_private_key_pem : Certificate → Bytes

pub record Files (Disk : Type 0) : Type 0 where
  pub exists : String → Disk → Bool
  pub read : String → Disk → Result String Bytes
  pub create_dir_all : String → Disk → Result String (Unit {0}) × Disk
  pub write : String → Bytes → Disk → Result String (Unit {0}) × Disk

-- A call that fails leaves the disk as it has made it.
abbrev pub and_then :
    {A B Disk : Type 0}
    → Result String A × Disk
    → (A → Disk → Result String B × Disk)
    → Result String B × Disk
and_then (err e, d) rest = (err e, d)
and_then (ok a, d) rest = rest a d

module _ {DistinguishedName Certificate Disk : Type 0} (rcgen : Rcgen DistinguishedName Certificate)
    (files : Files Disk) where
  abbrev pub self_signed : CertificateParams DistinguishedName
  self_signed = record rcgen.default_params {
    not_before = record { year = 2023; month = 1; day = 1 };
    not_after = record { year = 2030; month = 1; day = 1 };
    distinguished_name = rcgen.push common_name "localhost" rcgen.default_params.distinguished_name;
    key_usages = digital_signature ∷ key_encipherment ∷ [];
  }

  unfoldable pub generate_self_signed_cert : String → Disk → Result String (Unit {0}) × Disk
  generate_self_signed_cert prefix d =
      and_then (rcgen.from_params self_signed, d)
        λ cert d0.
          and_then (rcgen.serialize_pem cert, d0)
            λ pem d1.
              and_then (files.write (prefix <> ".crt") pem d1)
                λ _ d2. files.write (prefix <> ".key") (rcgen.serialize_private_key_pem cert) d2

  abbrev pub or_other : Result String (Unit {0}) × Disk → Outcome (Unit {0}) × Disk
  or_other (err e, d) = (failed (other e), d)
  or_other (ok _, d) = (done tt, d)

  abbrev pub in_directory : Result String (Unit {0}) × Disk → Outcome (Unit {0}) × Disk
  in_directory (err e, d) = (failed (other "Failed to create certs directory"), d)
  in_directory (ok _, d) = or_other (generate_self_signed_cert "certs/server" d)

  -- `Load or generate certificates`
  unfoldable pub prepare : Disk → Outcome (Unit {0}) × Disk
  unfolding generate_self_signed_cert
  prepare d =
      if not (files.exists "certs/server.crt" d) || not (files.exists "certs/server.key" d)
      then in_directory (files.create_dir_all "certs" d)
      else (done tt, d)
