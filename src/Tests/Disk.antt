-- ===== src/Tests/Disk.antt =====
-- The certificates of the example server, on a disk that is a map from paths to contents.
use quic_serve.Prelude.{
  ℕ, ◌≡◌, refl, sym, ap, ◌⊎◌, String, Bool, true, false, ◌||◌, Option, none, some, List, [], ◌∷◌,
  Assoc, get, insert, remove, get-insert, string_eq, str_eq, if◌then◌else◌,
}
use quic_serve.Error.{Result, ok, err}
use quic_serve.Message.{Bytes}
use quic_serve.Config.Quinn.{Tls, done}
use quic_serve.Examples.Certificates.{Rcgen, Files, prepare, generate_self_signed_cert}
use quic_serve.Examples.Certificates.Ready.{IsLawful, IsReady, IsWritten, prepare-IsReady}
use quic_serve.Tests.Configs.{tls}

abbrev pub Disk : Type 0
Disk = Assoc String Bytes

abbrev is_some : Option Bytes → Bool
is_some none = false
is_some (some b) = true

abbrev or_missing : Option Bytes → Result String Bytes
or_missing none = err "No such file"
or_missing (some b) = ok b

abbrev pub files : Files Disk
files = record {
  exists = λ path d. is_some (get path d);
  read = λ path d. or_missing (get path d);
  create_dir_all = λ path d. (ok tt, d);
  write = λ path b d. (ok tt, insert path b d);
}

-- A certificate is its subject, here always the same number.
abbrev pub rcgen : Rcgen (List String) ℕ
rcgen = record {
  default_params = record {
    not_before = record { year = 1975; month = 1; day = 1 };
    not_after = record { year = 4096; month = 1; day = 1 };
    distinguished_name = "rcgen self signed cert" ∷ [];
    key_usages = [];
  };
  push = λ kind name names. name ∷ [];
  from_params = λ params. ok 5;
  serialize_pem = λ cert. ok (cert ∷ []);
  serialize_private_key_pem = λ cert. cert ∷ 9 ∷ [];
}

abbrev pub disk_tls : Disk → Tls Bytes
disk_tls d = record tls { read = λ path. files.read path d }

is_some-if :
    (t : Bool) (b : Bytes) (o : Option Bytes) → is_some (if t then some b else o) ≡ (t || is_some o)
is_some-if true b o = refl
is_some-if false b o = refl

or_missing-if :
    (t : Bool) (b : Bytes) (o : Option Bytes)
    → or_missing (if t then some b else o) ≡ (if t then ok b else or_missing o)
or_missing-if true b o = refl
or_missing-if false b o = refl

files-IsLawful : IsLawful files
files-IsLawful = record {
  write-exists = λ path b d d' q e.
      rw (sym (ap (λ x. x.1) e), get-insert path q b d) (is_some-if (str_eq path q) b (get q d));
  write-read = λ path b d d' q e.
      rw (sym (ap (λ x. x.1) e), get-insert path q b d) (or_missing-if (str_eq path q) b (get q d));
}

abbrev half : Disk
half = ("certs/server.crt", 1 ∷ []) ∷ []

abbrev pub both : Disk
both = ("certs/server.key", 5 ∷ 9 ∷ []) ∷ ("certs/server.crt", 5 ∷ []) ∷ []

prepare-IsReady_example :
    ((IsReady rcgen files half × (both ≡ half))
      ⊎ ((cert : ℕ) × (pem : Bytes) × IsWritten rcgen files both cert pem))
    × IsReady rcgen files both
    × (prepare rcgen files both ≡ (done tt, both))
unfolding prepare generate_self_signed_cert get insert remove
prepare-IsReady_example = prepare-IsReady rcgen files half both files-IsLawful refl
