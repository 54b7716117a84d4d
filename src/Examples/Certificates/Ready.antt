-- ===== src/Examples/Certificates/Ready.antt =====
-- The certificate files that the example server starts with: `main` of examples/rpc_server.rs.
use quic_serve.Prelude.{
  String, ◌≡◌, refl, ◌∙◌, ap, ◌⊎◌, inl, inr, true, false, ◌||◌, not, str_eq, Bool-cases,
  if◌then◌else◌, arith,
}
use quic_serve.Error.{Result, ok, err}
use quic_serve.Message.{Bytes}
use quic_serve.Config.Quinn.{done}
use quic_serve.Examples.Certificates.{
  Rcgen, Files, self_signed, and_then, generate_self_signed_cert, or_other, in_directory, prepare,
}

-- A file that was written is there with what was written, and the others stay.
pub record IsLawful {Disk : Type 0} (files : Files Disk) : Type 0 where
  pub write-exists :
      (path : String) (b : Bytes) (d d' : Disk) (q : String)
      → files.write path b d ≡ (ok tt, d')
      → files.exists q d' ≡ (str_eq path q || files.exists q d)
  pub write-read :
      (path : String) (b : Bytes) (d d' : Disk) (q : String)
      → files.write path b d ≡ (ok tt, d')
      → files.read q d' ≡ (if str_eq path q then ok b else files.read q d)

and_then-eq-ok :
    {A B Disk : Type 0} (m : Result String A × Disk) (f : A → Disk → Result String B × Disk) {b : B}
    {d : Disk}
    → and_then m f ≡ (ok b, d)
    → (a : A) × (d0 : Disk) × (m ≡ (ok a, d0)) × (f a d0 ≡ (ok b, d))
and_then-eq-ok (ok a, d0) f e = (a, d0, refl, e)
and_then-eq-ok (err x, d0) f e = cc

module _ {DistinguishedName Certificate Disk : Type 0} (rcgen : Rcgen DistinguishedName Certificate)
    (files : Files Disk) where
  -- One certificate and its key are on the disk.
  pub record IsWritten (d : Disk) (cert : Certificate) (pem : Bytes) : Type 0 where
    pub made : rcgen.from_params (self_signed rcgen files) ≡ ok cert
    pub has_pem : rcgen.serialize_pem cert ≡ ok pem
    pub cert_file : files.read "certs/server.crt" d ≡ ok pem
    pub key_file : files.read "certs/server.key" d ≡ ok (rcgen.serialize_private_key_pem cert)

  pub record IsReady (d : Disk) : Type 0 where
    pub has_cert : files.exists "certs/server.crt" d ≡ true
    pub has_key : files.exists "certs/server.key" d ≡ true

  generated :
      (d d' : Disk)
      → IsLawful files
      → generate_self_signed_cert rcgen files "certs/server" d ≡ (ok tt, d')
      → IsReady d' × (cert : Certificate) × (pem : Bytes) × IsWritten d' cert pem
  unfolding generate_self_signed_cert
  generated d d' lawful e =
      let (cert, d0, e0, rest0) =
        and_then-eq-ok (rcgen.from_params (self_signed rcgen files), d) _ e in
      let (pem, d1, e1, rest1) = and_then-eq-ok (rcgen.serialize_pem cert, d0) _ rest0 in
      let (_, d2, e2, e3) = and_then-eq-ok (files.write "certs/server.crt" pem d1) _ rest1 in
      let key = rcgen.serialize_private_key_pem cert in
      (
        record {
          has_cert =
              lawful.write-exists "certs/server.key" key d2 d' "certs/server.crt" e3
              ∙ lawful.write-exists "certs/server.crt" pem d1 d2 "certs/server.crt" e2;
          has_key = lawful.write-exists "certs/server.key" key d2 d' "certs/server.key" e3;
        },
        cert,
        pem,
        record {
          made = ap (λ x. x.0) e0;
          has_pem = ap (λ x. x.0) e1;
          cert_file =
              lawful.write-read "certs/server.key" key d2 d' "certs/server.crt" e3
              ∙ lawful.write-read "certs/server.crt" pem d1 d2 "certs/server.crt" e2;
          key_file = lawful.write-read "certs/server.key" key d2 d' "certs/server.key" e3;
        },
      )

  or_other-eq-done :
      (x : Result String (Unit {0}) × Disk) (d' : Disk)
      → or_other rcgen files x ≡ (done tt, d')
      → x ≡ (ok tt, d')
  or_other-eq-done (err e, d) d' h = cc
  or_other-eq-done (ok _, d) d' h = cc

  in_directory-done :
      (x : Result String (Unit {0}) × Disk) (d' : Disk)
      → IsLawful files
      → in_directory rcgen files x ≡ (done tt, d')
      → IsReady d' × (cert : Certificate) × (pem : Bytes) × IsWritten d' cert pem
  in_directory-done (err e, d) d' lawful h = cc
  in_directory-done (ok _, d) d' lawful h = generated d d' lawful (or_other-eq-done _ d' h)

  prepare-ready : (d : Disk) → IsReady d → prepare rcgen files d ≡ (done tt, d)
  unfolding prepare
  prepare-ready d ready = rw (ready.has_cert, ready.has_key) refl

  were_there :
      (d : Disk)
      → (not (files.exists "certs/server.crt" d) || not (files.exists "certs/server.key" d)) ≡ false
      → IsReady d
  were_there d there = record { has_cert = ground arith; has_key = ground arith }

  -- If the example server gets past its certificates, then either both files were there, and nothing is
  -- changed, or there now is a certificate with the parameters of the code in the one and its own key in the
  -- other, also if one of the two files was there before. Then both files are there, and the server may
  -- be started again without a new certificate.
  pub prepare-IsReady :
      (d d' : Disk)
      → IsLawful files
      → prepare rcgen files d ≡ (done tt, d')
      → ((IsReady d × (d' ≡ d)) ⊎ ((cert : Certificate) × (pem : Bytes) × IsWritten d' cert pem))
        × IsReady d'
        × (prepare rcgen files d' ≡ (done tt, d'))
  unfolding prepare
  prepare-IsReady d d' lawful e =
      elim (Bool-cases
        (not (files.exists "certs/server.crt" d) || not (files.exists "certs/server.key" d))) [
          | inl missing ↦
              let (ready, cert, pem, written) =
                in_directory-done (files.create_dir_all "certs" d) d' lawful (ground arith) in
              (inr (cert, pem, written), ready, prepare-ready d' ready)
          | inr there ↦
              let same : d' ≡ d = ground arith in
              rw same (
                (
                  inl (were_there d there, refl),
                  were_there d there,
                  prepare-ready d (were_there d there),
                ))
        ]
