-- ===== src/Smtp/Certificates.antt =====
-- The certificates of internal/smtp/backend.go: `SecureSMTPServer`.
use webrana_infinimail_backe.Services.CertStore.{CertStore, get_certificate_func}
use webrana_infinimail_backe.Text.{Bytes}
use webrana_infinimail_backe.Effect.{ok, err, Result, Action, pure}
use webrana_infinimail_backe.Prelude.{none, some, Option}

-- `getCertificate`, if it is set, at the server name of a hello; it gives a certificate, nil or an
-- error.
pub record SecureServer (C : Type 0) : Type 0 where
  pub get_certificate : Option (Bytes → Result (Option C))
  pub default_cert : Option C

module _ {C : Type 0} where
  abbrev without_error : Result (Option C) → Option C
  without_error (ok cert) = cert
  without_error (err e) = none

  -- the first of two certificates that is there
  abbrev pub or_other : Option C → Option C → Option C
  or_other (some cert) o = some cert
  or_other none o = o

  unfoldable pub looked_up : Option (Bytes → Result (Option C)) → Bytes → Option C
  looked_up none name = none
  looked_up (some f) name = without_error (f name)

  -- `getCertificateWithFallback`; it never gives an error
  unfoldable pub get_certificate_with_fallback : SecureServer C → Bytes → Option C
  unfolding looked_up
  get_certificate_with_fallback s name = or_other (looked_up s.get_certificate name) s.default_cert

  unfoldable pub set_get_certificate_func :
      Option (Bytes → Result (Option C)) → SecureServer C → SecureServer C
  set_get_certificate_func f s = record s { get_certificate = f }

  unfoldable pub set_default_cert : Option C → SecureServer C → SecureServer C
  set_default_cert cert s = record s { default_cert = cert }

  -- `LoadDefaultCertificate`, with `tls.LoadX509KeyPair`
  unfoldable pub load_default_certificate :
      Result C → SecureServer C → Result (Unit {0}) × SecureServer C
  unfolding set_default_cert
  load_default_certificate (err e) s = (err e, s)
  load_default_certificate (ok cert) s = (ok tt, set_default_cert (some cert) s)

-- `ReloadCertificates`, with the function or nil
unfoldable pub reload_certificates :
    {W : Type 0} → Option (Action W (Unit {0})) → Action W (Unit {0})
reload_certificates none = pure tt
reload_certificates (some reload) = reload

abbrev pub in_option : {C : Type 0} → Result C → Result (Option C)
in_option (ok cert) = ok (some cert)
in_option (err e) = err e

-- `cert, err := getCertificate(hello)`, for the store's function
unfoldable pub given_by : {W C : Type 0} → CertStore W C → Bytes → Result (Option C)
given_by s name = in_option (get_certificate_func s name)
