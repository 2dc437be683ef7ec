-- ===== src/Services/CertManager/Records.antt =====
-- certificate_manager.go: the operations on stored certificates. `Certificate` has the fields of
-- `DomainCertificate` that are modelled, so `modelToCertificate` is the identity here.
use webrana_infinimail_backe.Services.CertManager.Issue.{renewed}
use webrana_infinimail_backe.Models.{DomainCertificate}
use webrana_infinimail_backe.Text.Decimal.{decimal}
use webrana_infinimail_backe.Text.{codes, Bytes, is_empty}
use webrana_infinimail_backe.Services.CertManager.{CertManager, trigger_hot_reload}
use webrana_infinimail_backe.Effect.{
  ok, err, is_not_found, Action, Result, Err, ◌>>=◌, or_else, or_wrap, attempt, ◌>>◌, message,
  guard, pure, wrap, raise,
}
use webrana_infinimail_backe.Prelude.{[], ◌∷◌, ℕ, List, Bool, if◌then◌else◌, ◌++◌, ◌==◌, not}

module _ {W : Type 0} (s : CertManager W) where
  -- the error of a read: a missing row has a message of its own
  unfoldable pub missing : Bytes → Bytes → Err → Err
  unfolding is_not_found
  missing none_text text e = if is_not_found e then message none_text else wrap text e

  -- `GetCertificate`
  unfoldable pub get_certificate : Bytes → Action W DomainCertificate
  unfolding codes missing
  get_certificate name = do
    guard (not (is_empty name)) (message (codes "domain name cannot be empty"))
    or_else (s.certs.get_by_domain_name name) (
        missing (codes "certificate not found for domain: " ++ name)
          (codes "failed to get certificate"))

  -- `GetCertificateByDomainID`
  unfoldable pub get_certificate_by_domain_id : ℕ → Action W DomainCertificate
  unfolding codes missing decimal
  get_certificate_by_domain_id i = or_else (s.certs.get_by_domain_id i) (
      missing (codes "certificate not found for domain ID: " ++ decimal i)
        (codes "failed to get certificate"))

  -- `RenewCertificate`
  unfoldable pub renew_certificate : ℕ → Action W DomainCertificate
  unfolding codes missing decimal renewed trigger_hot_reload
  renew_certificate i = do
    existing ← or_else (s.certs.get_by_domain_id i) (
        missing (codes "no certificate found for domain ID: " ++ decimal i)
          (codes "failed to get existing certificate"))
    domain ← or_wrap (s.domains.get_by_id i) "failed to get domain"
    or_wrap (s.acme.get_dns_challenge domain.name) "failed to get DNS challenge for renewal"
    or_wrap (s.acme.complete_dns_challenge domain.name)
        "failed to complete DNS challenge for renewal"
    bundle ←
        or_wrap (s.acme.request_certificate (domain.name ∷ []))
          "failed to request renewal certificate"
    stored ←
        or_wrap (s.storage.save_certificate domain.name bundle) "failed to save renewal certificate"
    or_wrap (s.certs.update (renewed existing stored)) "failed to update certificate record"
    trigger_hot_reload s domain.name
    pure (renewed existing stored)

  -- `GetExpiringCertificates`
  unfoldable pub get_expiring_certificates : ℕ → Action W (List DomainCertificate)
  unfolding codes
  get_expiring_certificates days =
      or_wrap (s.certs.get_expiring_certificates (if days == 0 then s.renewal_days else days))
        "failed to get expiring certificates"

  unfoldable pub delete_found : ℕ → Result DomainCertificate → Action W (Unit {0})
  unfolding codes is_not_found
  delete_found i (err e) =
      if is_not_found e then pure tt else raise (wrap (codes "failed to get certificate") e)
  delete_found i (ok cert) = do
    or_wrap (s.storage.delete_certificate cert.domain_name)
        "failed to delete certificate from storage"
    or_wrap (s.certs.delete_by_domain_id i) "failed to delete certificate from database"

  -- `DeleteCertificate`
  unfoldable pub delete_certificate : ℕ → Action W (Unit {0})
  unfolding delete_found
  delete_certificate i = do found ← attempt (s.certs.get_by_domain_id i); delete_found i found

  -- `SetAutoRenew`
  unfoldable pub set_auto_renew : ℕ → Bool → Action W (Unit {0})
  unfolding codes missing decimal
  set_auto_renew i auto_renew = do
    cert ← or_else (s.certs.get_by_domain_id i) (
        missing (codes "certificate not found for domain ID: " ++ decimal i)
          (codes "failed to get certificate"))
    or_wrap (s.certs.update (record cert { auto_renew = auto_renew }))
        "failed to update auto-renew setting"
