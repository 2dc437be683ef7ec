-- ===== src/Services/CertManager/Generate.antt =====
-- certificate_manager.go: `GenerateCertificate`
use webrana_infinimail_backe.Services.{
  StoredCertificate, mark_failed, log_info, start_domain_log, mark_success,
}
use webrana_infinimail_backe.Services.CertManager.Issue.{save_record}
use webrana_infinimail_backe.Effect.{
  Err, error_text, Action, pure, ◌>>◌, ignore, raise, message, on_error, wrap, ◌>>=◌, reads,
}
use webrana_infinimail_backe.Text.{codes, Bytes, is_empty}
use webrana_infinimail_backe.Services.DomainManager.{update_status}
use webrana_infinimail_backe.Models.{
  Domain, status_eq, status_text, DomainCertificate, acme_challenge_ready, failed,
  certificate_issued, pending_certificate, dns_verified,
}
use webrana_infinimail_backe.Services.CertManager.{
  CertManager, clear_acme_challenge, trigger_hot_reload, logged, is_expired,
}
use webrana_infinimail_backe.Prelude.{[], true, false, ◌∷◌, Bool, if◌then◌else◌, ◌++◌, not, ◌||◌}

module _ {W : Type 0} (s : CertManager W) where
  -- `acmeLogger.MarkFailed` and the error
  unfoldable pub refuse : {A : Type 0} → Domain → Err → Action W A
  refuse d e = do logged s (mark_failed d.name e); raise e

  unfoldable pub refuse_if_not : Bool → Domain → Err → Action W (Unit {0})
  unfolding refuse
  refuse_if_not true d e = pure tt
  refuse_if_not false d e = refuse d e

  unfoldable pub log_failure : Domain → Err → Action W (Unit {0})
  log_failure d e = logged s (mark_failed d.name e)

  -- the status is set to `failed` by the domain manager, whose own error is dropped
  unfoldable pub fail_generation : {A : Type 0} → Domain → Bytes → Bytes → Err → Action W A
  unfolding update_status log_failure
  fail_generation d text reason e = do
    ignore (update_status s.manager d.id failed text)
    log_failure d e
    raise (wrap reason e)

  -- the checks before anything is changed
  unfoldable pub check_ready : Domain → Action W (Unit {0})
  unfolding codes status_eq status_text is_expired refuse_if_not
  check_ready domain = do
    refuse_if_not (status_eq acme_challenge_ready domain.status) domain (
        message (
          if status_eq dns_verified domain.status
          then codes
              "please use the manual DNS verification flow: 1) Request ACME challenge, 2) Add DNS TXT record, 3) Verify DNS, 4) Submit challenge"
          else codes
              "domain must be in acme_challenge_ready status (DNS verified) to generate certificate, current status: "
            ++ status_text domain.status))
    refuse_if_not domain.acme_dns_verified domain (
        message (
          codes
            "DNS has not been verified. Please verify DNS first using VerifyACMEDNS before generating certificate"))
    refuse_if_not
        (not (is_empty domain.acme_challenge_token || is_empty domain.acme_challenge_value)) domain
        (message (
          codes
            "no stored ACME challenge data found. Please request a new challenge using RequestACMEChallenge"))
    time ← reads s.now
    refuse_if_not (not (is_expired domain time)) domain (
        message (
          codes
            "ACME challenge has expired. Please request a new challenge using RequestACMEChallenge"))

  -- the steps at the ACME server and on the disk, each with its failure
  unfoldable pub obtain_certificate : Domain → Action W StoredCertificate
  unfolding codes error_text fail_generation
  obtain_certificate domain = do
    logged s (log_info domain.name "domains")
    logged s (log_info domain.name "complete_challenge")
    on_error (s.acme.complete_dns_challenge domain.name) λ e.
        fail_generation domain
          (codes "ACME DNS challenge failed: "
            ++ error_text e
            ++ codes ". Please verify the TXT record is still correctly configured and try again.")
          (codes "failed to complete DNS challenge") e
    logged s (log_info domain.name "challenge_complete")
    logged s (log_info domain.name "request_cert")
    bundle ← on_error (s.acme.request_certificate (domain.name ∷ [])) λ e.
        fail_generation domain (codes "Certificate request failed: " ++ error_text e)
          (codes "failed to request certificate") e
    logged s (log_info domain.name "cert_received")
    stored ← on_error (s.storage.save_certificate domain.name bundle) λ e.
        fail_generation domain (codes "Certificate storage failed: " ++ error_text e)
          (codes "failed to save certificate") e
    logged s (log_info domain.name "cert_saved")
    pure stored

  -- the last writes
  unfoldable pub mark_issued : Domain → Action W (Unit {0})
  unfolding codes update_status log_failure
  mark_issued domain = on_error (update_status s.manager domain.id certificate_issued []) λ e. do
    log_failure domain e
    raise (wrap (codes "failed to update domain status to certificate_issued") e)

  unfoldable pub announce : Domain → Action W (Unit {0})
  unfolding trigger_hot_reload
  announce domain = do trigger_hot_reload s domain.name; logged s (mark_success domain.name)

  unfoldable pub finish_generation : Domain → Action W (Unit {0})
  unfolding clear_acme_challenge mark_issued announce
  finish_generation domain = do
    ignore (clear_acme_challenge s domain.id)
    mark_issued domain
    announce domain

  -- from the first change of the status to the certificate's record
  unfoldable pub issue_certificate : Domain → Action W DomainCertificate
  unfolding codes update_status save_record obtain_certificate log_failure
  issue_certificate domain = do
    logged s (log_info domain.name "init")
    on_error (update_status s.manager domain.id pending_certificate []) λ e. do
      log_failure domain e
      raise (wrap (codes "failed to update domain status to pending_certificate") e)
    stored ← obtain_certificate domain
    save_record s (log_failure domain) domain stored

  -- `GenerateCertificate`, for a domain that is not nil
  unfoldable pub generate_certificate : Domain → Action W DomainCertificate
  unfolding check_ready issue_certificate finish_generation
  generate_certificate domain = do
    logged s (start_domain_log domain.name)
    check_ready domain
    cert ← issue_certificate domain
    finish_generation domain
    pure cert
