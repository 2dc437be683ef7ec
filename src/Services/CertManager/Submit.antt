-- ===== src/Services/CertManager/Submit.antt =====
-- certificate_manager.go: `SubmitACMEChallenge`
use webrana_infinimail_backe.Services.{log_error, log_info, mark_success}
use webrana_infinimail_backe.Services.CertManager.Issue.{save_record}
use webrana_infinimail_backe.Effect.{
  error_text, Err, Action, ◌>>◌, ignore, ◌>>=◌, or_wrap, raise, on_error, guard, wrap, pure,
  message,
}
use webrana_infinimail_backe.Text.{Bytes, codes}
use webrana_infinimail_backe.Services.CertManager.{
  CertManager, clear_acme_challenge, trigger_hot_reload, logged,
}
use webrana_infinimail_backe.Models.{
  Domain, failed, status_eq, status_text, acme_challenge_ready, certificate_issued,
  pending_certificate,
}
use webrana_infinimail_backe.Prelude.{[], ◌∷◌, String, ℕ, ◌++◌}

-- the row of the last update, from the row as it was read at the start
abbrev pub issued : Domain → Domain
issued d = record d { status = certificate_issued; error_message = [] }

abbrev pub with_failure : Domain → Bytes → Domain
with_failure d text = record d { status = failed; error_message = text }

module _ {W : Type 0} (s : CertManager W) where
  -- the row is set to `failed`, whose own error is dropped, and the error is logged and returned
  unfoldable pub fail_submission : {A : Type 0} → Domain → Bytes → String → Bytes → Err → Action W A
  fail_submission d text step reason e = do
    ignore (s.domains.update (with_failure d text))
    logged s (log_error d.name step e)
    raise (wrap reason e)

  -- `SubmitACMEChallenge` after its checks, up to the last update of the row. The row that was read
  -- is `domain`; the calls work on it with the status `pending_certificate`.
  unfoldable pub prepare_submission : ℕ → Domain → Action W (Unit {0})
  unfolding codes error_text fail_submission save_record clear_acme_challenge
  prepare_submission i domain = do
    logged s (log_info domain.name "submit_challenge")
    or_wrap (s.domains.update (record domain { status = pending_certificate }))
        "failed to update domain status"
    on_error (s.acme.complete_dns_challenge domain.name) λ e.
        fail_submission domain
          (codes "ACME validation failed: "
            ++ error_text e
            ++ codes ". Please ensure the TXT record is correctly configured and try again.")
          "validation_failed" (codes "ACME validation failed") e
    logged s (log_info domain.name "validation_success")
    logged s (log_info domain.name "request_cert")
    bundle ← on_error (s.acme.request_certificate (domain.name ∷ [])) λ e.
        fail_submission domain (codes "Certificate request failed: " ++ error_text e)
          "cert_request_failed" (codes "failed to request certificate") e
    logged s (log_info domain.name "cert_received")
    stored ← on_error (s.storage.save_certificate domain.name bundle) λ e.
        fail_submission domain (codes "Certificate storage failed: " ++ error_text e)
          "cert_storage_failed" (codes "failed to save certificate") e
    logged s (log_info domain.name "cert_saved")
    save_record s (λ e. pure tt) domain stored
    ignore (clear_acme_challenge s i)

  -- the last update, of the row as it was read, and what follows it
  unfoldable pub publish_certificate : Domain → Action W (Unit {0})
  unfolding codes trigger_hot_reload
  publish_certificate domain = do
    or_wrap (s.domains.update (issued domain))
        "failed to update domain status to certificate_issued"
    trigger_hot_reload s domain.name
    logged s (mark_success domain.name)

  -- `SubmitACMEChallenge`
  unfoldable pub submit_acme_challenge : ℕ → Action W (Unit {0})
  unfolding codes status_eq status_text prepare_submission publish_certificate
  submit_acme_challenge i = do
    domain ← or_wrap (s.domains.get_by_id i) "failed to get domain"
    guard (status_eq acme_challenge_ready domain.status) (
        message (
          codes
            "domain must be in acme_challenge_ready status to submit ACME challenge, current status: "
          ++ status_text domain.status
          ++ codes ". Please verify DNS first"))
    guard domain.acme_dns_verified
        (message (codes "DNS has not been verified. Please verify DNS first using VerifyACMEDNS"))
    prepare_submission i domain
    publish_certificate domain
