-- ===== src/Api/Setup.antt =====
-- internal/api/handlers/domain_handler.go: the handlers that set a domain up, over the DNS
-- verifier, the domain manager and the certificate manager. No service gives an `ACMEError`, so
-- that `GetACMEError` of a service's error is nil.
pub mod Unreachable
pub mod Evidence
pub mod Retries
pub mod Rows
pub mod Outcomes
use webrana_infinimail_backe.Services.CertManager.Challenge.{
  get_acme_status, request_acme_challenge, verify_acme_dns,
}
use webrana_infinimail_backe.Services.DnsVerifier.{verify_dns, DnsVerificationResult, DnsVerifier}
use webrana_infinimail_backe.Text.Case.{to_lower}
use webrana_infinimail_backe.Services.CertManager.Submit.{submit_acme_challenge}
use webrana_infinimail_backe.Services.CertManager.{CertManager}
use webrana_infinimail_backe.Services.DomainManager.{
  update_status, activate_domain, generate_challenge_for_legacy_domain, DomainManager,
}
use webrana_infinimail_backe.Services.CertManager.Generate.{generate_certificate}
use webrana_infinimail_backe.Api.{
  internal_error, new_acme_error, acme_error, success_with_message, success, with_id, bad_request,
  Handler, new_acme_validation_error, Response, given, AcmeError, calling_loosely, calling, require,
  new_invalid_domain_status_error, new_no_challenge_found_error, panicked, domain_body, respond,
  certificate_body, dns_body, challenge_body, acme_dns_body, acme_status_body,
}
use webrana_infinimail_backe.Api.Domains.{DomainHandler, find_domain}
use webrana_infinimail_backe.Models.{
  DomainStatus, status_eq, Domain, dns_verified, pending_dns, other, status_text,
  pending_acme_challenge, failed, certificate_issued, acme_challenge_ready, active,
  pending_certificate,
}
use webrana_infinimail_backe.Text.{codes, contains, Bytes, bytes_eq, is_empty}
use webrana_infinimail_backe.Effect.{ok, err, error_text, Err, Result}
use webrana_infinimail_backe.Prelude.{
  [], none, some, ◌∷◌, ℕ, if◌then◌else◌, Bool, Option, ◌||◌, ◌&&◌, ◌++◌, not,
}

-- `strings.Contains(strings.ToLower(domain.ErrorMessage), …)`
unfoldable pub certificate_trouble : Bytes → Bool
unfolding codes contains to_lower
certificate_trouble text =
    contains (to_lower text) (codes "acme")
    || contains (to_lower text) (codes "certificate")
    || contains (to_lower text) (codes "dns txt")
    || contains (to_lower text) (codes "_acme-challenge")

-- What `Retry` does: a new status, or an answer at once.
pub data RetryPlan : Type 0 where
  reset_to : DomainStatus → Bytes → RetryPlan
  answer_at_once : Bytes → RetryPlan
  unknown_status : RetryPlan

unfoldable pub retry_failed : Bytes → Bytes → RetryPlan
unfolding codes bytes_eq certificate_trouble
retry_failed wish text =
    if bytes_eq wish (codes "dns_verified")
    then reset_to dns_verified (codes "Domain reset to dns_verified status for certificate retry")
    else if bytes_eq wish (codes "pending_dns")
    then reset_to pending_dns (codes "Domain reset to pending_dns status for retry")
    else if bytes_eq wish (codes "pending_acme_challenge")
    then reset_to pending_acme_challenge
        (codes "Domain reset to pending_acme_challenge status for retry")
    else if certificate_trouble text
    then reset_to dns_verified (codes "Domain reset to dns_verified status for certificate retry")
    else reset_to pending_dns (codes "Domain reset to pending_dns status for retry")

-- the `switch domain.Status` of `Retry`
unfoldable pub retry_plan : DomainStatus → Bytes → Bytes → RetryPlan
unfolding codes retry_failed
retry_plan failed wish text = retry_failed wish text
retry_plan pending_dns wish text = reset_to pending_dns (codes "Ready to verify DNS")
retry_plan dns_verified wish text = answer_at_once (codes "Ready to generate certificate")
retry_plan pending_acme_challenge wish text =
    reset_to dns_verified
      (codes "Domain reset to dns_verified status to request new ACME challenge")
retry_plan acme_challenge_ready wish text =
    answer_at_once (codes "Ready to submit ACME challenge to Let's Encrypt")
retry_plan pending_certificate wish text =
    reset_to dns_verified (codes "Domain reset to dns_verified status for certificate retry")
retry_plan certificate_issued wish text = answer_at_once (codes "Ready to activate domain")
retry_plan active wish text = answer_at_once (codes "Domain is already active")
retry_plan (other []) wish text =
    reset_to pending_dns (codes "Legacy domain updated to pending_dns status")
retry_plan (other (c ∷ s)) wish text = unknown_status

-- `domain.Status == "" || (domain.IsActive && domain.Status != models.StatusActive)`
unfoldable pub is_legacy_domain : Domain → Bool
unfolding status_eq
is_legacy_domain d =
    status_eq (other []) d.status || (d.is_active && not (status_eq active d.status))

unfoldable pub can_verify_dns : Domain → Bool
unfolding is_legacy_domain status_eq
can_verify_dns d = is_legacy_domain d || status_eq pending_dns d.status || status_eq failed d.status

module _ {W : Type 0} (h : DomainHandler W) where
  -- `domain, _ = h.repo.GetByID(…)`, and the answer
  unfoldable pub answer_reloaded : ℕ → (Option Domain → Response) → Handler W
  answer_reloaded i f = calling_loosely (h.repo.get_by_id i) λ d. respond (f d)

  unfoldable pub generate_missing_challenge : DomainManager W → ℕ → Handler W
  unfolding codes internal_error generate_challenge_for_legacy_domain success_with_message
  generate_missing_challenge manager i =
      calling (generate_challenge_for_legacy_domain manager i)
        (λ e. internal_error (codes "failed to generate DNS challenge for legacy domain"))
        λ _.
          calling (h.repo.get_by_id i) (λ e. internal_error (codes "failed to reload domain"))
            λ d. respond (
              success_with_message (domain_body (some d))
                (codes "DNS challenge token generated for legacy domain"))

  unfoldable pub store_verdict : DomainManager W → ℕ → DnsVerificationResult → Handler W
  unfolding codes internal_error update_status success
  store_verdict manager i result =
      if result.all_verified
      then calling (update_status manager i dns_verified [])
          (λ e. internal_error (codes "failed to update domain status"))
          (λ _. respond (success (dns_body result)))
      else respond (success (dns_body result))

  unfoldable pub verify_found : DomainManager W → DnsVerifier W → ℕ → Domain → Handler W
  unfolding codes generate_missing_challenge store_verdict internal_error error_text verify_dns
  verify_found manager verifier i d =
      if is_empty d.dns_challenge
      then generate_missing_challenge manager i
      else calling (verify_dns verifier d)
          (λ e. internal_error (codes "DNS verification failed: " ++ error_text e))
          (store_verdict manager i)

  -- `VerifyDNS`
  unfoldable pub verify_dns_handler : Bytes → Handler W
  unfolding codes internal_error with_id find_domain can_verify_dns bad_request verify_found
  verify_dns_handler param =
      given h.domain_manager
        (internal_error (codes "domain manager or DNS verifier not configured"))
        λ manager.
          given h.dns_verifier
            (internal_error (codes "domain manager or DNS verifier not configured"))
            λ verifier. with_id param λ i. find_domain h i λ d.
              require (can_verify_dns d)
                (bad_request (codes "domain must be in pending_dns or failed status to verify DNS"))
                (verify_found manager verifier i d)

  unfoldable pub generation_error : Err → Response
  unfolding codes error_text contains bad_request internal_error
  generation_error e =
      if contains (error_text e) (codes "_acme-challenge")
      then bad_request
          (codes "ACME DNS challenge failed. Please add the required TXT record and try again.")
      else internal_error (codes "certificate generation failed: " ++ error_text e)

  unfoldable pub generate_found : DomainManager W → CertManager W → ℕ → Domain → Handler W
  unfolding codes generate_certificate generation_error activate_domain internal_error
      answer_reloaded success
  generate_found manager certs i d = calling (generate_certificate certs d) generation_error λ cert.
      calling (activate_domain manager i) (λ e. internal_error (codes "failed to activate domain"))
        λ _. answer_reloaded i λ d. success (certificate_body d cert)

  -- `GenerateCertificate`
  unfoldable pub generate_certificate_handler : Bytes → Handler W
  unfolding codes internal_error with_id find_domain status_eq bad_request generate_found
  generate_certificate_handler param =
      given h.domain_manager
        (internal_error (codes "domain manager or certificate manager not configured"))
        λ manager.
          given h.cert_manager
            (internal_error (codes "domain manager or certificate manager not configured"))
            λ certs. with_id param λ i. find_domain h i λ d.
              require (status_eq dns_verified d.status)
                (bad_request
                  (codes "domain must be in dns_verified status to generate certificate"))
                (generate_found manager certs i d)

  unfoldable pub follow_plan : DomainManager W → ℕ → Domain → RetryPlan → Handler W
  unfolding codes update_status internal_error answer_reloaded success_with_message bad_request
      status_text
  follow_plan manager i d (reset_to status text) =
      calling (update_status manager i status [])
        (λ e. internal_error (codes "failed to update domain status"))
        λ _. answer_reloaded i λ d. success_with_message (domain_body d) text
  follow_plan manager i d (answer_at_once text) =
      respond (success_with_message (domain_body (some d)) text)
  follow_plan manager i d unknown_status =
      respond (bad_request (codes "unknown domain status: " ++ status_text d.status))

  -- `Retry`, with the `reset_to` of the body, which is empty if the body cannot be read
  unfoldable pub retry_handler : Bytes → Bytes → Handler W
  unfolding codes internal_error with_id find_domain follow_plan retry_plan
  retry_handler param wish =
      given h.domain_manager (internal_error (codes "domain manager not configured")) λ manager.
        with_id param λ i.
          find_domain h i λ d. follow_plan manager i d (retry_plan d.status wish d.error_message)

  abbrev managed : (CertManager W → Handler W) → Handler W
  managed k = given h.cert_manager (internal_error (codes "certificate manager not configured")) k

  unfoldable pub challenge_failed : Bytes → Err → AcmeError
  unfolding codes new_acme_error error_text
  challenge_failed domain e =
      record (new_acme_error (codes "ACME_CHALLENGE_FAILED")
        (codes "Failed to request ACME challenge: " ++ error_text e)) { domain_name = domain }

  -- `RequestACMEChallenge`
  unfoldable pub request_acme_challenge_handler : Bytes → Handler W
  unfolding codes internal_error with_id find_domain status_eq acme_error status_text
      new_invalid_domain_status_error request_acme_challenge challenge_failed success
  request_acme_challenge_handler param = managed λ certs. with_id param λ i. find_domain h i λ d.
      require (status_eq dns_verified d.status)
        (acme_error (
          new_invalid_domain_status_error d.name (status_text d.status) (codes "dns_verified")
            (codes "request ACME challenge")))
        (calling (request_acme_challenge certs i) (λ e. acme_error (challenge_failed d.name e))
          λ info. respond (success (challenge_body info)))

  -- `VerifyACMEDNS`
  unfoldable pub verify_acme_dns_handler : Bytes → Handler W
  unfolding codes internal_error with_id find_domain acme_error new_no_challenge_found_error
      verify_acme_dns error_text success
  verify_acme_dns_handler param = managed λ certs. with_id param λ i. find_domain h i λ d.
      require (not (is_empty d.acme_challenge_token || is_empty d.acme_challenge_value))
        (acme_error (new_no_challenge_found_error d.name))
        (calling (verify_acme_dns certs i)
          (λ e. internal_error (codes "failed to verify ACME DNS: " ++ error_text e))
          λ result. respond (success (acme_dns_body result)))

  -- The answer to a failed submission; it reads the row again and uses it without a check.
  unfoldable pub submission_failed : Err → Option Domain → Response
  unfolding acme_error new_acme_validation_error status_text
  submission_failed e none = panicked
  submission_failed e (some d) =
      acme_error
        (record (new_acme_validation_error d.name e) { current_status = status_text d.status })

  unfoldable pub submission_done : Option Domain → Response
  unfolding codes success_with_message
  submission_done d =
      success_with_message (domain_body d)
        (codes "Certificate generated and domain activated successfully!")

  unfoldable pub activate_issued : ℕ → Option (DomainManager W) → Option Domain → Handler W
  unfolding codes status_eq activate_domain internal_error error_text answer_reloaded
      submission_done
  activate_issued i none d w = (submission_done d, w)
  activate_issued i (some manager) none w = (panicked, w)
  activate_issued i (some manager) (some d) w =
      if status_eq certificate_issued d.status
      then calling (activate_domain manager i)
          (λ e.
            internal_error
              (codes "certificate issued but failed to activate domain: " ++ error_text e))
          (λ _. answer_reloaded i submission_done) w
      else (submission_done (some d), w)

  unfoldable pub submit_found : CertManager W → ℕ → Handler W
  unfolding submit_acme_challenge submission_failed activate_issued
  submit_found certs i w = after (submit_acme_challenge certs i w)
    where
      after : Result (Unit {0}) × W → Response × W
      after (err e, v) =
          calling_loosely (h.repo.get_by_id i) (λ d. respond (submission_failed e d)) v
      after (ok u, v) = calling_loosely (h.repo.get_by_id i) (activate_issued i h.domain_manager) v

  -- `SubmitACMEChallenge`
  unfoldable pub submit_acme_challenge_handler : Bytes → Handler W
  unfolding codes internal_error with_id find_domain status_eq acme_error status_text
      new_invalid_domain_status_error submit_found
  submit_acme_challenge_handler param = managed λ certs. with_id param λ i. find_domain h i λ d.
      require (status_eq acme_challenge_ready d.status)
        (acme_error (
          new_invalid_domain_status_error d.name (status_text d.status)
            (codes "acme_challenge_ready") (codes "submit ACME challenge")))
        (submit_found certs i)

  -- `GetACMEStatus`
  unfoldable pub get_acme_status_handler : Bytes → Handler W
  unfolding codes internal_error with_id find_domain get_acme_status error_text success
  get_acme_status_handler param = managed λ certs. with_id param λ i. find_domain h i λ d.
      calling (get_acme_status certs i)
        (λ e. internal_error (codes "failed to get ACME status: " ++ error_text e))
        λ status. respond (success (acme_status_body status))
