-- ===== src/Api/Domains.antt =====
-- internal/api/handlers/domain_handler.go: the handler's state, and the handlers of the domains'
-- rows, of the guide and of the status.
use webrana_infinimail_backe.Services.DnsExport.{
  JsonTexts, export_format, DnsExportFormat, DnsExportResult, is_valid_format, export,
}
use webrana_infinimail_backe.Effect.{Action, ok, err, Result}
use webrana_infinimail_backe.Services.CertManager.{CertManager}
use webrana_infinimail_backe.Services.DnsVerifier.{DnsVerifier}
use webrana_infinimail_backe.Api.{
  with_id, DomainStatusResponse, missing_or, duplicate_or, bad_request, success, internal_error,
  DomainSetupProgress, Handler, created, no_content, calling, given, respond, domain_body, require,
  domains_body, guide_body, status_body, export_body,
}
use webrana_infinimail_backe.Services.DomainManager.{create_domain, DomainManager, get_dns_guide}
use webrana_infinimail_backe.Models.{
  Domain, other, DomainStatus, pending_dns, dns_verified, pending_certificate, certificate_issued,
  active, failed, pending_acme_challenge, acme_challenge_ready,
}
use webrana_infinimail_backe.Text.{Bytes, codes, bytes_eq, is_empty}
use webrana_infinimail_backe.Repository.Domains.{DomainRepository}
use webrana_infinimail_backe.Prelude.{
  [], true, false, none, some, Option, ℕ, Bool, if◌then◌else◌, not,
}

-- `DomainHandler`; a service that is not configured is nil. The exporter's texts stand for it.
pub record DomainHandler (W : Type 0) : Type 0 where
  pub repo : DomainRepository W
  pub domain_manager : Option (DomainManager W)
  pub dns_verifier : Option (DnsVerifier W)
  pub dns_exporter : Option JsonTexts
  pub cert_manager : Option (CertManager W)

-- `CreateDomainRequest` and `UpdateDomainRequest`
pub record DomainRequest : Type 0 where
  pub name : Bytes
  pub is_active : Option Bool

-- `if req.IsActive != nil`
unfoldable pub or_given : Option Bool → Bool → Bool
or_given none b = b
or_given (some c) b = c

-- a row with the zero value in the other fields
unfoldable pub legacy_domain : DomainRequest → Domain
unfolding or_given
legacy_domain req = record {
  id = 0;
  name = req.name;
  is_active = or_given req.is_active true;
  status = other [];
  dns_challenge = [];
  error_message = [];
  acme_challenge_token = [];
  acme_challenge_value = [];
  acme_challenge_expires_at = none;
  acme_dns_verified = false;
}

unfoldable pub with_fields : DomainRequest → Domain → Domain
unfolding or_given
with_fields req d = record d {
  name = if is_empty req.name then d.name else req.name;
  is_active = or_given req.is_active d.is_active;
}

unfoldable pub progress : ℕ → Bytes → Bool → DomainSetupProgress
progress step name complete = record {
  current_step = step;
  total_steps = 4;
  step_name = name;
  is_complete = complete;
}

unfoldable pub get_progress_for_status : DomainStatus → DomainSetupProgress
unfolding codes progress
get_progress_for_status pending_dns = progress 1 (codes "Configure DNS Records") false
get_progress_for_status dns_verified = progress 2 (codes "DNS Verified") false
get_progress_for_status pending_certificate = progress 3 (codes "Generating Certificate") false
get_progress_for_status certificate_issued = progress 3 (codes "Certificate Issued") false
get_progress_for_status active = progress 4 (codes "Ready to Receive Email") true
get_progress_for_status failed = progress 0 (codes "Setup Failed") false
get_progress_for_status pending_acme_challenge = progress 0 (codes "Unknown") false
get_progress_for_status acme_challenge_ready = progress 0 (codes "Unknown") false
get_progress_for_status (other s) = progress 0 (codes "Unknown") false

unfoldable pub get_next_step_for_status : DomainStatus → Bytes
unfolding codes
get_next_step_for_status pending_dns = codes "Configure DNS records and verify"
get_next_step_for_status dns_verified = codes "Generate SSL certificate"
get_next_step_for_status pending_certificate = codes "Waiting for certificate generation"
get_next_step_for_status certificate_issued = codes "Activate domain"
get_next_step_for_status active = codes "Domain is ready to receive email"
get_next_step_for_status failed = codes "Retry the failed step"
get_next_step_for_status pending_acme_challenge = []
get_next_step_for_status acme_challenge_ready = []
get_next_step_for_status (other s) = []

unfoldable pub status_response : Domain → DomainStatusResponse
unfolding get_progress_for_status get_next_step_for_status
status_response d = record {
  id = d.id;
  name = d.name;
  status = d.status;
  is_active = d.is_active;
  error_message = d.error_message;
  progress = get_progress_for_status d.status;
  next_step = get_next_step_for_status d.status;
}

-- `if formatStr == ""`
unfoldable pub asked_format : Bytes → DnsExportFormat
unfolding export_format codes
asked_format format = export_format (if is_empty format then codes "bind" else format)

unfoldable pub answer_export : {W : Type 0} → Result DnsExportResult → Handler W
unfolding codes success internal_error
answer_export (ok r) = respond (success (export_body r))
answer_export (err e) = respond (internal_error (codes "failed to export DNS records"))

module _ {W : Type 0} (h : DomainHandler W) where
  -- `GetByID` with its two error responses
  unfoldable pub find_domain : ℕ → (Domain → Handler W) → Handler W
  unfolding codes missing_or
  find_domain i k = calling (h.repo.get_by_id i) (missing_or (codes "failed to get domain")) k

  unfoldable pub created_domain : Action W Domain → Handler W
  unfolding codes duplicate_or created
  created_domain m =
      calling m (duplicate_or (codes "domain already exists") (codes "failed to create domain"))
        λ d. respond (created (domain_body (some d)))

  unfoldable pub create_by : Option (DomainManager W) → DomainRequest → Handler W
  unfolding created_domain create_domain legacy_domain
  create_by (some manager) req = created_domain (create_domain manager req.name)
  create_by none req = created_domain (h.repo.create (legacy_domain req))

  -- `Create`, with the body or nothing if it cannot be read
  unfoldable pub create_handler : Option DomainRequest → Handler W
  unfolding codes bad_request create_by
  create_handler body = given body (bad_request (codes "invalid request body")) λ req.
      require (not (is_empty req.name)) (bad_request (codes "name is required"))
        (create_by h.domain_manager req)

  -- `List`, with the query parameter `active_only`
  unfoldable pub list_handler : Bytes → Handler W
  unfolding codes bytes_eq internal_error success
  list_handler active_only =
      calling (h.repo.list (bytes_eq active_only (codes "true")))
        (λ e. internal_error (codes "failed to list domains"))
        λ ds. respond (success (domains_body ds))

  -- `Get`
  unfoldable pub get_handler : Bytes → Handler W
  unfolding with_id find_domain success
  get_handler param = with_id param λ i. find_domain i λ d. respond (success (domain_body (some d)))

  -- `Update`
  unfoldable pub update_handler : Bytes → Option DomainRequest → Handler W
  unfolding codes with_id find_domain bad_request with_fields duplicate_or success
  update_handler param body = with_id param λ i.
      given body (bad_request (codes "invalid request body")) λ req. find_domain i λ d.
        calling (h.repo.update (with_fields req d))
          (duplicate_or (codes "domain name already exists") (codes "failed to update domain"))
          λ _. respond (success (domain_body (some (with_fields req d))))

  -- `Delete`
  unfoldable pub delete_handler : Bytes → Handler W
  unfolding codes with_id missing_or no_content
  delete_handler param = with_id param λ i.
      calling (h.repo.delete i) (missing_or (codes "failed to delete domain"))
        λ _. respond no_content

  -- `GetDNSGuide`
  unfoldable pub get_dns_guide_handler : Bytes → Handler W
  unfolding codes internal_error with_id missing_or get_dns_guide success
  get_dns_guide_handler param =
      given h.domain_manager (internal_error (codes "domain manager not configured")) λ manager.
        with_id param λ i.
          calling (get_dns_guide manager i) (missing_or (codes "failed to get DNS guide"))
            λ guide. respond (success (guide_body guide))

  -- `GetDNSExport`, with the query parameter `format`
  unfoldable pub get_dns_export_handler : Bytes → Bytes → Handler W
  unfolding codes internal_error with_id bad_request export_format is_valid_format find_domain
      get_dns_guide export answer_export asked_format
  get_dns_export_handler param format =
      let unset = internal_error (codes "domain manager or DNS exporter not configured") in
      given h.domain_manager unset λ manager. given h.dns_exporter unset λ json. with_id param λ i.
        require (is_valid_format (asked_format format))
          (bad_request
            (codes "invalid export format, must be one of: bind, cloudflare, route53, csv"))
          (find_domain i λ d.
            calling (get_dns_guide manager i)
              (λ e. internal_error (codes "failed to get DNS guide"))
              λ guide. answer_export (export json guide d.name (asked_format format)))

  -- `GetStatus`
  unfoldable pub get_status_handler : Bytes → Handler W
  unfolding with_id find_domain status_response success
  get_status_handler param =
      with_id param λ i. find_domain i λ d. respond (success (status_body (status_response d)))
