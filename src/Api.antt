-- ===== src/Api.antt =====
-- The HTTP interface: internal/api/response, the errors of internal/errors that the handlers give,
-- and what the handlers of internal/api/handlers share. The echo framework is left out: a handler
-- takes the parameters of the path and the decoded body, and gives a response.
pub mod Middleware
pub mod Domains
pub mod Setup
pub mod Mail
use webrana_infinimail_backe.Repository.Messages.{MessageListItem}
use webrana_infinimail_backe.Repository.Mailboxes.{MailboxWithUnreadCount}
use webrana_infinimail_backe.Services.CertManager.{
  AcmeChallengeInfo, AcmeDnsVerificationResult, AcmeStatus,
}
use webrana_infinimail_backe.Services.DnsVerifier.{DnsVerificationResult}
use webrana_infinimail_backe.Services.DomainManager.{DnsGuide}
use webrana_infinimail_backe.Text.Decimal.{parse_uint32}
use webrana_infinimail_backe.Models.{
  DomainStatus, Domain, DomainCertificate, Mailbox, Attachment, Message,
}
use webrana_infinimail_backe.Text.{Bytes, codes, bytes_eq}
use webrana_infinimail_backe.Services.DnsExport.{DnsExportResult}
use webrana_infinimail_backe.Effect.{
  ok, err, Result, Action, is_duplicate_entry, error_text, Err, is_not_found,
}
use webrana_infinimail_backe.Prelude.{
  [], true, false, none, some, ℕ, Option, Bool, ◌++◌, ltb, if◌then◌else◌, List, ◌||◌,
}

-- errors.go: `ACMEError`, less the suggested action
pub record AcmeError : Type 0 where
  pub code : Bytes
  pub message_text : Bytes
  pub domain_name : Bytes
  pub current_status : Bytes
  pub required_status : Bytes

unfoldable pub new_invalid_domain_status_error : Bytes → Bytes → Bytes → Bytes → AcmeError
unfolding codes
new_invalid_domain_status_error domain current required action = record {
  code = codes "INVALID_STATUS";
  message_text =
      codes "Domain "
      ++ domain
      ++ codes " is in '"
      ++ current
      ++ codes "' status, but '"
      ++ required
      ++ codes "' status is required to "
      ++ action;
  domain_name = domain;
  current_status = current;
  required_status = required;
}

unfoldable pub new_no_challenge_found_error : Bytes → AcmeError
unfolding codes
new_no_challenge_found_error domain = record {
  code = codes "NO_CHALLENGE_FOUND";
  message_text = codes "No active ACME challenge found for domain " ++ domain;
  domain_name = domain;
  current_status = [];
  required_status = [];
}

unfoldable pub new_acme_validation_error : Bytes → Err → AcmeError
unfolding codes error_text
new_acme_validation_error domain e = record {
  code = codes "ACME_VALIDATION_FAILED";
  message_text =
      codes "Let's Encrypt validation failed for domain " ++ domain ++ codes ": " ++ error_text e;
  domain_name = domain;
  current_status = [];
  required_status = [];
}

unfoldable pub new_acme_error : Bytes → Bytes → AcmeError
new_acme_error code text = record {
  code = code;
  message_text = text;
  domain_name = [];
  current_status = [];
  required_status = [];
}

-- `getHTTPStatusForACME`
unfoldable pub get_http_status_for_acme : Bytes → ℕ
unfolding codes bytes_eq
get_http_status_for_acme code =
    if bytes_eq code (codes "ACME_CHALLENGE_FAILED")
    then 500
    else if bytes_eq code (codes "ACME_CHALLENGE_EXPIRED")
        || bytes_eq code (codes "DNS_VERIFICATION_FAILED")
        || bytes_eq code (codes "ACME_VALIDATION_FAILED")
        || bytes_eq code (codes "INVALID_STATUS")
        || bytes_eq code (codes "NO_CHALLENGE_FOUND")
    then 400
    else 500

-- `DomainSetupProgress` and `DomainStatusResponse` of domain_handler.go
pub record DomainSetupProgress : Type 0 where
  pub current_step : ℕ
  pub total_steps : ℕ
  pub step_name : Bytes
  pub is_complete : Bool

pub record DomainStatusResponse : Type 0 where
  pub id : ℕ
  pub name : Bytes
  pub status : DomainStatus
  pub is_active : Bool
  pub error_message : Bytes
  pub progress : DomainSetupProgress
  pub next_step : Bytes

-- The data of a response. `with_message` is `SuccessWithMessage`; nil is `none`.
pub data Body : Type 0 where
  domain_body : Option Domain → Body
  domains_body : List Domain → Body
  guide_body : DnsGuide → Body
  export_body : DnsExportResult → Body
  dns_body : DnsVerificationResult → Body
  certificate_body : Option Domain → DomainCertificate → Body
  status_body : DomainStatusResponse → Body
  challenge_body : AcmeChallengeInfo → Body
  acme_dns_body : AcmeDnsVerificationResult → Body
  acme_status_body : AcmeStatus → Body
  mailbox_body : Mailbox → Body
  mailboxes_body : List MailboxWithUnreadCount → Body
  message_body : Message → List Attachment → Body
  messages_body : List MessageListItem → Body
  attachment_body : Attachment → Body
  attachments_body : List Attachment → Body
  error_body : Bytes → Bytes → Body
  acme_error_body : AcmeError → Body
  with_message : Body → Bytes → Body
  no_body : Body
  -- `Paginated`, with the total, the limit and the offset
  page_body : Body → ℕ → ℕ → ℕ → Body
  http_error_body : Bytes → Bytes → Body

-- A response with its HTTP status, a file with the headers that its row gives, or a handler that
-- dereferences nil.
pub data Response : Type 0 where
  reply : ℕ → Body → Response
  file_reply : Attachment → Bytes → Response
  panicked : Response

unfoldable pub is_success : Response → Bool
is_success (reply status body) = ltb status 400
is_success (file_reply a content) = true
is_success panicked = false

unfoldable pub success : Body → Response
success body = reply 200 body

unfoldable pub success_with_message : Body → Bytes → Response
success_with_message body text = reply 200 (with_message body text)

unfoldable pub paginated : Body → ℕ → ℕ → ℕ → Response
paginated body total limit offset = reply 200 (page_body body total limit offset)

unfoldable pub created : Body → Response
created body = reply 201 body

unfoldable pub no_content : Response
no_content = reply 204 no_body

unfoldable pub bad_request : Bytes → Response
unfolding codes
bad_request text = reply 400 (error_body text (codes "INVALID_INPUT"))

unfoldable pub not_found_reply : Bytes → Response
unfolding codes
not_found_reply text = reply 404 (error_body text (codes "NOT_FOUND"))

unfoldable pub conflict : Bytes → Response
unfolding codes
conflict text = reply 409 (error_body text (codes "DUPLICATE_ENTRY"))

unfoldable pub internal_error : Bytes → Response
unfolding codes
internal_error text = reply 500 (error_body text (codes "INTERNAL_ERROR"))

-- `ACMEError`
unfoldable pub acme_error : AcmeError → Response
unfolding get_http_status_for_acme
acme_error e = reply (get_http_status_for_acme e.code) (acme_error_body e)

abbrev pub Handler : Type 0 → Type 0
Handler W = W → Response × W

module _ {W : Type 0} where
  abbrev pub respond : Response → Handler W
  respond r w = (r, w)

  module _ {A : Type 0} where
    abbrev answered : Result A × W → (Err → Response) → (A → Handler W) → Response × W
    answered (ok a, w) f k = k a w
    answered (err e, w) f k = (f e, w)

    -- A call with `if err != nil { return f(err) }`
    abbrev pub calling : Action W A → (Err → Response) → (A → Handler W) → Handler W
    calling m f k w = answered (m w) f k

    abbrev either : Result A × W → (Option A → Handler W) → Response × W
    either (ok a, w) k = k (some a) w
    either (err e, w) k = k none w

    -- `a, _ := m`
    abbrev pub calling_loosely : Action W A → (Option A → Handler W) → Handler W
    calling_loosely m k w = either (m w) k

    -- `if service == nil { return … }`
    abbrev pub given : Option A → Response → (A → Handler W) → Handler W
    given none r k w = (r, w)
    given (some a) r k w = k a w

  -- `if !test { return … }`
  abbrev pub require : Bool → Response → Handler W → Handler W
  require true r k w = k w
  require false r k w = (r, w)

  -- the identifier in the path
  unfoldable pub with_id : Bytes → (ℕ → Handler W) → Handler W
  unfolding codes parse_uint32 bad_request
  with_id param k = given (parse_uint32 param) (bad_request (codes "invalid domain ID")) k

-- The error of a call: `domain not found` or another.
unfoldable pub missing_or : Bytes → Err → Response
unfolding codes is_not_found not_found_reply internal_error
missing_or text e =
    if is_not_found e then not_found_reply (codes "domain not found") else internal_error text

unfoldable pub duplicate_or : Bytes → Bytes → Err → Response
unfolding is_duplicate_entry conflict internal_error
duplicate_or duplicate text e =
    if is_duplicate_entry e then conflict duplicate else internal_error text
