-- ===== src/Models.antt =====
-- The rows of the database, internal/models. The timestamps that gorm fills in (CreatedAt,
-- UpdatedAt, ReceivedAt) and the relationship fields are left out. Times are numbers of seconds.
use webrana_infinimail_backe.Prelude.{ℕ, Bool, true, false, Option, ◌≡◌, ap, arith}
use webrana_infinimail_backe.Text.{Bytes, codes, bytes_eq, bytes_eq_sound}

-- A Go string type: `other` holds a string that is none of the eight constants.
pub data DomainStatus : Type 0 where
  pending_dns dns_verified pending_acme_challenge acme_challenge_ready : DomainStatus
  pending_certificate certificate_issued active failed : DomainStatus
  other : Bytes → DomainStatus

unfoldable pub status_text : DomainStatus → Bytes
unfolding codes
status_text pending_dns = codes "pending_dns"
status_text dns_verified = codes "dns_verified"
status_text pending_acme_challenge = codes "pending_acme_challenge"
status_text acme_challenge_ready = codes "acme_challenge_ready"
status_text pending_certificate = codes "pending_certificate"
status_text certificate_issued = codes "certificate_issued"
status_text active = codes "active"
status_text failed = codes "failed"
status_text (other s) = s

unfoldable pub is_valid : DomainStatus → Bool
is_valid (other s) = false
is_valid _ = true

-- `s == t`, for a constant `s`
unfoldable pub status_eq : DomainStatus → DomainStatus → Bool
status_eq pending_dns pending_dns = true
status_eq dns_verified dns_verified = true
status_eq pending_acme_challenge pending_acme_challenge = true
status_eq acme_challenge_ready acme_challenge_ready = true
status_eq pending_certificate pending_certificate = true
status_eq certificate_issued certificate_issued = true
status_eq active active = true
status_eq failed failed = true
status_eq (other s) (other t) = bytes_eq s t
status_eq _ _ = false

pub record Domain : Type 0 where
  pub id : ℕ
  pub name : Bytes
  pub is_active : Bool
  pub status : DomainStatus
  pub dns_challenge : Bytes
  pub error_message : Bytes
  pub acme_challenge_token : Bytes
  pub acme_challenge_value : Bytes
  pub acme_challenge_expires_at : Option ℕ
  pub acme_dns_verified : Bool

pub record DomainCertificate : Type 0 where
  pub id : ℕ
  pub domain_id : ℕ
  pub domain_name : Bytes
  pub cert_path : Bytes
  pub key_path : Bytes
  pub expires_at : ℕ
  pub issued_at : ℕ
  pub auto_renew : Bool

pub record Mailbox : Type 0 where
  pub id : ℕ
  pub local_part : Bytes
  pub domain_id : ℕ
  pub full_address : Bytes
  pub last_accessed_at : Option ℕ

pub record Attachment : Type 0 where
  pub id : ℕ
  pub message_id : ℕ
  pub filename : Bytes
  pub content_type : Bytes
  pub file_path : Bytes
  pub size_bytes : ℕ

pub record Message : Type 0 where
  pub id : ℕ
  pub mailbox_id : ℕ
  pub sender_email : Bytes
  pub sender_name : Bytes
  pub subject : Bytes
  pub snippet : Bytes
  pub body_text : Bytes
  pub body_html : Bytes
  pub is_read : Bool

pub status_eq_sound : (s t : DomainStatus) → status_eq s t ≡ true → s ≡ t
unfolding status_eq
status_eq_sound (other s) (other t) h = ap other (bytes_eq_sound s t h)
status_eq_sound s t h = ground arith
