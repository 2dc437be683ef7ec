-- ===== src/Services.antt =====
-- internal/services: the parts that the services take from one another and from outside.
pub mod DomainManager
pub mod CertManager
pub mod CertFiles
pub mod CertStore
pub mod DnsVerifier
pub mod SetupLog
pub mod Renewal
pub mod Acme
pub mod DnsExport
use webrana_infinimail_backe.Effect.{Action, Err}
use webrana_infinimail_backe.Prelude.{ℕ, String, List}
use webrana_infinimail_backe.Text.{Bytes}

-- acme_client.go: `CertificateBundle` and `DNSChallengeInfo`
pub record CertificateBundle : Type 0 where
  pub certificate : Bytes
  pub private_key : Bytes
  pub chain : Bytes
  pub expires_at : ℕ

pub record DnsChallengeInfo : Type 0 where
  pub token : Bytes
  pub txt_record : Bytes

-- the interface `ACMEClient`, over golang.org/x/crypto/acme
pub record AcmeClient (W : Type 0) : Type 0 where
  pub get_dns_challenge : Bytes → Action W DnsChallengeInfo
  pub complete_dns_challenge : Bytes → Action W (Unit {0})
  pub request_certificate : List Bytes → Action W CertificateBundle

-- cert_storage.go: `StoredCertificate`
pub record StoredCertificate : Type 0 where
  pub domain_name : Bytes
  pub cert_path : Bytes
  pub key_path : Bytes
  pub chain_path : Bytes
  pub expires_at : ℕ
  pub issued_at : ℕ

-- the calls of the interface `CertStorage` that the certificate manager makes
pub record CertStorage (W : Type 0) : Type 0 where
  pub save_certificate : Bytes → CertificateBundle → Action W StoredCertificate
  pub delete_certificate : Bytes → Action W (Unit {0})

-- The calls of acme_logger.go that the certificate manager and the ACME client make, with the
-- domain, the step and the error. Message texts are left out.
pub data LogCall : Type 0 where
  start_domain_log : Bytes → LogCall
  log_info : Bytes → String → LogCall
  log_error : Bytes → String → Err → LogCall
  log_debug log_warning : Bytes → String → LogCall
  mark_failed : Bytes → Err → LogCall
  mark_success : Bytes → LogCall
