-- ===== src/Services/CertManager.antt =====
-- internal/services/certificate_manager.go: the service's state and its helpers. The operations
-- are in the modules below: certificates, challenges, and the two ways to a certificate.
pub mod Challenge
pub mod Issue
pub mod Submit
pub mod Generate
pub mod Records
pub mod Frames
pub mod Isolation
pub mod Submission
pub mod Verification
pub mod Generation
use webrana_infinimail_backe.Services.DomainManager.{DomainManager}
use webrana_infinimail_backe.Repository.Domains.{DomainRepository}
use webrana_infinimail_backe.Repository.Certificates.{CertificateRepository}
use webrana_infinimail_backe.Effect.{Action, changes, pure, ◌>>=◌, ignore, or_wrap}
use webrana_infinimail_backe.Models.{Domain}
use webrana_infinimail_backe.Services.{AcmeClient, LogCall, CertStorage}
use webrana_infinimail_backe.Text.{Bytes, codes}
use webrana_infinimail_backe.Prelude.{
  [], false, none, some, Bool, Option, ℕ, if◌then◌else◌, List, ◌==◌, ltb, ◌++◌,
}

-- `ACMEChallengeInfo`, less its constant note
pub record AcmeChallengeInfo : Type 0 where
  pub domain : Bytes
  pub txt_record_name : Bytes
  pub txt_record_value : Bytes
  pub expires_at : ℕ

-- `ACMEDNSVerificationResult`, less its message
pub record AcmeDnsVerificationResult : Type 0 where
  pub verified : Bool
  pub expected_value : Bytes
  pub found_values : List Bytes
  pub can_proceed : Bool

pub data AcmeStep : Type 0 where
  ready_to_start dns_pending challenge_expired dns_verified_step : AcmeStep
  validating completed failed_step unknown : AcmeStep

-- `ACMEStatus`, less the suggested action and the time of the last update
pub record AcmeStatus : Type 0 where
  pub step : AcmeStep
  pub challenge_info : Option AcmeChallengeInfo
  pub dns_verified_flag : Bool
  pub error_message : Bytes

-- `certificateManagerService`. The world's clock is `time.Now()`; the resolver takes a name
-- server and a domain; `reload` is `LoadAndAddCertificate`, if a certificate store is set.
pub record CertManager (W : Type 0) : Type 0 where
  pub acme : AcmeClient W
  pub storage : CertStorage W
  pub certs : CertificateRepository W
  pub domains : DomainRepository W
  pub manager : DomainManager W
  pub reload : Option (Bytes → Action W (Unit {0}))
  pub renewal_days : ℕ
  pub lookup_txt : Bytes → Bytes → Action W (List Bytes)
  pub log : LogCall → W → W
  pub now : W → ℕ

abbrev pub seconds_per_hour : ℕ
seconds_per_hour = 3600

-- `NewCertificateManagerService`
unfoldable pub with_defaults : {W : Type 0} → CertManager W → CertManager W
with_defaults s = record s { renewal_days = if s.renewal_days == 0 then 30 else s.renewal_days }

-- `ACMEChallengeExpiresAt != nil && time.Now().After(*ACMEChallengeExpiresAt)`
unfoldable pub is_expired : Domain → ℕ → Bool
is_expired d time = elim d.acme_challenge_expires_at [ none ↦ false | some t ↦ ltb t time ]

unfoldable pub acme_record_name : Bytes → Bytes
unfolding codes
acme_record_name name = codes "_acme-challenge." ++ name

module _ {W : Type 0} (s : CertManager W) where
  abbrev pub logged : LogCall → Action W (Unit {0})
  logged call = changes (s.log call)

  unfoldable pub reload_with : Option (Bytes → Action W (Unit {0})) → Bytes → Action W (Unit {0})
  reload_with none name = pure tt
  reload_with (some load) name = ignore (load name)

  -- `triggerHotReload`
  unfoldable pub trigger_hot_reload : Bytes → Action W (Unit {0})
  unfolding reload_with
  trigger_hot_reload name = reload_with s.reload name

  -- `ClearACMEChallenge`
  unfoldable pub clear_acme_challenge : ℕ → Action W (Unit {0})
  unfolding codes
  clear_acme_challenge i = do
    domain ← or_wrap (s.domains.get_by_id i) "failed to get domain"
    or_wrap
        (s.domains.update (record domain {
          acme_challenge_token = [];
          acme_challenge_value = [];
          acme_challenge_expires_at = none;
          acme_dns_verified = false;
        }))
        "failed to clear ACME challenge data"
