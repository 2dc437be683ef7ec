-- ===== src/Services/DomainManager.antt =====
-- internal/services/domain_manager.go
pub mod Hostnames
pub mod Status
pub mod Creation
use webrana_infinimail_backe.Text.Trim.{trim_space}
use webrana_infinimail_backe.Text.Case.{to_lower}
use webrana_infinimail_backe.Models.{
  Domain, DomainStatus, is_valid, status_text, status_eq, failed, certificate_issued, pending_dns,
  active,
}
use webrana_infinimail_backe.Effect.{Action, ◌>>=◌, pure, or_wrap, ◌>>◌, guard, message}
use webrana_infinimail_backe.Repository.Domains.{DomainRepository}
use webrana_infinimail_backe.Text.{Bytes, codes, has_prefix, drop, is_empty}
use webrana_infinimail_backe.Prelude.{
  [], true, false, none, ◌∷◌, ℕ, if◌then◌else◌, ◌/◌, ◌++◌, ltb, ◌%◌, ◌+◌, not, ◌-◌,
}

pub record DnsRecord : Type 0 where
  pub kind : Bytes
  pub name : Bytes
  pub value : Bytes
  pub priority : ℕ
  pub ttl : ℕ

pub record DnsGuide : Type 0 where
  pub mx_record : DnsRecord
  pub a_record : DnsRecord
  pub txt_record : DnsRecord
  pub smtp_host : Bytes
  pub server_ip : Bytes

pub record DomainManagerConfig : Type 0 where
  pub smtp_hostname : Bytes
  pub server_ip : Bytes

-- `getParentDomainName`, and `getParentDomain` of dns_verifier.go
unfoldable pub get_parent_domain_name : Bytes → Bytes
unfolding codes has_prefix to_lower drop
get_parent_domain_name name =
    if has_prefix (to_lower name) (codes "mail.") then drop name 5 else name

-- `getMailHostnameName`, and `getMailHostname` of dns_verifier.go
unfoldable pub get_mail_hostname_name : Bytes → Bytes
unfolding codes has_prefix to_lower
get_mail_hostname_name name =
    if has_prefix (to_lower name) (codes "mail.") then name else codes "mail." ++ name

-- the records of `GetDNSGuide`
unfoldable pub guide_for : DomainManagerConfig → Domain → DnsGuide
unfolding codes get_parent_domain_name get_mail_hostname_name
guide_for config domain = record {
  smtp_host = config.smtp_hostname;
  server_ip = config.server_ip;
  mx_record = record {
    kind = codes "MX";
    name = get_parent_domain_name domain.name;
    value = config.smtp_hostname;
    priority = 10;
    ttl = 3600;
  };
  a_record = record {
    kind = codes "A";
    name = get_mail_hostname_name domain.name;
    value = config.server_ip;
    priority = 0;
    ttl = 3600;
  };
  txt_record = record {
    kind = codes "TXT";
    name = codes "_infinimail." ++ get_parent_domain_name domain.name;
    value = codes "infinimail-verify=" ++ domain.dns_challenge;
    priority = 0;
    ttl = 3600;
  };
}

-- `hex.EncodeToString`
unfoldable pub hex_digit : ℕ → ℕ
hex_digit n = if ltb n 10 then b'0' + n else b'a' + (n - 10)

unfoldable pub hex_encode : Bytes → Bytes
unfolding hex_digit
hex_encode [] = []
hex_encode (b ∷ bs) = hex_digit (b / 16) ∷ hex_digit (b % 16) ∷ hex_encode bs

-- the row that `UpdateStatus` writes
abbrev pub with_status : Domain → DomainStatus → Bytes → Domain
with_status d status error_msg = record d {
  status = status;
  error_message = if status_eq failed status then error_msg else [];
}

-- The service over a domain repository and `rand.Read` of 16 bytes.
pub record DomainManager (W : Type 0) : Type 0 where
  pub repo : DomainRepository W
  pub config : DomainManagerConfig
  pub rand_read : Action W Bytes

module _ {W : Type 0} (s : DomainManager W) where
  open s use {repo, config, rand_read}

  unfoldable pub generate_challenge_token : Action W Bytes
  unfolding hex_encode
  generate_challenge_token = do bytes ← rand_read; pure (hex_encode bytes)

  unfoldable pub create_domain : Bytes → Action W Domain
  unfolding codes to_lower trim_space generate_challenge_token
  create_domain name₀ =
      let name : Bytes = trim_space (to_lower name₀) in
      do
        guard (not (is_empty name)) (message (codes "domain name cannot be empty"))
        challenge_token ← or_wrap generate_challenge_token "failed to generate challenge token"
        or_wrap
            (repo.create (record {
              id = 0;
              name = name;
              is_active = false;
              status = pending_dns;
              dns_challenge = challenge_token;
              error_message = [];
              acme_challenge_token = [];
              acme_challenge_value = [];
              acme_challenge_expires_at = none;
              acme_dns_verified = false;
            }))
            "failed to create domain"

  unfoldable pub update_status : ℕ → DomainStatus → Bytes → Action W (Unit {0})
  unfolding codes is_valid status_text status_eq
  update_status i status error_msg = do
    guard (is_valid status) (message (codes "invalid domain status: " ++ status_text status))
    domain ← or_wrap (repo.get_by_id i) "failed to get domain"
    or_wrap (repo.update (with_status domain status error_msg)) "failed to update domain status"

  unfoldable pub get_dns_guide : ℕ → Action W DnsGuide
  unfolding codes guide_for
  get_dns_guide i = do
    domain ← or_wrap (repo.get_by_id i) "failed to get domain"
    pure (guide_for config domain)

  unfoldable pub activate_domain : ℕ → Action W (Unit {0})
  unfolding codes status_text status_eq
  activate_domain i = do
    domain ← or_wrap (repo.get_by_id i) "failed to get domain"
    guard (status_eq certificate_issued domain.status) (
        message (
          codes "domain must be in certificate_issued status to activate, current status: "
          ++ status_text domain.status))
    or_wrap (repo.update (record domain { status = active; is_active = true; error_message = [] }))
        "failed to activate domain"

  unfoldable pub get_domain : ℕ → Action W Domain
  get_domain i = repo.get_by_id i

  unfoldable pub generate_challenge_for_legacy_domain : ℕ → Action W (Unit {0})
  unfolding codes generate_challenge_token
  generate_challenge_for_legacy_domain i = do
    domain ← or_wrap (repo.get_by_id i) "failed to get domain"
    if not (is_empty domain.dns_challenge) then pure tt else do
      challenge_token ← or_wrap generate_challenge_token "failed to generate challenge token"
      or_wrap
          (repo.update (record domain { dns_challenge = challenge_token; status = pending_dns }))
          "failed to update domain with challenge token"
