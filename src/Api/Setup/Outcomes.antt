-- ===== src/Api/Setup/Outcomes.antt =====
-- What `VerifyDNS` of internal/api/handlers/domain_handler.go may do to the rows.
use webrana_infinimail_backe.Text.Trim.{trim_space}
use webrana_infinimail_backe.Services.DnsVerifier.Verdict.{Saw}
use webrana_infinimail_backe.Api.Setup.{can_verify_dns}
use webrana_infinimail_backe.Repository.Laws.{SameRows, PutRow, SameRows-PutRow}
use webrana_infinimail_backe.Text.{Bytes, is_empty}
use webrana_infinimail_backe.Models.{Domain, pending_dns, dns_verified}
use webrana_infinimail_backe.Services.DnsVerifier.{
  DnsVerifier, get_parent_domain, normal_host, get_mail_hostname, txt_domain, txt_value,
}
use webrana_infinimail_backe.Prelude.{[], true, some, inl, inr, ℕ, Option, ◌≡◌, ◌⊎◌, ◌∙◌, sym}

-- A row that was marked as verified, and the answers of the resolver that it rests on.
pub record Marked {W : Type 0} (s : DnsVerifier W) (row : W → ℕ → Option Domain) (u v : W)
    : Type 0 where
  pub id : ℕ
  pub before : Domain
  pub found : row u id ≡ some before
  pub allowed : can_verify_dns before ≡ true
  pub mx :
      Saw s.resolver.lookup_mx
        (get_parent_domain before.name)
        normal_host
        (normal_host s.smtp_hostname)
  pub a :
      Saw s.resolver.lookup_host (get_mail_hostname before.name) trim_space (trim_space s.server_ip)
  pub txt :
      Saw s.resolver.lookup_txt
        (txt_domain (get_parent_domain before.name))
        trim_space
        (txt_value before.dns_challenge)
  pub written : PutRow row id (record before { status = dns_verified; error_message = [] }) u v

-- A row without a token that was given one.
pub record Challenged {W : Type 0} (row : W → ℕ → Option Domain) (u v : W) : Type 0 where
  pub id : ℕ
  pub before : Domain
  pub token : Bytes
  pub found : row u id ≡ some before
  pub allowed : can_verify_dns before ≡ true
  pub without_token : is_empty before.dns_challenge ≡ true
  pub written : PutRow row id (record before { dns_challenge = token; status = pending_dns }) u v

abbrev pub Outcome : {W : Type 0} → DnsVerifier W → (W → ℕ → Option Domain) → W → W → Type 0
Outcome s row u v = SameRows row u v ⊎ (Marked s row u v ⊎ Challenged row u v)

pub Outcome-after :
    {W : Type 0} (s : DnsVerifier W) (row : W → ℕ → Option Domain) (u v w : W)
    → SameRows row u v
    → Outcome s row v w
    → Outcome s row u w
Outcome-after s row u v w same (inl kept) = inl (λ j. kept j ∙ same j)
Outcome-after s row u v w same (inr (inl m)) = inr (
    inl (record {
      id = m.id;
      before = m.before;
      found = sym (same m.id) ∙ m.found;
      allowed = m.allowed;
      mx = m.mx;
      a = m.a;
      txt = m.txt;
      written =
          SameRows-PutRow row u v w m.id
            (record m.before { status = dns_verified; error_message = [] }) same m.written;
    }))
Outcome-after s row u v w same (inr (inr c)) = inr (
    inr (record {
      id = c.id;
      before = c.before;
      token = c.token;
      found = sym (same c.id) ∙ c.found;
      allowed = c.allowed;
      without_token = c.without_token;
      written =
          SameRows-PutRow row u v w c.id
            (record c.before { dns_challenge = c.token; status = pending_dns }) same c.written;
    }))
