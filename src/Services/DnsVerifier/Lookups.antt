-- ===== src/Services/DnsVerifier/Lookups.antt =====
-- How often internal/services/dns_verifier.go asks the resolver.
use webrana_infinimail_backe.Services.DnsVerifier.Retry.{rounds-AtMost}
use webrana_infinimail_backe.Models.{Domain}
use webrana_infinimail_backe.Effect.{Action, attempt, Result, guard, or_else, wrap}
use webrana_infinimail_backe.Effect.Cost.{
  AtMost, AtMost-attempt, AtMost-bind, AtMost-guard, AtMost-or_else,
}
use webrana_infinimail_backe.Text.{Bytes, is_empty, codes}
use webrana_infinimail_backe.Services.DnsVerifier.{
  DnsVerifier, judged, verify_with_retry, verify_mx_record, verify_a_record, verify_txt_record,
  verify_dns, txt_domain, get_parent_domain, get_mail_hostname,
}
use webrana_infinimail_backe.Prelude.{suc, none, ℕ, Bool, ◌≤◌, ◌+◌, ◌*◌, arith, not, ◌++◌}

-- The world counts the questions to the resolver: each adds at most one, waiting adds none.
pub record CountsLookups {W : Type 0} (s : DnsVerifier W) (count : W → ℕ) : Type 0 where
  pub mx : (name : Bytes) → AtMost count 1 (s.resolver.lookup_mx name)
  pub host : (name : Bytes) → AtMost count 1 (s.resolver.lookup_host name)
  pub txt : (name : Bytes) → AtMost count 1 (s.resolver.lookup_txt name)
  pub waiting : AtMost count 0 s.wait

module _ {W : Type 0} (s : DnsVerifier W) (count : W → ℕ) (counts : CountsLookups s count) where
  judged-AtMost : (r : Result Bool) → AtMost count 0 (judged r)
  unfolding judged
  judged-AtMost r = record { at = λ w. omega arith }

  retried :
      (verify : Action W Bool)
      → AtMost count 1 verify
      → AtMost count (suc s.max_retries) (attempt (verify_with_retry s verify))
  unfolding verify_with_retry
  retried verify one =
      AtMost-attempt count (suc s.max_retries) (verify_with_retry s verify)
        (rounds-AtMost s count counts.waiting verify one (suc s.max_retries) none)

  verify_mx-AtMost : (name host : Bytes) → AtMost count 1 (verify_mx_record s name host)
  unfolding verify_mx_record
  verify_mx-AtMost name host =
      AtMost-bind count 0 1 1 (guard (not (is_empty name)) _) _ (omega arith)
        (AtMost-guard count _ _)
        (λ _.
          AtMost-bind count 0 1 1 (guard (not (is_empty host)) _) _ (omega arith)
            (AtMost-guard count _ _)
            (λ _.
              AtMost-bind count 1 0 1
                (or_else (s.resolver.lookup_mx name) (wrap (codes "MX lookup failed for " ++ name)))
                _ (omega arith)
                (AtMost-or_else count 1 (s.resolver.lookup_mx name) _ (counts.mx name))
                (λ rs. judged-AtMost _)))

  verify_a-AtMost : (name ip : Bytes) → AtMost count 1 (verify_a_record s name ip)
  unfolding verify_a_record
  verify_a-AtMost name ip =
      AtMost-bind count 0 1 1 (guard (not (is_empty name)) _) _ (omega arith)
        (AtMost-guard count _ _)
        (λ _.
          AtMost-bind count 0 1 1 (guard (not (is_empty ip)) _) _ (omega arith)
            (AtMost-guard count _ _)
            (λ _.
              AtMost-bind count 1 0 1
                (or_else (s.resolver.lookup_host name)
                  (wrap (codes "A record lookup failed for " ++ name)))
                _ (omega arith)
                (AtMost-or_else count 1 (s.resolver.lookup_host name) _ (counts.host name))
                (λ rs. judged-AtMost _)))

  verify_txt-AtMost : (name token : Bytes) → AtMost count 1 (verify_txt_record s name token)
  unfolding verify_txt_record
  verify_txt-AtMost name token =
      AtMost-bind count 0 1 1 (guard (not (is_empty name)) _) _ (omega arith)
        (AtMost-guard count _ _)
        (λ _.
          AtMost-bind count 0 1 1 (guard (not (is_empty token)) _) _ (omega arith)
            (AtMost-guard count _ _)
            (λ _.
              AtMost-bind count 1 0 1
                (or_else (s.resolver.lookup_txt (txt_domain name))
                  (wrap (codes "TXT lookup failed for " ++ (txt_domain name))))
                _ (omega arith)
                (AtMost-or_else count 1 (s.resolver.lookup_txt (txt_domain name)) _
                  (counts.txt (txt_domain name)))
                (λ rs. judged-AtMost _)))

  -- `VerifyDNS` asks the resolver at most `MaxRetries + 1` times for each of the three records.
  pub verify_dns-lookups :
      (domain : Domain) (w : W)
      → count (verify_dns s domain w).1 ≤ count w + 3 * (s.max_retries + 1)
  unfolding verify_dns
  verify_dns-lookups domain w =
      let parent : Bytes = get_parent_domain domain.name in
      let m1 =
        retried (verify_mx_record s parent s.smtp_hostname)
          (verify_mx-AtMost parent s.smtp_hostname) in
      let m2 =
        retried (verify_a_record s (get_mail_hostname domain.name) s.server_ip)
          (verify_a-AtMost (get_mail_hostname domain.name) s.server_ip) in
      let m3 =
        retried (verify_txt_record s parent domain.dns_challenge)
          (verify_txt-AtMost parent domain.dns_challenge) in
      omega (arith, m1.at w, m2.at _, m3.at _)
