-- ===== src/Services/DnsVerifier.antt =====
-- internal/services/dns_verifier.go. The resolver, the context and the waiting are parameters.
pub mod Retry
pub mod Verdict
pub mod Lookups
pub mod Frames
use webrana_infinimail_backe.Models.{Domain}
use webrana_infinimail_backe.Text.Trim.{trim_space}
use webrana_infinimail_backe.Text.Split.{trim_suffix, join}
use webrana_infinimail_backe.Text.Case.{to_lower}
use webrana_infinimail_backe.Text.{Bytes, codes, has_prefix, bytes_eq, drop, is_empty}
use webrana_infinimail_backe.Effect.{
  ok, err, Result, Action, message, Err, error_text, ◌>>◌, guard, pure, ◌>>=◌, raise, attempt,
  or_else, wrap,
}
use webrana_infinimail_backe.Prelude.{
  zero, suc, [], true, false, none, some, ◌∷◌, Bool, List, Option, ℕ, ◌++◌, if◌then◌else◌, ◌||◌,
  not, ◌==◌, ◌&&◌,
}

-- `DNSResolver`; of an MX record, its host
pub record DnsResolver (W : Type 0) : Type 0 where
  pub lookup_mx : Bytes → Action W (List Bytes)
  pub lookup_host : Bytes → Action W (List Bytes)
  pub lookup_txt : Bytes → Action W (List Bytes)

-- `dnsVerifierService` with its configuration. `ctx.Err()` is there if the context is done;
-- `wait` is `RetryDelay`, which the context may cut short with its error. `MaxRetries` is not
-- negative.
pub record DnsVerifier (W : Type 0) : Type 0 where
  pub resolver : DnsResolver W
  pub smtp_hostname : Bytes
  pub server_ip : Bytes
  pub max_retries : ℕ
  pub cancelled : W → Option Err
  pub wait : Action W (Unit {0})

pub record DnsVerificationResult : Type 0 where
  pub mx_verified : Bool
  pub a_verified : Bool
  pub txt_verified : Bool
  pub all_verified : Bool
  pub errors : List Bytes

-- `getParentDomain`
unfoldable pub get_parent_domain : Bytes → Bytes
unfolding codes has_prefix to_lower drop
get_parent_domain name = if has_prefix (to_lower name) (codes "mail.") then drop name 5 else name

-- `getMailHostname`
unfoldable pub get_mail_hostname : Bytes → Bytes
unfolding codes has_prefix to_lower
get_mail_hostname name =
    if has_prefix (to_lower name) (codes "mail.") then name else codes "mail." ++ name

-- `strings.TrimSuffix(strings.ToLower(host), ".")`
unfoldable pub normal_host : Bytes → Bytes
unfolding to_lower trim_suffix
normal_host host = trim_suffix (to_lower host) b'.'

-- One of the records is, once it is normalised, the expected value.
unfoldable pub some_matches : (Bytes → Bytes) → Bytes → List Bytes → Bool
some_matches normal expected [] = false
some_matches normal expected (r ∷ rs) =
    bytes_eq (normal r) expected || some_matches normal expected rs

-- `%s` of the first record
abbrev first_record : List Bytes → Bytes
first_record [] = []
first_record (r ∷ rs) = r

-- The verdict on the records that were found: `none` stands for no records.
unfoldable pub judge : Bool → Bytes → Bytes → List Bytes → Result Bool
judge found no_records mismatch [] = err (message no_records)
judge found no_records mismatch (r ∷ rs) = if found then ok true else err (message mismatch)

unfoldable pub mismatch_text : Bytes → Bytes → Bytes → Bytes → Bytes
unfolding codes
mismatch_text kind expected link shown =
    kind ++ codes " record mismatch: expected " ++ expected ++ link ++ shown

unfoldable pub txt_domain : Bytes → Bytes
unfolding codes
txt_domain name = codes "_infinimail." ++ name

unfoldable pub txt_value : Bytes → Bytes
unfolding codes
txt_value token = codes "infinimail-verify=" ++ token

-- `verified, err := …`
unfoldable pub is_verified : Result Bool → Bool
is_verified (ok b) = b
is_verified (err e) = false

unfoldable pub failure_text : Bytes → Result Bool → List Bytes
unfolding codes error_text
failure_text kind (ok b) = []
failure_text kind (err e) = (kind ++ codes " failed: " ++ error_text e) ∷ []

-- The result of the three checks.
unfoldable pub verdict : Result Bool → Result Bool → Result Bool → DnsVerificationResult
unfolding codes is_verified failure_text
verdict mx a txt = record {
  mx_verified = is_verified mx;
  a_verified = is_verified a;
  txt_verified = is_verified txt;
  all_verified = is_verified mx && is_verified a && is_verified txt;
  errors =
      failure_text (codes "MX verification") mx
      ++ failure_text (codes "A record verification") a
      ++ failure_text (codes "TXT verification") txt;
}

module _ {W : Type 0} where
  unfoldable pub judged : Result Bool → Action W Bool
  judged r w = (r, w)

  -- the end of the loop
  unfoldable pub give_up : Option Err → Action W Bool
  give_up none = pure false
  give_up (some e) = raise e

  unfoldable pub check_context : Option Err → Action W (Unit {0})
  check_context none = pure tt
  check_context (some e) = raise e

  -- what follows an attempt: success, or the next round with the last error
  unfoldable pub after_attempt :
      Option Err → (Option Err → Action W Bool) → Result Bool → Action W Bool
  after_attempt last next (ok true) = pure true
  after_attempt last next (ok false) = next last
  after_attempt last next (err e) = next (some e)

module _ {W : Type 0} (s : DnsVerifier W) where
  -- `VerifyMXRecord`
  unfoldable pub verify_mx_record : Bytes → Bytes → Action W Bool
  unfolding codes normal_host some_matches judge judged mismatch_text
  verify_mx_record name expected_host = do
    guard (not (is_empty name)) (message (codes "domain name cannot be empty"))
    guard (not (is_empty expected_host)) (message (codes "expected host cannot be empty"))
    hosts ← or_else (s.resolver.lookup_mx name) (wrap (codes "MX lookup failed for " ++ name))
    judged (
        judge (some_matches normal_host (normal_host expected_host) hosts)
          (codes "no MX records found for " ++ name)
          (mismatch_text (codes "MX") (normal_host expected_host) (codes ", found ")
            (first_record hosts))
          hosts)

  -- `VerifyARecord`
  unfoldable pub verify_a_record : Bytes → Bytes → Action W Bool
  unfolding codes trim_space some_matches judge judged mismatch_text
  verify_a_record hostname expected_ip = do
    guard (not (is_empty hostname)) (message (codes "hostname cannot be empty"))
    guard (not (is_empty expected_ip)) (message (codes "expected IP cannot be empty"))
    ips ←
        or_else (s.resolver.lookup_host hostname)
          (wrap (codes "A record lookup failed for " ++ hostname))
    judged (
        judge (some_matches trim_space (trim_space expected_ip) ips)
          (codes "no A records found for " ++ hostname)
          (mismatch_text (codes "A") (trim_space expected_ip) (codes ", found [")
            (join b' ' ips ++ codes "]"))
          ips)

  -- `VerifyTXTRecord`
  unfoldable pub verify_txt_record : Bytes → Bytes → Action W Bool
  unfolding codes trim_space some_matches judge judged mismatch_text txt_domain txt_value
  verify_txt_record name token = do
    guard (not (is_empty name)) (message (codes "domain name cannot be empty"))
    guard (not (is_empty token)) (message (codes "challenge token cannot be empty"))
    txts ←
        or_else (s.resolver.lookup_txt (txt_domain name))
          (wrap (codes "TXT lookup failed for " ++ txt_domain name))
    judged (
        judge (some_matches trim_space (txt_value token) txts)
          (codes "no TXT records found for " ++ txt_domain name)
          (mismatch_text (codes "TXT") (txt_value token) (codes " at ") (txt_domain name)) txts)

  -- no sleep before the end of the loop
  unfoldable pub next_round : Bool → (Option Err → Action W Bool) → Option Err → Action W Bool
  next_round true rest last = rest last
  next_round false rest last = s.wait >> rest last

  -- `n` more rounds
  unfoldable pub rounds : Action W Bool → ℕ → Option Err → Action W Bool
  unfolding give_up check_context after_attempt next_round
  rounds verify zero last w = give_up last w
  rounds verify (suc n) last w =
      let next : Option Err → Action W Bool = next_round (n == 0) (rounds verify n) in
      (check_context (s.cancelled w) >> (attempt verify >>= after_attempt last next)) w

  -- `verifyWithRetry`
  unfoldable pub verify_with_retry : Action W Bool → Action W Bool
  unfolding rounds
  verify_with_retry verify = rounds verify (suc s.max_retries) none

  -- `VerifyDNS`
  unfoldable pub verify_dns : Domain → Action W DnsVerificationResult
  unfolding codes get_parent_domain get_mail_hostname verify_mx_record verify_a_record
      verify_txt_record verify_with_retry verdict
  verify_dns domain = do
    let parent_domain : Bytes = get_parent_domain domain.name
    let mail_hostname : Bytes = get_mail_hostname domain.name
    mx ← attempt (verify_with_retry (verify_mx_record parent_domain s.smtp_hostname))
    a ← attempt (verify_with_retry (verify_a_record mail_hostname s.server_ip))
    txt ← attempt (verify_with_retry (verify_txt_record parent_domain domain.dns_challenge))
    pure (verdict mx a txt)
