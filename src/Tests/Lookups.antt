-- ===== src/Tests/Lookups.antt =====
-- A resolver whose first answer is an error. The world is the number of questions so far.

use webrana_infinimail_backe.Services.DnsVerifier.Retry.{verify_with_retry-finds}
use webrana_infinimail_backe.Services.DnsVerifier.Verdict.{Sound, verify_dns-Sound}
use webrana_infinimail_backe.Models.{Domain, pending_dns}
use webrana_infinimail_backe.Services.DnsVerifier.{
  verify_dns, DnsVerificationResult, verify_mx_record, DnsVerifier, verify_with_retry,
}
use webrana_infinimail_backe.Text.{codes, Bytes, bytes_eq}
use webrana_infinimail_backe.Effect.{ok, err, Result, message}
use webrana_infinimail_backe.Prelude.{
  zero, suc, [], true, false, none, refl, ◌∷◌, ℕ, arith, ◌≡◌, List,
}

first_answer : ℕ → Result (List Bytes)
unfolding codes
first_answer zero = err (message (codes "timeout"))
first_answer (suc n) = ok (codes "MX.infinimail.test." ∷ [])

abbrev verifier : DnsVerifier ℕ
unfolding codes
verifier = record {
  resolver = record {
    lookup_mx = λ name w. (first_answer w, suc w);
    lookup_host = λ name w. (ok (codes "192.0.2.1" ∷ []), suc w);
    lookup_txt = λ name w. (ok (codes "infinimail-verify=ab " ∷ []), suc w);
  };
  smtp_hostname = codes "mx.infinimail.test";
  server_ip = codes "192.0.2.1";
  max_retries = 3;
  cancelled = λ w. none;
  wait = λ w. (ok tt, w);
}

abbrev domain : Domain
unfolding codes
domain = record {
  id = 1;
  name = codes "a.test";
  is_active = false;
  status = pending_dns;
  dns_challenge = codes "ab";
  error_message = [];
  acme_challenge_token = [];
  acme_challenge_value = [];
  acme_challenge_expires_at = none;
  acme_dns_verified = false;
}

verify_dns-Sound_example :
    (r : DnsVerificationResult) × ((verify_dns verifier domain 0).0 ≡ ok r)
    × Sound verifier domain r
verify_dns-Sound_example = verify_dns-Sound verifier domain 0

-- the second question for the MX record succeeds
verify_with_retry-finds_example :
    (verify_with_retry verifier
      (verify_mx_record verifier (codes "a.test") (codes "mx.infinimail.test"))
      0).0
    ≡ ok true
unfolding verifier verify_mx_record first_answer webrana_infinimail_backe.Text.bytes_eq
verify_with_retry-finds_example =
    verify_with_retry-finds verifier
      (verify_mx_record verifier (codes "a.test") (codes "mx.infinimail.test")) (λ w. refl)
      (λ w. refl) 1 0 (omega arith) refl

all_verified : (verify_dns verifier domain 0).1 ≡ 4
unfolding verify_dns verifier first_answer bytes_eq codes
all_verified = refl
