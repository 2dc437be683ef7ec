-- ===== src/Services/CertManager/Challenge.antt =====
-- certificate_manager.go: requesting and checking an ACME challenge, and its status.
use webrana_infinimail_backe.Services.{DnsChallengeInfo, start_domain_log, log_info, log_error}
use webrana_infinimail_backe.Services.CertManager.{
  CertManager, acme_record_name, is_expired, AcmeStep, AcmeStatus, AcmeDnsVerificationResult,
  AcmeChallengeInfo, challenge_expired, dns_pending, ready_to_start, logged, seconds_per_hour,
  dns_verified_step, validating, completed, failed_step, unknown,
}
use webrana_infinimail_backe.Text.Trim.{trim_space}
use webrana_infinimail_backe.Text.{bytes_eq, codes, Bytes, is_empty}
use webrana_infinimail_backe.Models.{
  Domain, status_eq, pending_acme_challenge, status_text, DomainStatus, dns_verified,
  acme_challenge_ready, pending_certificate, certificate_issued, active, failed,
}
use webrana_infinimail_backe.Effect.{
  ok, err, Result, Action, pure, ◌>>=◌, ◌>>◌, or_wrap, attempt, error_text, guard, reads, message,
  on_error, raise, wrap,
}
use webrana_infinimail_backe.Prelude.{
  [], true, false, none, some, ◌∷◌, List, ℕ, Bool, if◌then◌else◌, ◌||◌, ◌++◌, ◌+◌, ◌*◌,
}

-- the row with a fresh challenge
abbrev pub with_challenge : Domain → DnsChallengeInfo → ℕ → Domain
with_challenge d info expires_at = record d {
  acme_challenge_token = info.token;
  acme_challenge_value = info.txt_record;
  acme_challenge_expires_at = some expires_at;
  acme_dns_verified = false;
  status = pending_acme_challenge;
  error_message = [];
}

-- The trimmed values of one answer that are not there yet are added in order.
unfoldable pub mem : Bytes → List Bytes → Bool
unfolding bytes_eq
mem x [] = false
mem x (y ∷ ys) = bytes_eq y x || mem x ys

unfoldable pub add_unseen : List Bytes → List Bytes → List Bytes
unfolding mem trim_space
add_unseen all [] = all
add_unseen all (txt ∷ txts) =
    add_unseen (if mem (trim_space txt) all then all else all ++ trim_space txt ∷ []) txts

unfoldable pub dns_servers : List Bytes
unfolding codes
dns_servers = codes "8.8.8.8:53" ∷ codes "1.1.1.1:53" ∷ codes "208.67.222.222:53" ∷ []

module _ {W : Type 0} (s : CertManager W) where
  -- `RequestACMEChallenge`, the call of the ACME server
  unfoldable pub obtain_challenge : Domain → Action W DnsChallengeInfo
  unfolding codes
  obtain_challenge domain = do
    logged s (start_domain_log domain.name)
    logged s (log_info domain.name "request_challenge")
    on_error (s.acme.get_dns_challenge domain.name) λ e. do
      logged s (log_error domain.name "challenge_failed" e)
      raise (wrap (codes "failed to get ACME challenge") e)

  -- and the update of the row
  unfoldable pub store_challenge : Domain → DnsChallengeInfo → ℕ → Action W AcmeChallengeInfo
  unfolding codes acme_record_name
  store_challenge domain info expires_at = do
    on_error (s.domains.update (with_challenge domain info expires_at)) λ e. do
      logged s (log_error domain.name "store_challenge_failed" e)
      raise (wrap (codes "failed to store ACME challenge") e)
    logged s (log_info domain.name "challenge_stored")
    pure (record {
      domain = domain.name;
      txt_record_name = acme_record_name domain.name;
      txt_record_value = info.txt_record;
      expires_at = expires_at;
    })

  -- `RequestACMEChallenge`
  unfoldable pub request_acme_challenge : ℕ → Action W AcmeChallengeInfo
  unfolding codes status_eq status_text obtain_challenge store_challenge
  request_acme_challenge i = do
    domain ← or_wrap (s.domains.get_by_id i) "failed to get domain"
    guard (status_eq dns_verified domain.status) (
        message (
          codes "domain must be in dns_verified status to request ACME challenge, current status: "
          ++ status_text domain.status))
    info ← obtain_challenge domain
    expires_at ← reads (λ w. s.now w + 24 * seconds_per_hour)
    store_challenge domain info expires_at

  unfoldable pub add_answer : List Bytes → Result (List Bytes) → List Bytes
  add_answer all (ok txts) = add_unseen all txts
  add_answer all (err e) = all

  unfoldable pub ask : List Bytes → Bytes → List Bytes → Action W (List Bytes)
  ask [] challenge_domain all = pure all
  ask (server ∷ servers) challenge_domain all = do
    answer ← attempt (s.lookup_txt server challenge_domain)
    ask servers challenge_domain (add_answer all answer)

  -- `lookupACMETXTRecord`: the name servers are asked in turn, and one that fails is passed over.
  unfoldable pub lookup_acme_txt_record : Bytes → Action W (List Bytes)
  unfolding dns_servers add_unseen add_answer ask
  lookup_acme_txt_record challenge_domain = ask dns_servers challenge_domain []

  unfoldable pub not_verified : Bytes → AcmeDnsVerificationResult
  not_verified expected = record {
    verified = false;
    expected_value = expected;
    found_values = [];
    can_proceed = false;
  }

  -- after the automatic request for a new challenge
  unfoldable pub renewal_result : Bytes → Result AcmeChallengeInfo → AcmeDnsVerificationResult
  unfolding not_verified
  renewal_result old (ok fresh) = not_verified fresh.txt_record_value
  renewal_result old (err e) = not_verified old

  -- the branch of `VerifyACMEDNS` for an expired challenge
  unfoldable pub renew_challenge : ℕ → Domain → Action W AcmeDnsVerificationResult
  unfolding codes request_acme_challenge renewal_result
  renew_challenge i domain = do
    or_wrap (s.domains.update (record domain { status = dns_verified }))
        "failed to reset domain status for challenge renewal"
    fresh ← attempt (request_acme_challenge i)
    pure (renewal_result domain.acme_challenge_value fresh)

  -- the update that `VerifyACMEDNS` makes if the value was found
  unfoldable pub store_verified : Bool → Domain → Action W (Unit {0})
  unfolding codes
  store_verified false domain = pure tt
  store_verified true domain =
      or_wrap
        (s.domains.update
          (record domain { acme_dns_verified = true; status = acme_challenge_ready }))
        "failed to update domain after DNS verification"

  -- what `VerifyACMEDNS` does with the values that it found
  unfoldable pub conclude : Domain → List Bytes → Action W AcmeDnsVerificationResult
  unfolding mem store_verified
  conclude domain found =
      let verified : Bool = mem domain.acme_challenge_value found in
      do
        store_verified verified domain
        pure (record {
          verified = verified;
          expected_value = domain.acme_challenge_value;
          found_values = found;
          can_proceed = verified;
        })

  -- the branch of `VerifyACMEDNS` that asks the name servers
  unfoldable pub check_dns : Domain → Action W AcmeDnsVerificationResult
  unfolding lookup_acme_txt_record acme_record_name conclude
  check_dns domain = do
    found ← lookup_acme_txt_record (acme_record_name domain.name)
    conclude domain found

  -- `VerifyACMEDNS`
  unfoldable pub verify_acme_dns : ℕ → Action W AcmeDnsVerificationResult
  unfolding codes is_expired renew_challenge check_dns not_verified
  verify_acme_dns i = do
    domain ← or_wrap (s.domains.get_by_id i) "failed to get domain"
    if is_empty domain.acme_challenge_token || is_empty domain.acme_challenge_value
        then pure (not_verified [])
        else do
          time ← reads s.now
          if is_expired domain time then renew_challenge i domain else check_dns domain

  unfoldable pub status_of : AcmeStep → Domain → AcmeStatus
  status_of step d = record {
    step = step;
    challenge_info = none;
    dns_verified_flag = d.acme_dns_verified;
    error_message = [];
  }

  unfoldable pub expiry_failed : Domain → Bytes → AcmeStatus
  expiry_failed d text = record {
    step = challenge_expired;
    challenge_info = none;
    dns_verified_flag = d.acme_dns_verified;
    error_message = text;
  }

  unfoldable pub renewed_status : Domain → Result AcmeChallengeInfo → AcmeStatus
  renewed_status d (ok fresh) = record {
    step = dns_pending;
    challenge_info = some fresh;
    dns_verified_flag = d.acme_dns_verified;
    error_message = [];
  }
  renewed_status d (err e) = expiry_failed d (
      codes "Challenge has expired and auto-renewal failed: "
      ++ error_text e
      ++ codes ". Please request a new challenge.")

  unfoldable pub after_reset : ℕ → Domain → Result (Unit {0}) → Action W AcmeStatus
  after_reset i d (ok _) = do
    fresh ← attempt (request_acme_challenge i)
    pure (renewed_status d fresh)
  after_reset i d (err e) = pure (
      expiry_failed d (
        codes
          "Challenge has expired and status reset failed. Please request a new challenge manually."))

  unfoldable pub pending_status : Domain → AcmeStatus
  pending_status d = record {
    step = dns_pending;
    challenge_info =
        if is_empty d.acme_challenge_value
        then none
        else some (record {
          domain = d.name;
          txt_record_name = acme_record_name d.name;
          txt_record_value = d.acme_challenge_value;
          expires_at = elim d.acme_challenge_expires_at [ none ↦ 0 | some t ↦ t ];
        });
    dns_verified_flag = d.acme_dns_verified;
    error_message = [];
  }

  unfoldable pub by_status : DomainStatus → ℕ → Domain → Action W AcmeStatus
  unfolding status_of after_reset renewed_status expiry_failed pending_status is_expired
  by_status dns_verified i d = pure (status_of ready_to_start d)
  by_status pending_acme_challenge i d = do
    time ← reads s.now
    if is_expired d time
        then (do
          reset ← attempt (s.domains.update (record d { status = dns_verified }))
          after_reset i d reset)
        else pure (pending_status d)
  by_status acme_challenge_ready i d = pure (status_of dns_verified_step d)
  by_status pending_certificate i d = pure (status_of validating d)
  by_status certificate_issued i d = pure (status_of completed d)
  by_status active i d = pure (status_of completed d)
  by_status failed i d = pure (record {
    step = failed_step;
    challenge_info = none;
    dns_verified_flag = d.acme_dns_verified;
    error_message = d.error_message;
  })
  by_status _ i d = pure (status_of unknown d)

  -- `GetACMEStatus`
  unfoldable pub get_acme_status : ℕ → Action W AcmeStatus
  unfolding codes by_status
  get_acme_status i = do
    domain ← or_wrap (s.domains.get_by_id i) "failed to get domain"
    by_status domain.status i domain
