-- ===== src/Tests/Challenges.antt =====
-- The certificate manager on worlds of one domain, one for each step of the flow.
use webrana_infinimail_backe.Services.CertManager.Verification.{
  ready, verify_marks_ready, request_stores_challenge, pending_row,
}
use webrana_infinimail_backe.Services.CertManager.Submission.{submit_keeps_challenge, issued_row}
use webrana_infinimail_backe.Services.CertManager.Isolation.{acme_flow_isolated}
use webrana_infinimail_backe.Services.CertManager.Generation.{Issued, generate_clears_challenge}
use webrana_infinimail_backe.Repository.Laws.{PutRow}
use webrana_infinimail_backe.Repository.Certificates.{certificate_repository}
use webrana_infinimail_backe.Services.{DnsChallengeInfo}
use webrana_infinimail_backe.Text.{codes, is_empty}
use webrana_infinimail_backe.Repository.Domains.{domain_repository}
use webrana_infinimail_backe.Services.CertManager.Generate.{generate_certificate, issue_certificate}
use webrana_infinimail_backe.Services.CertManager.Challenge.{
  request_acme_challenge, verify_acme_dns, get_acme_status, mem, obtain_challenge,
}
use webrana_infinimail_backe.Services.CertManager.{
  AcmeChallengeInfo, AcmeDnsVerificationResult, clear_acme_challenge,
}
use webrana_infinimail_backe.Models.{
  Domain, DomainCertificate, acme_challenge_ready, dns_verified, pending_acme_challenge,
}
use webrana_infinimail_backe.Services.CertManager.Submit.{submit_acme_challenge}
use webrana_infinimail_backe.Tests.World.{
  World, domain_in, row, world_in, cert_manager, one_row, find, domain_laws,
  cert_manager-KeepsDomains,
}
use webrana_infinimail_backe.Effect.{ok, Result}
use webrana_infinimail_backe.Prelude.{[], true, false, some, refl, ◌∷◌, ◌≡◌, ◌+◌, ◌*◌}

abbrev ready_world : World
ready_world = world_in acme_challenge_ready

abbrev submitted : World
submitted = (submit_acme_challenge cert_manager 1 ready_world).1

submit_runs : submit_acme_challenge cert_manager 1 ready_world ≡ (ok tt, submitted)
unfolding submit_acme_challenge domain_repository certificate_repository one_row find
submit_runs = refl

submit_keeps_challenge_example :
    (d : Domain) × (row ready_world 1 ≡ some d)
    × (d.status ≡ acme_challenge_ready)
    × (d.acme_dns_verified ≡ true)
    × PutRow row 1 (issued_row d) ready_world submitted
submit_keeps_challenge_example =
    submit_keeps_challenge cert_manager row domain_laws cert_manager-KeepsDomains 1 ready_world
      submitted submit_runs

abbrev verified_world : World
verified_world = world_in dns_verified

abbrev requested : Result AcmeChallengeInfo × World
requested = request_acme_challenge cert_manager 1 verified_world

abbrev shown : AcmeChallengeInfo
shown = record {
  domain = codes "a.test";
  txt_record_name = codes "_acme-challenge.a.test";
  txt_record_value = codes "value";
  expires_at = 87400;
}

request_runs : requested ≡ (ok shown, requested.1)
unfolding request_acme_challenge domain_repository one_row find
request_runs = refl

request_stores_challenge_example :
    (d : Domain) × (challenge : DnsChallengeInfo) × (u v : World) × (row verified_world 1 ≡ some d)
    × (d.status ≡ dns_verified)
    × (obtain_challenge cert_manager d u ≡ (ok challenge, v))
    × (shown.txt_record_value ≡ challenge.txt_record)
    × (shown.expires_at ≡ v.time + 24 * 3600)
    × PutRow row 1
        (pending_row d challenge.token challenge.txt_record (v.time + 24 * 3600))
        verified_world
        requested.1
request_stores_challenge_example =
    request_stores_challenge cert_manager row domain_laws cert_manager-KeepsDomains 1 verified_world
      requested.1 shown request_runs

abbrev pending_world : World
pending_world = world_in pending_acme_challenge

abbrev checked : Result AcmeDnsVerificationResult × World
checked = verify_acme_dns cert_manager 1 pending_world

abbrev found : AcmeDnsVerificationResult
found = record {
  verified = true;
  expected_value = codes "value";
  found_values = codes "value" ∷ [];
  can_proceed = true;
}

verify_runs : checked ≡ (ok found, checked.1)
unfolding verify_acme_dns domain_repository one_row find
verify_runs = refl

verify_marks_ready_example :
    (d : Domain) × (row pending_world 1 ≡ some d)
    × (is_empty d.acme_challenge_token ≡ false)
    × (is_empty d.acme_challenge_value ≡ false)
    × (mem d.acme_challenge_value found.found_values ≡ true)
    × PutRow row 1 (ready d) pending_world checked.1
verify_marks_ready_example =
    verify_marks_ready cert_manager row domain_laws cert_manager-KeepsDomains 1 pending_world
      checked.1 found verify_runs refl

abbrev generated : Result DomainCertificate × World
generated = generate_certificate cert_manager (domain_in acme_challenge_ready) ready_world

abbrev certificate : DomainCertificate
certificate = record {
  id = 0;
  domain_id = 1;
  domain_name = codes "a.test";
  cert_path = codes "cert.pem";
  key_path = codes "key.pem";
  expires_at = 7776000;
  issued_at = 1000;
  auto_renew = true;
}

generate_runs : generated ≡ (ok certificate, generated.1)
unfolding generate_certificate domain_repository certificate_repository one_row find
generate_runs = refl

generate_clears_challenge_example :
    ((domain_in acme_challenge_ready).status ≡ acme_challenge_ready)
    × ((domain_in acme_challenge_ready).acme_dns_verified ≡ true)
    × (is_empty (domain_in acme_challenge_ready).acme_challenge_token ≡ false)
    × (is_empty (domain_in acme_challenge_ready).acme_challenge_value ≡ false)
    × (v u : World) × (issue_certificate cert_manager (domain_in acme_challenge_ready) v
        ≡ (ok certificate, u))
    × Issued cert_manager row domain_laws domain_laws cert_manager-KeepsDomains 1 u generated.1
generate_clears_challenge_example =
    generate_clears_challenge cert_manager row domain_laws domain_laws cert_manager-KeepsDomains
      (domain_in acme_challenge_ready) ready_world generated.1 certificate generate_runs

acme_flow_isolated_example :
    (row (clear_acme_challenge cert_manager 1 ready_world).1 2 ≡ row ready_world 2)
    × (row (request_acme_challenge cert_manager 1 ready_world).1 2 ≡ row ready_world 2)
    × (row (verify_acme_dns cert_manager 1 ready_world).1 2 ≡ row ready_world 2)
    × (row (get_acme_status cert_manager 1 ready_world).1 2 ≡ row ready_world 2)
    × (row (submit_acme_challenge cert_manager 1 ready_world).1 2 ≡ row ready_world 2)
acme_flow_isolated_example =
    acme_flow_isolated cert_manager row domain_laws cert_manager-KeepsDomains 1 ready_world 2 refl
