-- ===== src/Tests/Api.antt =====
-- The HTTP handlers over the small world.

use webrana_infinimail_backe.Api.Setup.Retries.{Reset, retry_handler-Reset}
use webrana_infinimail_backe.Api.Setup.Unreachable.{generate_certificate_handler-unreachable}
use webrana_infinimail_backe.Api.Setup.Evidence.{verify_dns_handler-Outcome}
use webrana_infinimail_backe.Models.{Domain, pending_dns, failed, dns_verified}
use webrana_infinimail_backe.Text.{codes}
use webrana_infinimail_backe.Api.{is_success, Response, reply, panicked, file_reply}
use webrana_infinimail_backe.Api.Setup.{
  verify_dns_handler, generate_certificate_handler, retry_handler,
}
use webrana_infinimail_backe.Api.Setup.Outcomes.{Outcome}
use webrana_infinimail_backe.Tests.World.{
  World, row, world_in, domain_laws, domain_in, domain_manager, cert_manager,
}
use webrana_infinimail_backe.Services.DnsVerifier.Frames.{KeepsAsking}
use webrana_infinimail_backe.Repository.Laws.{RowLaws, SameRows}
use webrana_infinimail_backe.Api.Domains.{DomainHandler}
use webrana_infinimail_backe.Services.DnsVerifier.{DnsVerifier}
use webrana_infinimail_backe.Effect.{ok}
use webrana_infinimail_backe.Prelude.{[], false, none, some, refl, ◌∷◌, ℕ, ◌≡◌, ◌⊎◌}

abbrev resolver_in_world : DnsVerifier World
resolver_in_world = record {
  resolver = record {
    lookup_mx = λ name w. (ok (codes "mx.infinimail.test." ∷ []), w);
    lookup_host = λ name w. (ok (codes "192.0.2.1" ∷ []), w);
    lookup_txt = λ name w. (ok (codes "infinimail-verify=ab07" ∷ []), w);
  };
  smtp_hostname = codes "mx.infinimail.test";
  server_ip = codes "192.0.2.1";
  max_retries = 0;
  cancelled = λ w. none;
  wait = λ w. (ok tt, w);
}

abbrev handler : DomainHandler World
handler = record {
  repo = domain_manager.repo;
  domain_manager = some domain_manager;
  dns_verifier = some resolver_in_world;
  dns_exporter = none;
  cert_manager = some cert_manager;
}

manager_laws :
    RowLaws (λ (d : Domain). d.id) row domain_manager.repo.get_by_id domain_manager.repo.update
manager_laws = domain_laws

asking : KeepsAsking resolver_in_world (SameRows row)
asking = record {
  mx = λ name. record { at = λ w j. refl };
  host = λ name. record { at = λ w j. refl };
  txt = λ name. record { at = λ w j. refl };
  waiting = record { at = λ w j. refl };
}

abbrev pending_world : World
pending_world = world_in pending_dns

verify_dns_handler-Outcome_example :
    Outcome resolver_in_world row pending_world
      (verify_dns_handler handler (codes "1") pending_world).1
verify_dns_handler-Outcome_example =
    verify_dns_handler-Outcome handler domain_manager resolver_in_world row manager_laws
      manager_laws asking (record { at = λ w j. refl }) refl refl (codes "1") pending_world

-- the row is marked as verified
marked_as_verified :
    row (verify_dns_handler handler (codes "1") pending_world).1 1
    ≡ some (record (domain_in pending_dns) { status = dns_verified })
unfolding verify_dns_handler webrana_infinimail_backe.Tests.World.find
    webrana_infinimail_backe.Repository.Domains.domain_repository
    webrana_infinimail_backe.Tests.World.one_row webrana_infinimail_backe.Text.bytes_eq
marked_as_verified = refl

retry_handler-Reset_example :
    SameRows row
      (world_in failed)
      (retry_handler handler (codes "1") (codes "dns_verified") (world_in failed)).1
    ⊎ Reset row
        (world_in failed)
        (retry_handler handler (codes "1") (codes "dns_verified") (world_in failed)).1
retry_handler-Reset_example =
    retry_handler-Reset handler domain_manager row manager_laws manager_laws refl (codes "1")
      (codes "dns_verified") (world_in failed)

generate_certificate_handler-unreachable_example :
    is_success (generate_certificate_handler handler (codes "1") (world_in dns_verified)).0 ≡ false
generate_certificate_handler-unreachable_example =
    generate_certificate_handler-unreachable handler (codes "1") (world_in dns_verified)

code_of : Response → ℕ
code_of (reply status body) = status
code_of (file_reply a content) = 200
code_of panicked = 0

-- a verified domain is refused with the status 500
refused_with_500 :
    code_of (generate_certificate_handler handler (codes "1") (world_in dns_verified)).0 ≡ 500
unfolding generate_certificate_handler code_of
    webrana_infinimail_backe.Repository.Domains.domain_repository
    webrana_infinimail_backe.Tests.World.one_row webrana_infinimail_backe.Tests.World.find
refused_with_500 = refl
