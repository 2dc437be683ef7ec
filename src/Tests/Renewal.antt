-- ===== src/Tests/Renewal.antt =====
-- A round over the certificates of a world, and a job that is stopped and started again.

use webrana_infinimail_backe.Services.CertManager.Records.{get_expiring_certificates}
use webrana_infinimail_backe.Websocket.Sets.{member}
use webrana_infinimail_backe.Services.Renewal.Rounds.{round_after, check_and_renew-after}
use webrana_infinimail_backe.Text.{codes}
use webrana_infinimail_backe.Models.{DomainCertificate}
use webrana_infinimail_backe.Services.Renewal.Lifecycle.{early_starts, job_run-safe}
use webrana_infinimail_backe.Tests.World.{World, cert_manager}
use webrana_infinimail_backe.Services.Renewal.{
  new_renewal, check_and_renew_certificates, Job, job_run, Renewal, JobEvent, new_job, start,
  selecting, reach_select, stop, leave_loop, fire,
}
use webrana_infinimail_backe.Effect.{ok}
use webrana_infinimail_backe.Prelude.{
  [], true, false, some, refl, ◌∷◌, ℕ, List, Bool, ◌≡◌, length, ◌≤◌, ◌+◌,
}

abbrev renewal : Renewal World
unfolding new_renewal
renewal = new_renewal cert_manager 0

abbrev a_certificate : ℕ → Bool → DomainCertificate
a_certificate i renews = record {
  id = i;
  domain_id = i;
  domain_name = codes "a.test";
  cert_path = codes "cert.pem";
  key_path = codes "key.pem";
  expires_at = 86400;
  issued_at = 0;
  auto_renew = renews;
}

abbrev two_certificates : List DomainCertificate
two_certificates = a_certificate 1 true ∷ a_certificate 2 false ∷ []

abbrev holding : World
holding = record { domains = []; certificates = two_certificates; time = 0; log = [] }

check_and_renew-after_example :
    check_and_renew_certificates renewal holding
    ≡ (ok tt, round_after renewal (get_expiring_certificates cert_manager 30 holding))
unfolding renewal
check_and_renew-after_example = check_and_renew-after renewal holding

abbrev restarted_in_order : List JobEvent
restarted_in_order =
    start ∷ reach_select 0 ∷ stop ∷ leave_loop 0 ∷ start ∷ reach_select 0 ∷ fire 0 ∷ []

abbrev restarted_in_a_round : List JobEvent
restarted_in_a_round = start ∷ stop ∷ start ∷ reach_select 0 ∷ reach_select 1 ∷ []

job_run-safe_example :
    (j : Job) × (job_run restarted_in_order new_job ≡ some j)
    × (j.running ≡ true → member j.channel j.closed ≡ false)
    × (length j.loops ≤ 1 + early_starts restarted_in_order new_job)
job_run-safe_example = job_run-safe restarted_in_order

not_early : early_starts restarted_in_order new_job ≡ 0
unfolding early_starts new_job webrana_infinimail_backe.Services.Renewal.job_step
not_early = refl

-- Both loops wait on the new channel.
two_loops :
    job_run restarted_in_a_round new_job
    ≡ some (record {
      running = true;
      channel = 2;
      closed = 1 ∷ [];
      loops = selecting 2 ∷ selecting 2 ∷ [];
    })
unfolding job_run new_job
two_loops = refl
