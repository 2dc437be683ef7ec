-- ===== src/Services/Renewal.antt =====
-- internal/services/cert_renewal.go: one round of renewals, and the background job that runs them.
-- Log calls are left out.
pub mod Rounds
pub mod Lifecycle
use webrana_infinimail_backe.Models.{DomainCertificate}
use webrana_infinimail_backe.Websocket.Sets.{member}
use webrana_infinimail_backe.Services.CertManager.Records.{
  renew_certificate, get_expiring_certificates,
}
use webrana_infinimail_backe.Services.CertManager.{CertManager}
use webrana_infinimail_backe.Effect.{ok, err, Result, Action, ignore, pure, attempt, ◌>>◌, ◌>>=◌}
use webrana_infinimail_backe.Prelude.{
  zero, suc, [], true, false, none, some, ◌∷◌, List, ℕ, Bool, Option, if◌then◌else◌, ◌==◌, ◌++◌,
}

-- `CertRenewalService`, over the certificate manager
pub record Renewal (W : Type 0) : Type 0 where
  pub cert_manager : CertManager W
  pub renewal_days : ℕ

-- the defaults of `NewCertRenewalService`
unfoldable pub new_renewal : {W : Type 0} → CertManager W → ℕ → Renewal W
new_renewal manager days = record {
  cert_manager = manager;
  renewal_days = if days == 0 then 30 else days;
}

module _ {W : Type 0} (s : Renewal W) where
  -- `renewCertificate`; an error is logged and dropped
  unfoldable pub renew_one : DomainCertificate → Action W (Unit {0})
  unfolding renew_certificate
  renew_one cert = ignore (renew_certificate s.cert_manager cert.domain_id)

  unfoldable pub renew_each : List DomainCertificate → Action W (Unit {0})
  unfolding renew_one
  renew_each [] = pure tt
  renew_each (cert ∷ certs) =
      (if cert.auto_renew then renew_one cert else pure tt) >> renew_each certs

  unfoldable pub renew_found : Result (List DomainCertificate) → Action W (Unit {0})
  unfolding renew_each
  renew_found (err e) = pure tt
  renew_found (ok certs) = renew_each certs

  -- `checkAndRenewCertificates`
  unfoldable pub check_and_renew_certificates : Action W (Unit {0})
  unfolding get_expiring_certificates renew_found
  check_and_renew_certificates =
      attempt (get_expiring_certificates s.cert_manager s.renewal_days) >>= renew_found

-- A goroutine of `renewalLoop`: in a round, or in its select on a stop channel and the ticker. A
-- round of `ForceCheck` ends by itself and is no loop.
pub data LoopState : Type 0 where
  in_round : LoopState
  selecting : ℕ → LoopState

-- The job: `stopCh` is the channel with the number `channel`.
pub record Job : Type 0 where
  pub running : Bool
  pub channel : ℕ
  pub closed : List ℕ
  pub loops : List LoopState

-- The critical sections of `Start` and `Stop`, and the steps of the loop with the given index: to
-- the select, to a round when the ticker fires, and out when its channel is closed. Start's unlock
-- and its `go` are taken as one step, and Stop's wait for the loops is not one.
pub data JobEvent : Type 0 where
  start stop : JobEvent
  reach_select fire leave_loop : ℕ → JobEvent

unfoldable pub new_job : Job
new_job = record { running = false; channel = 0; closed = []; loops = [] }

-- The select looks at the field `stopCh` when it is reached.
unfoldable pub to_select : ℕ → LoopState → LoopState
to_select channel in_round = selecting channel
to_select channel (selecting c) = selecting c

unfoldable pub to_round : LoopState → LoopState
to_round l = in_round

unfoldable pub change_loop : (LoopState → LoopState) → ℕ → List LoopState → List LoopState
change_loop f i [] = []
change_loop f zero (l ∷ ls) = f l ∷ ls
change_loop f (suc i) (l ∷ ls) = l ∷ change_loop f i ls

unfoldable pub is_stopped : List ℕ → LoopState → Bool
unfolding member
is_stopped closed in_round = false
is_stopped closed (selecting c) = member c closed

unfoldable pub remove_stopped : List ℕ → ℕ → List LoopState → List LoopState
unfolding is_stopped
remove_stopped closed i [] = []
remove_stopped closed zero (l ∷ ls) = if is_stopped closed l then ls else l ∷ ls
remove_stopped closed (suc i) (l ∷ ls) = l ∷ remove_stopped closed i ls

-- `close(s.stopCh)`, which panics on a closed channel
unfoldable pub close_stop_channel : Job → Option Job
unfolding member
close_stop_channel j =
    if member j.channel j.closed
    then none
    else some (record j { running = false; closed = j.channel ∷ j.closed })

unfoldable pub job_step : JobEvent → Job → Option Job
unfolding close_stop_channel change_loop to_select to_round remove_stopped
job_step start j = some (
    if j.running
    then j
    else record j { running = true; channel = suc j.channel; loops = j.loops ++ in_round ∷ [] })
job_step stop j = if j.running then close_stop_channel j else some j
job_step (reach_select i) j =
    some (record j { loops = change_loop (to_select j.channel) i j.loops })
job_step (fire i) j = some (record j { loops = change_loop to_round i j.loops })
job_step (leave_loop i) j = some (record j { loops = remove_stopped j.closed i j.loops })

unfoldable pub continue_with : (Job → Option Job) → Option Job → Option Job
continue_with rest none = none
continue_with rest (some j) = rest j

unfoldable pub job_run : List JobEvent → Job → Option Job
unfolding job_step continue_with
job_run [] j = some j
job_run (e ∷ es) j = continue_with (job_run es) (job_step e j)

-- `ForceCheck`: the round that it starts, if it starts one
unfoldable pub force_check : {W : Type 0} → Renewal W → Job → Action W (Unit {0})
unfolding check_and_renew_certificates
force_check s j = if j.running then check_and_renew_certificates s else pure tt
