-- ===== src/Api/Setup/Retries.antt =====
-- The changes of status that `Retry` of internal/api/handlers/domain_handler.go makes.
use webrana_infinimail_backe.Api.Setup.Rows.{status-written}
use webrana_infinimail_backe.Text.Decimal.{parse_uint32}
use webrana_infinimail_backe.Effect.{Err}
use webrana_infinimail_backe.Api.{Response, calling, with_id, given, internal_error}
use webrana_infinimail_backe.Repository.Laws.{RowLaws, PutRow, SameRows, get_cases, SameRows-PutRow}
use webrana_infinimail_backe.Text.{Bytes, codes, bytes_eq}
use webrana_infinimail_backe.Services.DomainManager.{DomainManager, with_status, update_status}
use webrana_infinimail_backe.Api.Domains.{DomainHandler, find_domain}
use webrana_infinimail_backe.Api.Setup.{
  unknown_status, retry_plan, RetryPlan, retry_failed, reset_to, answer_at_once, other,
  answer_reloaded, follow_plan, retry_handler, certificate_trouble,
}
use webrana_infinimail_backe.Models.{
  DomainStatus, failed, pending_dns, Domain, dns_verified, pending_acme_challenge,
  pending_certificate, acme_challenge_ready, certificate_issued, active,
}
use webrana_infinimail_backe.Prelude.{
  [], some, inl, inr, refl, ◌∷◌, ℕ, Option, ◌≡◌, ◌⊎◌, ◌∙◌, sym, subst, Option-cases, Bool-cases,
}

-- From the status of a domain to the one that a retry may give it.
pub data RetryStep : DomainStatus → DomainStatus → Type 0 where
  redo_dns : RetryStep failed pending_dns
  redo_certificate : RetryStep failed dns_verified
  redo_challenge : RetryStep failed pending_acme_challenge
  stay_pending : RetryStep pending_dns pending_dns
  new_challenge : RetryStep pending_acme_challenge dns_verified
  restart_certificate : RetryStep pending_certificate dns_verified
  adopt_legacy : RetryStep (other []) pending_dns

-- What a plan may do to a domain of status `s`.
abbrev Allowed : DomainStatus → RetryPlan → Type 0
Allowed s (reset_to t text) = RetryStep s t
Allowed s (answer_at_once text) = Unit
Allowed s unknown_status = Unit

retry_failed-Allowed : (wish text : Bytes) → Allowed failed (retry_failed wish text)
unfolding retry_failed
retry_failed-Allowed wish text = elim (Bool-cases (bytes_eq wish (codes "dns_verified"))) [
  | inl a ↦ rw a redo_certificate
  | inr a ↦ rw a (elim (Bool-cases (bytes_eq wish (codes "pending_dns"))) [
    | inl b ↦ rw b redo_dns
    | inr b ↦ rw b (elim (Bool-cases (bytes_eq wish (codes "pending_acme_challenge"))) [
      | inl c ↦ rw c redo_challenge
      | inr c ↦ rw c (elim (Bool-cases (certificate_trouble text)) [
        | inl d ↦ rw d redo_certificate
        | inr d ↦ rw d redo_dns
      ])
    ])
  ])
]

retry_plan-Allowed : (s : DomainStatus) (wish text : Bytes) → Allowed s (retry_plan s wish text)
unfolding retry_plan
retry_plan-Allowed failed wish text = retry_failed-Allowed wish text
retry_plan-Allowed pending_dns wish text = stay_pending
retry_plan-Allowed dns_verified wish text = tt
retry_plan-Allowed pending_acme_challenge wish text = new_challenge
retry_plan-Allowed acme_challenge_ready wish text = tt
retry_plan-Allowed pending_certificate wish text = restart_certificate
retry_plan-Allowed certificate_issued wish text = tt
retry_plan-Allowed active wish text = tt
retry_plan-Allowed (other []) wish text = adopt_legacy
retry_plan-Allowed (other (c ∷ s)) wish text = tt

-- A domain whose row `Retry` has written, with its new status.
pub record Reset {W : Type 0} (row : W → ℕ → Option Domain) (u v : W) : Type 0 where
  pub id : ℕ
  pub before : Domain
  pub status : DomainStatus
  pub found : row u id ≡ some before
  pub allowed : RetryStep before.status status
  pub written : PutRow row id (with_status before status []) u v

module _ {W : Type 0} (h : DomainHandler W) (manager : DomainManager W)
    (row : W → ℕ → Option Domain)
    (reads_laws : RowLaws (λ (d : Domain). d.id) row h.repo.get_by_id h.repo.update)
    (manager_laws : RowLaws
      (λ (d : Domain). d.id)
      row
      manager.repo.get_by_id
      manager.repo.update) where
  reload_same :
      (i : ℕ) (f : Option Domain → Response) (w : W) → SameRows row w (answer_reloaded h i f w).1
  unfolding answer_reloaded
  reload_same i f w = elim (get_cases reads_laws w i) [
    | inl (d, v, p, found, keyed, same) ↦ rw p same
    | inr (e, v, p, same) ↦ rw p same
  ]

  updated-rows :
      (i : ℕ) (d : Domain) (t : DomainStatus) (f : Option Domain → Response) (g : Err → Response)
      (w : W)
      → row w i ≡ some d
      → RetryStep d.status t
      → SameRows row w (calling (update_status manager i t []) g (λ _. answer_reloaded h i f) w).1
        ⊎ Reset row w (calling (update_status manager i t []) g (λ _. answer_reloaded h i f) w).1
  updated-rows i d t f g w found allowed =
      elim (status-written manager row manager_laws i d t g (answer_reloaded h i f) w
        (reload_same i f) found) [
          | inl same ↦ inl same
          | inr put ↦ inr (record {
            id = i;
            before = d;
            status = t;
            found = found;
            allowed = allowed;
            written = put;
          })
        ]

  follow-rows :
      (i : ℕ) (d : Domain) (plan : RetryPlan) (w : W)
      → row w i ≡ some d
      → Allowed d.status plan
      → SameRows row w (follow_plan h manager i d plan w).1
        ⊎ Reset row w (follow_plan h manager i d plan w).1
  unfolding follow_plan
  follow-rows i d (reset_to t text) w found allowed = updated-rows i d t _ _ w found allowed
  follow-rows i d (answer_at_once text) w found allowed = inl (λ j. refl)
  follow-rows i d unknown_status w found allowed = inl (λ j. refl)

  -- The same after the row was read.
  Reset-after :
      (u v w : W)
      → SameRows row u v
      → SameRows row v w ⊎ Reset row v w
      → SameRows row u w ⊎ Reset row u w
  Reset-after u v w same (inl kept) = inl (λ j. kept j ∙ same j)
  Reset-after u v w same (inr r) = inr (record {
    id = r.id;
    before = r.before;
    status = r.status;
    found = sym (same r.id) ∙ r.found;
    allowed = r.allowed;
    written = SameRows-PutRow row u v w r.id (with_status r.before r.status []) same r.written;
  })

  -- If the two repositories read and write the same rows as gorm documents, `Retry`
  -- leaves every row as it was, or it writes the row of one domain, and no other, with a new
  -- status and without an error message, and the new status follows from the old one: a failed
  -- domain goes back to `pending_dns`, `dns_verified` or `pending_acme_challenge`, one that waits
  -- for a challenge or a certificate to `dns_verified`, one that waits for DNS stays so, and one
  -- without a status goes to `pending_dns`.
  -- So a domain that is verified, ready, issued or active is never changed.
  pub retry_handler-Reset :
      h.domain_manager ≡ some manager
      → (param wish : Bytes) (w : W)
      → SameRows row w (retry_handler h param wish w).1
        ⊎ Reset row w (retry_handler h param wish w).1
  unfolding retry_handler with_id find_domain
  retry_handler-Reset configured param wish w =
      subst (λ o. SameRows row w (go o).1 ⊎ Reset row w (go o).1) (sym configured)
        (elim (Option-cases (parse_uint32 param)) [
          | inl e ↦ rw e (inl (λ j. refl))
          | inr (i, e) ↦ rw e (elim (get_cases reads_laws w i) [
            | inl (d, v, p, found, keyed, same) ↦ rw p (
                Reset-after w v _ same (
                  follow-rows i d (retry_plan d.status wish d.error_message) v (same i ∙ found)
                    (retry_plan-Allowed d.status wish d.error_message)))
            | inr (e, v, p, same) ↦ rw p (inl same)
          ])
        ])
    where
      go : Option (DomainManager W) → Response × W
      go o =
          given o (internal_error (codes "domain manager not configured"))
            (λ manager. with_id param λ i.
              find_domain h i
                λ d. follow_plan h manager i d (retry_plan d.status wish d.error_message))
            w
