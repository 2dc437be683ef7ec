-- ===== src/Services/Acme/Restart.antt =====
-- `SubmitACMEChallenge` of internal/services/certificate_manager.go when the client of
-- internal/services/acme_client.go does not hold the challenge, as after a restart.
use webrana_infinimail_backe.Services.Acme.Orders.{complete_without_challenge}
use webrana_infinimail_backe.Effect.Ensures.{
  Ensures, Ensures-skip, Ensures-guard, Ensures-bind, Ensures-weaken,
}
use webrana_infinimail_backe.Services.{LogCall, log_info}
use webrana_infinimail_backe.Services.CertManager.Submit.{
  prepare_submission, fail_submission, submit_acme_challenge, publish_certificate,
}
use webrana_infinimail_backe.Dict.{get}
use webrana_infinimail_backe.Effect.{Action, IsErr, or_wrap, Err, err, Result}
use webrana_infinimail_backe.Models.{Domain, pending_certificate, status_eq, acme_challenge_ready}
use webrana_infinimail_backe.Effect.Rules.{Keeps, IsPreorder, outcome_cases, Keeps-or_else}
use webrana_infinimail_backe.Text.{Bytes}
use webrana_infinimail_backe.Services.CertManager.{CertManager}
use webrana_infinimail_backe.Services.Acme.{Client, AcmeLibrary, acme_client}
use webrana_infinimail_backe.Prelude.{none, refl, ◌≡◌, ℕ, ◌∙◌, inl, inr, ap, subst}

-- The client's challenges are the same.
abbrev pub SameChallenges : {W : Type 0} → Client W → Client W → Type 0
SameChallenges u v = v.active_challenges ≡ u.active_challenges

-- The database and the log leave the client's challenges alone.
pub record KeepsChallenges {W : Type 0} (s : CertManager (Client W)) : Type 0 where
  pub get_by_id : (i : ℕ) → Keeps SameChallenges (s.domains.get_by_id i)
  pub update : (d : Domain) → Keeps SameChallenges (s.domains.update d)
  pub log : (call : LogCall) (c : Client W) → SameChallenges c (s.log call c)

module _ {W : Type 0} (lib : AcmeLibrary W) (email : Bytes) (s : CertManager (Client W))
    (uses : s.acme ≡ acme_client lib email) (k : KeepsChallenges s) where
  preorder : IsPreorder (SameChallenges {W = W})
  preorder = record { reflexive = λ c. refl; transitive = λ u v c p q. q ∙ p }

  -- no outcome is a success
  abbrev Fails : {A : Type 0} → Action (Client W) A → Client W → Type 0
  Fails m c = Ensures m c (λ a c'. ⊥)

  complete-err :
      (name : Bytes) (c : Client W)
      → get name c.active_challenges ≡ none
      → (e : Err) × (s.acme.complete_dns_challenge name c ≡ (err e, c))
  complete-err name c absent =
      let (e, p) = complete_without_challenge lib email name c absent in (e, rw uses (rw p refl))

  prepare-Fails :
      (i : ℕ) (d : Domain) (c : Client W)
      → get d.name c.active_challenges ≡ none
      → Fails (prepare_submission s i d) c
  unfolding prepare_submission fail_submission
  prepare-Fails i d c absent =
      let u : Client W = s.log (log_info d.name "submit_challenge") c in
      let pending : Domain = record d { status = pending_certificate } in
      record {
        at = λ a c' h. elim (outcome_cases (s.domains.update pending) u) [
          | inr (e, t, p) ↦ cc (rw p at h)
          | inl (x, t, p) ↦
              let same : t.active_challenges ≡ u.active_challenges =
                subst (λ (o : Result (Unit {0}) × Client W). SameChallenges u o.1) p
                  ((k.update pending).at u) in
              let none_left : get d.name t.active_challenges ≡ none =
                ap (get d.name) (same ∙ k.log _ c) ∙ absent in
              let (e, q) = complete-err d.name t none_left in cc (rw (p, q) at h)
        ];
      }

  submit-Fails :
      (i : ℕ) (c : Client W)
      → ((name : Bytes) → get name c.active_challenges ≡ none)
      → Fails (submit_acme_challenge s i) c
  unfolding submit_acme_challenge
  submit-Fails i c absent =
      Ensures-skip (or_wrap (s.domains.get_by_id i) "failed to get domain") _ c (λ a t. ⊥)
        (Keeps-or_else preorder (s.domains.get_by_id i) _ (k.get_by_id i))
        λ d u same.
          Ensures-guard (status_eq acme_challenge_ready d.status) _ _ u (λ a t. ⊥)
            λ ready.
              Ensures-guard d.acme_dns_verified _ _ u (λ a t. ⊥)
                λ verified.
                  Ensures-bind (prepare_submission s i d) (λ x. publish_certificate s d) u
                    (λ a t. ⊥)
                    (Ensures-weaken (prepare_submission s i d) u (λ a t. ⊥)
                      (λ a t. Ensures (publish_certificate s d) t (λ b v. ⊥))
                      (prepare-Fails i d u (ap (get d.name) same ∙ absent d.name))
                      (λ a t bad. elim bad [ ]))

  -- While the client holds no challenge, as after a restart of the process, `SubmitACMEChallenge`
  -- returns an error for every domain, whatever challenge is stored in the database.
  pub submit_after_restart-IsErr :
      (i : ℕ) (c : Client W)
      → ((name : Bytes) → get name c.active_challenges ≡ none)
      → IsErr (submit_acme_challenge s i c).0
  submit_after_restart-IsErr i c absent = elim (outcome_cases (submit_acme_challenge s i) c) [
    | inl (u, t, p) ↦ absurd ((submit-Fails i c absent).at u t p)
    | inr (e, t, p) ↦ rw p tt
  ]
