-- ===== src/Services/CertManager/Submission.antt =====
-- What a successful `SubmitACMEChallenge` leaves in the database.
use webrana_infinimail_backe.Services.{mark_success}
use webrana_infinimail_backe.Services.CertManager.Isolation.{prepare-OtherRows}
use webrana_infinimail_backe.Effect.Ensures.{
  Ensures, Ensures-guard, Ensures-weaken, Ensures-keeps, Ensures-then,
}
use webrana_infinimail_backe.Services.CertManager.Submit.{
  publish_certificate, submit_acme_challenge, issued,
}
use webrana_infinimail_backe.Services.CertManager.Frames.{
  KeepsDomains, Ensures-update, Ensures-get, reload-same, logged-same,
}
use webrana_infinimail_backe.Repository.Laws.{
  RowLaws, PutRow, SameRows-PutRow, PutRow-SameRows, OtherRows-PutRow,
}
use webrana_infinimail_backe.Models.{
  Domain, acme_challenge_ready, status_eq_sound, certificate_issued,
}
use webrana_infinimail_backe.Services.CertManager.{CertManager}
use webrana_infinimail_backe.Effect.{ok}
use webrana_infinimail_backe.Prelude.{true, some, ℕ, Option, ◌≡◌, sym, []}

-- the row that keeps its challenge, field by field
abbrev pub issued_row : Domain → Domain
issued_row d = record {
  id = d.id;
  name = d.name;
  is_active = d.is_active;
  status = certificate_issued;
  dns_challenge = d.dns_challenge;
  error_message = [];
  acme_challenge_token = d.acme_challenge_token;
  acme_challenge_value = d.acme_challenge_value;
  acme_challenge_expires_at = d.acme_challenge_expires_at;
  acme_dns_verified = d.acme_dns_verified;
}

module _ {W : Type 0} (s : CertManager W) (row : W → ℕ → Option Domain)
    (laws : RowLaws (λ (d : Domain). d.id) row s.domains.get_by_id s.domains.update)
    (k : KeepsDomains s row) (i : ℕ) where
  publish-PutRow :
      (d : Domain) (w : W)
      → d.id ≡ i
      → Ensures (publish_certificate s d) w (λ _ w'. PutRow row i (issued d) w w')
  unfolding publish_certificate
  publish-PutRow d w keyed =
      Ensures-update s row laws i (issued d) "failed to update domain status to certificate_issued"
        _ w _ keyed
        λ v put. Ensures-then _ _ v _ (reload-same s row k d.name) λ u reloaded.
          Ensures-weaken _ u _ _ (Ensures-keeps _ u (logged-same s row k (mark_success d.name)))
            λ _ x logged.
              PutRow-SameRows row w u x i (issued d)
                (PutRow-SameRows row w v u i (issued d) put reloaded) logged

  -- When `SubmitACMEChallenge` returns no error, the domain's row had the status
  -- `acme_challenge_ready` and `acme_dns_verified` set, and its row is afterwards that same row with
  -- the status `certificate_issued` and no error message: the challenge's token, value and expiry
  -- and `acme_dns_verified` are what they were, although `ClearACMEChallenge` was called before the
  -- last update. No other row has changed.
  pub submit_keeps_challenge :
      (w w' : W)
      → submit_acme_challenge s i w ≡ (ok tt, w')
      → (d : Domain) × (row w i ≡ some d)
        × (d.status ≡ acme_challenge_ready)
        × (d.acme_dns_verified ≡ true)
        × PutRow row i (issued_row d) w w'
  unfolding submit_acme_challenge
  submit_keeps_challenge w w' = (outcome w).at tt w'
    where
      outcome :
          (w : W)
          → Ensures (submit_acme_challenge s i) w λ _ w'.
            (d : Domain) × (row w i ≡ some d)
            × (d.status ≡ acme_challenge_ready)
            × (d.acme_dns_verified ≡ true)
            × PutRow row i (issued_row d) w w'
      outcome w = Ensures-get s row laws i "failed to get domain" _ w _ λ d v found keyed same.
          Ensures-guard _ _ _ v _ λ ready. Ensures-guard _ _ _ v _ λ verified.
            Ensures-then _ _ v _ (prepare-OtherRows s row laws k i d keyed) λ u kept.
              Ensures-weaken _ u _ _ (publish-PutRow d u keyed) λ _ x put. (
                d,
                found,
                sym (status_eq_sound _ _ ready),
                verified,
                SameRows-PutRow row w v x i (issued d) same
                    (OtherRows-PutRow row v u x i (issued d) kept put),
              )
