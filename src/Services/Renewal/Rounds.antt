-- ===== src/Services/Renewal/Rounds.antt =====
-- One round of internal/services/cert_renewal.go.

use webrana_infinimail_backe.Services.CertManager.Records.{
  renew_certificate, get_expiring_certificates,
}
use webrana_infinimail_backe.Models.{DomainCertificate}
use webrana_infinimail_backe.Services.Renewal.{
  Renewal, renew_each, renew_one, renew_found, check_and_renew_certificates,
}
use webrana_infinimail_backe.Effect.{ok, pure, ◌>>◌, err, Result, attempt, ◌>>=◌}
use webrana_infinimail_backe.Prelude.{
  [], inl, inr, refl, ◌∷◌, List, if◌then◌else◌, ◌≡◌, Bool-cases, subst, sym,
}

abbrev with_auto_renew : List DomainCertificate → List DomainCertificate
with_auto_renew [] = []
with_auto_renew (c ∷ cs) = if c.auto_renew then c ∷ with_auto_renew cs else with_auto_renew cs

module _ {W : Type 0} (s : Renewal W) where
  -- The world after each of the certificates has been renewed, in order, whatever the others gave.
  unfoldable pub after_renewals : List DomainCertificate → W → W
  after_renewals [] w = w
  after_renewals (c ∷ cs) w = after_renewals cs (renew_certificate s.cert_manager c.domain_id w).1

  renew_each-after :
      (cs : List DomainCertificate) (w : W)
      → renew_each s cs w ≡ (ok tt, after_renewals (with_auto_renew cs) w)
  unfolding renew_each renew_one after_renewals
  renew_each-after [] w = refl
  renew_each-after (c ∷ cs) w = elim (Bool-cases c.auto_renew) [
    | inl on ↦
        subst
          (λ b.
            ((if b then renew_one s c else pure tt) >> renew_each s cs) w
            ≡ (ok tt, after_renewals (if b then c ∷ with_auto_renew cs else with_auto_renew cs) w))
          (sym on) (renew_each-after cs (renew_certificate s.cert_manager c.domain_id w).1)
    | inr off ↦
        subst
          (λ b.
            ((if b then renew_one s c else pure tt) >> renew_each s cs) w
            ≡ (ok tt, after_renewals (if b then c ∷ with_auto_renew cs else with_auto_renew cs) w))
          (sym off) (renew_each-after cs w)
  ]

  -- What a round leaves of what the listing gave.
  unfoldable pub round_after : Result (List DomainCertificate) × W → W
  unfolding after_renewals
  round_after (err e, w) = w
  round_after (ok cs, w) = after_renewals (with_auto_renew cs) w

  renew_found-after :
      (r : Result (List DomainCertificate) × W) (w : W)
      → (attempt (λ _. r) >>= renew_found s) w ≡ (ok tt, round_after r)
  unfolding renew_found round_after
  renew_found-after (err e, v) w = refl
  renew_found-after (ok cs, v) w = renew_each-after cs v

  -- A round always ends well. When the listing of the expiring certificates fails, it does nothing
  -- else; otherwise every listed certificate with auto-renew is renewed, in the order of the
  -- listing, whatever the renewals of the others gave.
  pub check_and_renew-after :
      (w : W)
      → check_and_renew_certificates s w
        ≡ (ok tt, round_after (get_expiring_certificates s.cert_manager s.renewal_days w))
  unfolding check_and_renew_certificates renew_found round_after
  check_and_renew-after w =
      renew_found-after (get_expiring_certificates s.cert_manager s.renewal_days w) w
