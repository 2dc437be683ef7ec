-- ===== src/Api/Setup/Unreachable.antt =====
-- `GenerateCertificate` of internal/api/handlers/domain_handler.go and the service of the same
-- name ask for two different statuses.
use webrana_infinimail_backe.Services.{start_domain_log}
use webrana_infinimail_backe.Text.Decimal.{parse_uint32}
use webrana_infinimail_backe.Text.{Bytes, contains, codes}
use webrana_infinimail_backe.Effect.Rules.{outcome_cases, bind_case}
use webrana_infinimail_backe.Api.Domains.{find_domain, DomainHandler}
use webrana_infinimail_backe.Services.CertManager.{CertManager}
use webrana_infinimail_backe.Models.{
  status_eq, DomainStatus, dns_verified, Domain, acme_challenge_ready, DomainCertificate,
  status_eq_sound,
}
use webrana_infinimail_backe.Services.CertManager.Generate.{
  refuse_if_not, generate_certificate, refuse, check_ready, issue_certificate, finish_generation,
}
use webrana_infinimail_backe.Api.Setup.{
  generation_error, generate_certificate_handler, generate_found,
}
use webrana_infinimail_backe.Api.{
  Handler, missing_or, is_success, Response, with_id, not_found_reply, bad_request, given, calling,
  require, internal_error,
}
use webrana_infinimail_backe.Effect.{ok, Action, Err, is_not_found, error_text, ◌>>=◌, ◌>>◌, pure}
use webrana_infinimail_backe.Prelude.{
  true, false, none, some, inl, inr, refl, Option, Bool, ◌≡◌, Bool-cases,
}

-- The handler answers with an error.
abbrev Fails : {W : Type 0} → Handler W → Type 0
Fails m = (w : _) → is_success (m w).0 ≡ false

module _ {W A : Type 0} where
  Fails-given :
      (o : Option A) (r : Response) (k : A → Handler W)
      → is_success r ≡ false
      → ((a : A) → Fails (k a))
      → Fails (given o r k)
  Fails-given none r k e f w = e
  Fails-given (some a) r k e f w = f a w

  Fails-calling :
      (m : Action W A) (f : Err → Response) (k : A → Handler W)
      → ((e : Err) → is_success (f e) ≡ false)
      → ((a : A) (w v : W) → m w ≡ (ok a, v) → is_success (k a v).0 ≡ false)
      → Fails (calling m f k)
  Fails-calling m f k e g w = elim (outcome_cases m w) [
    | inl (a, v, p) ↦ rw p (g a w v p)
    | inr (x, v, p) ↦ rw p (e x)
  ]

Fails-require :
    {W : Type 0} (b : Bool) (r : Response) (k : Handler W)
    → is_success r ≡ false
    → (b ≡ true → Fails k)
    → Fails (require b r k)
Fails-require true r k e f w = f refl w
Fails-require false r k e f w = e

missing_or-fails : (text : Bytes) (e : Err) → is_success (missing_or text e) ≡ false
unfolding missing_or is_success not_found_reply internal_error
missing_or-fails text e = elim (Bool-cases (is_not_found e)) [
  | inl p ↦ rw p refl
  | inr p ↦ rw p refl
]

generation_error-fails :
    {W : Type 0} (h : DomainHandler W) (e : Err) → is_success (generation_error h e) ≡ false
unfolding generation_error is_success bad_request internal_error
generation_error-fails h e = elim (Bool-cases (contains (error_text e) (codes "_acme-challenge"))) [
  | inl p ↦ rw p refl
  | inr p ↦ rw p refl
]

two_statuses :
    (s : DomainStatus)
    → status_eq dns_verified s ≡ true
    → status_eq acme_challenge_ready s ≡ true
    → (b : Bool) → b ≡ false
two_statuses s p q b =
    cc (status_eq_sound dns_verified s p, status_eq_sound acme_challenge_ready s q)

module _ {W : Type 0} where
  -- The service refuses a domain that is verified but has no challenge that is ready.
  refuse_if_not-ok :
      (certs : CertManager W) (b : Bool) (d : Domain) (e : Err) (w v : W) (u : Unit {0})
      → refuse_if_not certs b d e w ≡ (ok u, v)
      → b ≡ true
  unfolding refuse_if_not refuse
  refuse_if_not-ok certs true d e w v u h = refl
  refuse_if_not-ok certs false d e w v u h = cc h

  generated-ready :
      (certs : CertManager W) (d : Domain) (w v : W) (c : DomainCertificate)
      → generate_certificate certs d w ≡ (ok c, v)
      → status_eq acme_challenge_ready d.status ≡ true
  unfolding generate_certificate check_ready
  generated-ready certs d w v c h =
      bind_case (check_ready certs d)
        (λ _. issue_certificate certs d >>= λ cert. finish_generation certs d >> pure cert)
        {w = certs.log (start_domain_log d.name) w} h
        (λ _ w1 g1 _.
          bind_case (refuse_if_not certs (status_eq acme_challenge_ready d.status) d _) _ g1
            (λ u w2 g2 _.
              refuse_if_not-ok certs (status_eq acme_challenge_ready d.status) d _
                (certs.log (start_domain_log d.name) w) w2 u g2))

  -- `GenerateCertificate` never answers with success, whatever the request, the rows, the services
  -- and the ACME server are.
  pub generate_certificate_handler-unreachable :
      (h : DomainHandler W) (param : Bytes) (w : W)
      → is_success (generate_certificate_handler h param w).0 ≡ false
  unfolding generate_certificate_handler with_id find_domain generate_found bad_request
      internal_error is_success
  generate_certificate_handler-unreachable h param =
      Fails-given h.domain_manager _ _ refl λ manager. Fails-given h.cert_manager _ _ refl λ certs.
        Fails-given (parse_uint32 param) _ _ refl λ i.
          Fails-calling (h.repo.get_by_id i) _ _ (missing_or-fails _) λ d _ v _.
            Fails-require (status_eq dns_verified d.status) _ _ refl
              (λ verified.
                Fails-calling (generate_certificate certs d) _ _ (generation_error-fails h)
                  (λ c w u p. two_statuses d.status verified (generated-ready certs d w u c p) _))
              v
