-- ===== src/Services/CertManager/Verification.antt =====
-- What `RequestACMEChallenge` and `VerifyACMEDNS` do to the row of a domain.
use webrana_infinimail_backe.Services.CertManager.Isolation.{lookup-same}
use webrana_infinimail_backe.Text.{Bytes, is_empty}
use webrana_infinimail_backe.Effect.{ok, err, Result}
use webrana_infinimail_backe.Effect.Ensures.{
  Ensures, Ensures-guard, Ensures-skip, Ensures-reads, Ensures-weaken, Ensures-of, Ensures-if,
  Ensures-pure, Ensures-bind,
}
use webrana_infinimail_backe.Services.CertManager.Challenge.{
  request_acme_challenge, with_challenge, obtain_challenge, store_challenge, renewal_result,
  check_dns, renew_challenge, not_verified, mem, store_verified, conclude, verify_acme_dns,
}
use webrana_infinimail_backe.Effect.Rules.{Keeps, keeps_rules}
use webrana_infinimail_backe.Services.{DnsChallengeInfo, log_info}
use webrana_infinimail_backe.Services.CertManager.Frames.{KeepsDomains, Ensures-get, logged-same}
use webrana_infinimail_backe.Repository.Laws.{
  RowLaws, SameRows, PutRow, SameRows-PutRow, SameRows-preorder, PutRow-SameRows, update_cases,
}
use webrana_infinimail_backe.Services.CertManager.{
  CertManager, AcmeChallengeInfo, seconds_per_hour, AcmeDnsVerificationResult, acme_record_name,
  is_expired,
}
use webrana_infinimail_backe.Models.{
  Domain, pending_acme_challenge, acme_challenge_ready, dns_verified, status_eq_sound,
}
use webrana_infinimail_backe.Prelude.{
  [], true, some, refl, ℕ, Option, ◌≡◌, ◌+◌, ◌*◌, sym, inl, inr, false, Bool-cases, List, ◌||◌,
  arith, if◌then◌else◌, subst,
}

-- the row after the TXT record was found
abbrev pub ready : Domain → Domain
ready d = record d { acme_dns_verified = true; status = acme_challenge_ready }

-- the row that waits for the TXT record: what a request may change, field by field
abbrev pub pending_row : Domain → Bytes → Bytes → ℕ → Domain
pending_row d token value expires_at = record {
  id = d.id;
  name = d.name;
  is_active = d.is_active;
  status = pending_acme_challenge;
  dns_challenge = d.dns_challenge;
  error_message = [];
  acme_challenge_token = token;
  acme_challenge_value = value;
  acme_challenge_expires_at = some expires_at;
  acme_dns_verified = false;
}

module _ {W : Type 0} (s : CertManager W) (row : W → ℕ → Option Domain)
    (laws : RowLaws (λ (d : Domain). d.id) row s.domains.get_by_id s.domains.update)
    (k : KeepsDomains s row) (i : ℕ) where
  abbrev Stored : W → AcmeChallengeInfo → W → Type 0
  Stored w info w' =
      (d : Domain) × (challenge : DnsChallengeInfo) × (u v : W) × (row w i ≡ some d)
      × (d.status ≡ dns_verified)
      × (obtain_challenge s d u ≡ (ok challenge, v))
      × (info.txt_record_value ≡ challenge.txt_record)
      × (info.expires_at ≡ s.now v + 24 * 3600)
      × PutRow row i (pending_row d challenge.token challenge.txt_record (s.now v + 24 * 3600)) w w'

  obtain-same : (d : Domain) → Keeps (SameRows row) (obtain_challenge s d)
  unfolding obtain_challenge
  obtain-same d = search (keeps_rules, SameRows-preorder, logged-same, k.get_dns_challenge) depth 8

  store-PutRow :
      (d : Domain) (info : DnsChallengeInfo) (t : ℕ) (w : W)
      → d.id ≡ i
      → Ensures (store_challenge s d info t) w λ stored w'.
        (stored.txt_record_value ≡ info.txt_record)
        × (stored.expires_at ≡ t)
        × PutRow row i (with_challenge d info t) w w'
  unfolding store_challenge
  store-PutRow d info t w keyed =
      Ensures-of _ w _ (elim (update_cases laws w i (with_challenge d info t) keyed) [
        | inl (v, p, put) ↦ rw p (
          refl,
          refl,
          PutRow-SameRows row w v _ i (with_challenge d info t) put
              (k.log (log_info d.name "challenge_stored") v),
        )
        | inr (e, v, p, same) ↦ rw p tt
      ])

  request-Stored : (w : W) → Ensures (request_acme_challenge s i) w (Stored w)
  unfolding request_acme_challenge
  request-Stored w = Ensures-get s row laws i "failed to get domain" _ w _ λ d v₀ found keyed same₀.
      Ensures-guard _ _ _ v₀ _ λ verified. Ensures-bind (obtain_challenge s d) _ v₀ _ (record {
        at = λ info v₁ got.
            let same₁ : SameRows row v₀ v₁ =
              subst (λ (x : Result DnsChallengeInfo × W). SameRows row v₀ x.1) got
                ((obtain-same d).at v₀) in
            Ensures-reads (λ (x : W). s.now x + 24 * seconds_per_hour) (store_challenge s d info) v₁
              _
              (Ensures-weaken _ v₁ _ _
                (store-PutRow d info (s.now v₁ + 24 * seconds_per_hour) v₁ keyed)
                λ stored v₂ h. (
                  d,
                  info,
                  v₀,
                  v₁,
                  found,
                  sym (status_eq_sound _ _ verified),
                  got,
                  h.0,
                  h.1,
                  SameRows-PutRow row w v₀ v₂ i _ same₀
                      (SameRows-PutRow row v₀ v₁ v₂ i _ same₁ h.2),
                ));
      })

  -- When `RequestACMEChallenge` returns a challenge, the domain's row had the status `dns_verified`,
  -- and it is afterwards that row with the token and the value that the call of the ACME server
  -- gave, an expiry 24 hours after that call, `acme_dns_verified` off, no error message and the
  -- status `pending_acme_challenge`; the result shows that value and that expiry. No other row has
  -- changed.
  pub request_stores_challenge :
      (w w' : W) (info : AcmeChallengeInfo)
      → request_acme_challenge s i w ≡ (ok info, w')
      → (d : Domain) × (challenge : DnsChallengeInfo) × (u v : W) × (row w i ≡ some d)
        × (d.status ≡ dns_verified)
        × (obtain_challenge s d u ≡ (ok challenge, v))
        × (info.txt_record_value ≡ challenge.txt_record)
        × (info.expires_at ≡ s.now v + 24 * 3600)
        × PutRow row i
            (pending_row d challenge.token challenge.txt_record (s.now v + 24 * 3600))
            w
            w'
  request_stores_challenge w w' info = (request-Stored w).at info w'

  renewal-not_verified :
      (old : Bytes) (r : Result AcmeChallengeInfo) → (renewal_result s old r).verified ≡ false
  unfolding renewal_result not_verified
  renewal-not_verified old (ok fresh) = refl
  renewal-not_verified old (err e) = refl

  abbrev Found : Domain → W → AcmeDnsVerificationResult → W → Type 0
  Found d w r w' =
      r.verified ≡ true
      → (mem d.acme_challenge_value r.found_values ≡ true) × PutRow row i (ready d) w w'

  conclude-Found :
      (d : Domain) (found : List Bytes) (w : W)
      → d.id ≡ i
      → Ensures (conclude s d found) w (Found d w)
  unfolding conclude store_verified
  conclude-Found d found w keyed =
      Ensures-of _ w _ (elim (Bool-cases (mem d.acme_challenge_value found)) [
        | inl hit ↦ elim (update_cases laws w i (ready d) keyed) [
          | inl (v, p, put) ↦ rw (hit, p) (λ _. (hit, put))
          | inr (e, v, p, kept) ↦ rw (hit, p) tt
        ]
        | inr miss ↦ rw miss (λ h. cc)
      ])

  check-Found : (d : Domain) (w : W) → d.id ≡ i → Ensures (check_dns s d) w (Found d w)
  unfolding check_dns
  check-Found d w keyed =
      Ensures-skip _ _ w _ (lookup-same s row laws k i (acme_record_name d.name)) λ found v same.
        Ensures-weaken _ v _ _ (conclude-Found d found v keyed)
          λ r u h e. let (hit, put) = h e in (hit, SameRows-PutRow row w v u i (ready d) same put)

  renew-Found : (d : Domain) (w : W) → d.id ≡ i → Ensures (renew_challenge s i d) w (Found d w)
  unfolding renew_challenge
  renew-Found d w keyed =
      Ensures-of _ w _ (elim (update_cases laws w i (record d { status = dns_verified }) keyed) [
        | inl (v, p, put) ↦ rw p (λ h.
            cc (h, renewal-not_verified d.acme_challenge_value (request_acme_challenge s i v).0))
        | inr (e, v, p, same) ↦ rw p tt
      ])

  abbrev Verified : W → AcmeDnsVerificationResult → W → Type 0
  Verified w r w' =
      r.verified ≡ true
      → (d : Domain) × (row w i ≡ some d)
        × (is_empty d.acme_challenge_token ≡ false)
        × (is_empty d.acme_challenge_value ≡ false)
        × (mem d.acme_challenge_value r.found_values ≡ true)
        × PutRow row i (ready d) w w'

  -- When `VerifyACMEDNS` reports success, the domain's row had a token and a value, the value is one
  -- of those that the result shows as found, and the row is afterwards the same with
  -- `acme_dns_verified` set and the status `acme_challenge_ready`. No other row has changed.
  pub verify_marks_ready :
      (w w' : W) (r : AcmeDnsVerificationResult)
      → verify_acme_dns s i w ≡ (ok r, w')
      → r.verified ≡ true
      → (d : Domain) × (row w i ≡ some d)
        × (is_empty d.acme_challenge_token ≡ false)
        × (is_empty d.acme_challenge_value ≡ false)
        × (mem d.acme_challenge_value r.found_values ≡ true)
        × PutRow row i (ready d) w w'
  unfolding verify_acme_dns not_verified
  verify_marks_ready w w' r h e = (outcome w).at r w' h e
    where
      outcome : (w : W) → Ensures (verify_acme_dns s i) w (Verified w)
      outcome w = Ensures-get s row laws i "failed to get domain" _ w _ λ d v found keyed same.
          Ensures-if (is_empty d.acme_challenge_token || is_empty d.acme_challenge_value) _ _ v _
            (λ missing. Ensures-pure _ v _ (λ h. cc))
            λ there.
              Ensures-weaken _ v _ _
                (Ensures-reads s.now
                  (λ t. if is_expired d t then renew_challenge s i d else check_dns s d) v _
                  (Ensures-if (is_expired d (s.now v)) _ _ v _ (λ _. renew-Found d v keyed)
                    (λ _. check-Found d v keyed)))
                λ r u g h.
                  let (hit, put) = g h in
                  (
                    d,
                    found,
                    ground arith,
                    ground arith,
                    hit,
                    SameRows-PutRow row w v u i (ready d) same put,
                  )
