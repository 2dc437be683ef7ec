-- ===== src/Services/CertManager/Isolation.antt =====
-- certificate_manager.go: the rows of the other domains during the ACME flow.
use webrana_infinimail_backe.Services.CertManager.Issue.{save_record}
use webrana_infinimail_backe.Text.{Bytes}
use webrana_infinimail_backe.Effect.Rules.{Keeps, keeps_rules, Keeps-pure}
use webrana_infinimail_backe.Services.CertManager.Submit.{
  fail_submission, prepare_submission, publish_certificate, submit_acme_challenge,
}
use webrana_infinimail_backe.Services.CertManager.Challenge.{
  request_acme_challenge, ask, lookup_acme_txt_record, store_verified, check_dns, renew_challenge,
  verify_acme_dns, after_reset, by_status, get_acme_status, dns_servers, conclude,
}
use webrana_infinimail_backe.Services.{LogCall, StoredCertificate, CertificateBundle}
use webrana_infinimail_backe.Services.CertManager.Frames.{
  KeepsDomains, same-other, logged-same, get-bind-OtherRows, update-OtherRows, save_record-same,
  reload-same,
}
use webrana_infinimail_backe.Repository.Laws.{
  RowLaws, OtherRows, SameRows, OtherRows-preorder, SameRows-preorder,
}
use webrana_infinimail_backe.Models.{Domain, DomainStatus, pending_acme_challenge}
use webrana_infinimail_backe.Services.CertManager.{
  CertManager, clear_acme_challenge, logged, trigger_hot_reload,
}
use webrana_infinimail_backe.Effect.{ok, err, Err, Result, pure}
use webrana_infinimail_backe.Prelude.{
  [], true, false, ◌∷◌, ℕ, Option, List, Bool, ◌≡◌, String, ◌==◌,
}

module _ {W : Type 0} (s : CertManager W) (row : W → ℕ → Option Domain)
    (laws : RowLaws (λ (d : Domain). d.id) row s.domains.get_by_id s.domains.update)
    (k : KeepsDomains s row) (i : ℕ) where
  logged-other : (call : LogCall) → Keeps (OtherRows row i) (logged s call)
  logged-other call = same-other s row k i (logged s call) (logged-same s row k call)

  challenge-other : (name : Bytes) → Keeps (OtherRows row i) (s.acme.get_dns_challenge name)
  challenge-other name = same-other s row k i _ (k.get_dns_challenge name)

  reload-other : (name : Bytes) → Keeps (OtherRows row i) (trigger_hot_reload s name)
  reload-other name = same-other s row k i _ (reload-same s row k name)

  complete-other : (name : Bytes) → Keeps (OtherRows row i) (s.acme.complete_dns_challenge name)
  complete-other name = same-other s row k i _ (k.complete_dns_challenge name)

  certificate-other :
      (names : List Bytes) → Keeps (OtherRows row i) (s.acme.request_certificate names)
  certificate-other names = same-other s row k i _ (k.request_certificate names)

  storage-other :
      (name : Bytes) (b : CertificateBundle)
      → Keeps (OtherRows row i) (s.storage.save_certificate name b)
  storage-other name b = same-other s row k i _ (k.save_certificate name b)

  pub clear-OtherRows : Keeps (OtherRows row i) (clear_acme_challenge s i)
  unfolding clear_acme_challenge
  clear-OtherRows = search (keeps_rules, OtherRows-preorder, get-bind-OtherRows, update-OtherRows)

  pub request-OtherRows : Keeps (OtherRows row i) (request_acme_challenge s i)
  unfolding request_acme_challenge
  request-OtherRows =
      search
        (
          keeps_rules, OtherRows-preorder, get-bind-OtherRows, update-OtherRows, logged-other,
          challenge-other,
        )
        depth 14

  ask-same :
      (servers : List Bytes) (name : Bytes) (all : List Bytes)
      → Keeps (SameRows row) (ask s servers name all)
  unfolding ask
  ask-same [] name all = search (keeps_rules, SameRows-preorder)
  ask-same (server ∷ servers) name all =
      search (keeps_rules, SameRows-preorder, k.lookup_txt, ask-same servers name)

  pub lookup-same : (name : Bytes) → Keeps (SameRows row) (lookup_acme_txt_record s name)
  unfolding lookup_acme_txt_record
  lookup-same name = ask-same dns_servers name []

  store_verified-OtherRows :
      (b : Bool) (d : Domain) → d.id ≡ i → Keeps (OtherRows row i) (store_verified s b d)
  unfolding store_verified
  store_verified-OtherRows true d keyed = search (keeps_rules, OtherRows-preorder, update-OtherRows)
  store_verified-OtherRows false d keyed = search (keeps_rules, OtherRows-preorder)

  lookup-other : (name : Bytes) → Keeps (OtherRows row i) (lookup_acme_txt_record s name)
  lookup-other name = same-other s row k i _ (lookup-same name)

  conclude-OtherRows :
      (d : Domain) (found : List Bytes) → d.id ≡ i → Keeps (OtherRows row i) (conclude s d found)
  unfolding conclude
  conclude-OtherRows d found keyed =
      search (keeps_rules, OtherRows-preorder, store_verified-OtherRows)

  check-OtherRows : (d : Domain) → d.id ≡ i → Keeps (OtherRows row i) (check_dns s d)
  unfolding check_dns
  check-OtherRows d keyed =
      search (keeps_rules, OtherRows-preorder, lookup-other, conclude-OtherRows)

  renew-OtherRows : (d : Domain) → d.id ≡ i → Keeps (OtherRows row i) (renew_challenge s i d)
  unfolding renew_challenge
  renew-OtherRows d keyed =
      search (keeps_rules, OtherRows-preorder, update-OtherRows, request-OtherRows)

  pub verify-OtherRows : Keeps (OtherRows row i) (verify_acme_dns s i)
  unfolding verify_acme_dns
  verify-OtherRows =
      search (keeps_rules, OtherRows-preorder, get-bind-OtherRows, renew-OtherRows, check-OtherRows)

  after_reset-OtherRows :
      (d : Domain) (r : Result (Unit {0})) → Keeps (OtherRows row i) (after_reset s i d r)
  unfolding after_reset
  after_reset-OtherRows d (ok u) = search (keeps_rules, OtherRows-preorder, request-OtherRows)
  after_reset-OtherRows d (err e) = search (keeps_rules, OtherRows-preorder)

  by_status-OtherRows :
      (status : DomainStatus) (d : Domain)
      → d.id ≡ i
      → Keeps (OtherRows row i) (by_status s status i d)
  unfolding by_status
  by_status-OtherRows pending_acme_challenge d keyed =
      search (keeps_rules, OtherRows-preorder, update-OtherRows, after_reset-OtherRows)
  by_status-OtherRows _ d keyed = search (keeps_rules, OtherRows-preorder)

  pub status-OtherRows : Keeps (OtherRows row i) (get_acme_status s i)
  unfolding get_acme_status
  status-OtherRows =
      search (keeps_rules, OtherRows-preorder, get-bind-OtherRows, by_status-OtherRows)

  fail_submission-OtherRows :
      {A : Type 0} (d : Domain) (text : Bytes) (step : String) (reason : Bytes) (e : Err)
      → d.id ≡ i
      → Keeps (OtherRows row i) (fail_submission s {A = A} d text step reason e)
  unfolding fail_submission
  fail_submission-OtherRows d text step reason e keyed =
      search (keeps_rules, OtherRows-preorder, update-OtherRows, logged-other)

  no_log-same : (e : Err) → Keeps (SameRows row) (pure {W = W} tt)
  no_log-same e = Keeps-pure (SameRows-preorder row) tt

  save-other :
      (d : Domain) (stored : StoredCertificate)
      → Keeps (OtherRows row i) (save_record s (λ e. pure tt) d stored)
  save-other d stored =
      same-other s row k i _ (save_record-same s row k (λ e. pure tt) no_log-same d stored)

  pub prepare-OtherRows :
      (d : Domain) → d.id ≡ i → Keeps (OtherRows row i) (prepare_submission s i d)
  unfolding prepare_submission
  prepare-OtherRows d keyed =
      search
        (
          keeps_rules, OtherRows-preorder, update-OtherRows, logged-other,
          fail_submission-OtherRows, complete-other, certificate-other, storage-other, save-other,
          clear-OtherRows,
        )
        depth 16

  publish-OtherRows : (d : Domain) → d.id ≡ i → Keeps (OtherRows row i) (publish_certificate s d)
  unfolding publish_certificate
  publish-OtherRows d keyed =
      search (keeps_rules, OtherRows-preorder, update-OtherRows, logged-other, reload-other)

  pub submit-OtherRows : Keeps (OtherRows row i) (submit_acme_challenge s i)
  unfolding submit_acme_challenge
  submit-OtherRows =
      search
        (keeps_rules, OtherRows-preorder, get-bind-OtherRows, prepare-OtherRows, publish-OtherRows)
        depth 12

  -- Each operation of the ACME flow, whatever it returns, leaves the row of every other domain as it
  -- was: `ClearACMEChallenge`, `RequestACMEChallenge`, `VerifyACMEDNS`, `GetACMEStatus` and
  -- `SubmitACMEChallenge`.
  pub acme_flow_isolated :
      (w : W) (j : ℕ)
      → (j == i) ≡ false
      → (row (clear_acme_challenge s i w).1 j ≡ row w j)
        × (row (request_acme_challenge s i w).1 j ≡ row w j)
        × (row (verify_acme_dns s i w).1 j ≡ row w j)
        × (row (get_acme_status s i w).1 j ≡ row w j)
        × (row (submit_acme_challenge s i w).1 j ≡ row w j)
  acme_flow_isolated w j other = (
    clear-OtherRows.at w j other,
    request-OtherRows.at w j other,
    verify-OtherRows.at w j other,
    status-OtherRows.at w j other,
    submit-OtherRows.at w j other,
  )
