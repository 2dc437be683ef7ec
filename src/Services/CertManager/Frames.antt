-- ===== src/Services/CertManager/Frames.antt =====
-- What the certificate manager relies on besides the domain repository: the other calls leave the
-- rows of the table `domains` alone.
use webrana_infinimail_backe.Effect.Ensures.{Ensures, Ensures-bind}
use webrana_infinimail_backe.Effect.{Action, Err, ok, err, or_wrap, Result, ◌>>=◌, ◌>>◌, on_error}
use webrana_infinimail_backe.Services.{CertificateBundle, LogCall, StoredCertificate}
use webrana_infinimail_backe.Repository.Laws.{
  SameRows-preorder, SameRows, RowLaws, OtherRows, update_cases, PutRow, SameRows-OtherRows,
  PutRow-OtherRows, get_cases, OtherRows-preorder,
}
use webrana_infinimail_backe.Text.{Bytes}
use webrana_infinimail_backe.Services.CertManager.Issue.{
  fail_with, existing_certificate, write_certificate, save_record,
}
use webrana_infinimail_backe.Effect.Rules.{keeps_rules, Keeps, Keeps-pure, Keeps-ignore}
use webrana_infinimail_backe.Models.{Domain, DomainCertificate}
use webrana_infinimail_backe.Services.CertManager.{
  CertManager, logged, trigger_hot_reload, reload_with,
}
use webrana_infinimail_backe.Prelude.{
  some, ℕ, Option, ◌≡◌, List, String, none, inl, inr, refl, subst,
}

pub record KeepsDomains {W : Type 0} (s : CertManager W) (row : W → ℕ → Option Domain)
    : Type 0 where
  pub get_dns_challenge : (name : Bytes) → Keeps (SameRows row) (s.acme.get_dns_challenge name)
  pub complete_dns_challenge :
      (name : Bytes) → Keeps (SameRows row) (s.acme.complete_dns_challenge name)
  pub request_certificate :
      (names : List Bytes) → Keeps (SameRows row) (s.acme.request_certificate names)
  pub save_certificate :
      (name : Bytes) (b : CertificateBundle)
      → Keeps (SameRows row) (s.storage.save_certificate name b)
  pub get_by_domain_id : (i : ℕ) → Keeps (SameRows row) (s.certs.get_by_domain_id i)
  pub create : (c : DomainCertificate) → Keeps (SameRows row) (s.certs.create c)
  pub update : (c : DomainCertificate) → Keeps (SameRows row) (s.certs.update c)
  pub reload :
      (load : Bytes → Action W (Unit {0})) (name : Bytes)
      → s.reload ≡ some load
      → Keeps (SameRows row) (load name)
  pub lookup_txt : (server name : Bytes) → Keeps (SameRows row) (s.lookup_txt server name)
  pub log : (call : LogCall) (w : W) → SameRows row w (s.log call w)

-- The rules for a read and for an update of the row `i`, whose other rows stay.
module _ {W : Type 0} (s : CertManager W) (row : W → ℕ → Option Domain)
    (laws : RowLaws (λ (d : Domain). d.id) row s.domains.get_by_id s.domains.update) where
  pub update-OtherRows :
      (i : ℕ) (d : Domain) → d.id ≡ i → Keeps (OtherRows row i) (s.domains.update d)
  update-OtherRows i d keyed = record {
    at = λ w. elim (update_cases laws w i d keyed) [
      | inl (v, p, put) ↦ rw p (PutRow-OtherRows row w v i d put)
      | inr (e, v, p, same) ↦ rw p (SameRows-OtherRows row w v i same)
    ];
  }

  -- What follows a read may use that the row's identifier is the one asked for.
  pub get-bind-OtherRows :
      {B : Type 0} (i : ℕ) (text : String) (f : Domain → Action W B)
      → ((d : Domain) → d.id ≡ i → Keeps (OtherRows row i) (f d))
      → Keeps (OtherRows row i) (or_wrap (s.domains.get_by_id i) text >>= f)
  get-bind-OtherRows i text f k = record {
    at = λ w. elim (get_cases laws w i) [
      | inl (d, v, p, found, keyed, same) ↦ rw p (
          (OtherRows-preorder row i).transitive w v (f d v).1 (SameRows-OtherRows row w v i same)
            ((k d keyed).at v))
      | inr (e, v, p, same) ↦ rw p (SameRows-OtherRows row w v i same)
    ];
  }

  -- The same for what an action ensures when it succeeds.
  pub Ensures-get :
      {B : Type 0} (i : ℕ) (text : String) (f : Domain → Action W B) (w : W) (Q : B → W → Type 0)
      → ((d : Domain) (v : W) → row w i ≡ some d → d.id ≡ i → SameRows row w v → Ensures (f d) v Q)
      → Ensures (or_wrap (s.domains.get_by_id i) text >>= f) w Q
  Ensures-get i text f w Q k = record {
    at = λ b u h. elim (get_cases laws w i) [
      | inl (d, v, p, found, keyed, same) ↦ (k d v found keyed same).at b u (rw p at h)
      | inr (e, v, p, same) ↦ cc (rw p at h)
    ];
  }

  pub Ensures-update :
      {B : Type 0} (i : ℕ) (d : Domain) (text : String) (n : Action W B) (w : W)
      (Q : B → W → Type 0)
      → d.id ≡ i
      → ((v : W) → PutRow row i d w v → Ensures n v Q)
      → Ensures (or_wrap (s.domains.update d) text >> n) w Q
  Ensures-update i d text n w Q keyed k = record {
    at = λ b u h. elim (update_cases laws w i d keyed) [
      | inl (v, p, put) ↦ (k v put).at b u (rw p at h)
      | inr (e, v, p, same) ↦ cc (rw p at h)
    ];
  }

  -- An update with a handler that returns an error.
  pub Ensures-update_or :
      {B : Type 0} (i : ℕ) (d : Domain) (h : Err → Action W (Unit {0})) (n : Action W B) (w : W)
      (Q : B → W → Type 0)
      → d.id ≡ i
      → ((e : Err) (v : W) → Ensures (h e) v (λ _ _. ⊥))
      → ((v : W) → PutRow row i d w v → Ensures n v Q)
      → Ensures (on_error (s.domains.update d) h >> n) w Q
  Ensures-update_or i d h n w Q keyed fails k =
      Ensures-bind (on_error (s.domains.update d) h) (λ _. n) w Q
        (record {
          at = λ u v p. elim (update_cases laws w i d keyed) [
            | inl (x, q, put) ↦
                k v (subst (λ (y : Result (Unit {0}) × W). PutRow row i d w y.1) (rw q at p) put)
            | inr (e, x, q, same) ↦ absurd ((fails e x).at u v (rw q at p))
          ];
        })

module _ {W : Type 0} (s : CertManager W) (row : W → ℕ → Option Domain)
    (k : KeepsDomains s row) where
  pub same-other :
      {A : Type 0} (i : ℕ) (m : Action W A) → Keeps (SameRows row) m → Keeps (OtherRows row i) m
  same-other i m h = record { at = λ w. SameRows-OtherRows row w (m w).1 i (h.at w) }

  pub logged-same : (call : LogCall) → Keeps (SameRows row) (logged s call)
  logged-same call = record { at = k.log call }

  pub reload-same : (name : Bytes) → Keeps (SameRows row) (trigger_hot_reload s name)
  unfolding trigger_hot_reload
  reload-same name = go s.reload refl
    where
      go :
          (o : Option (Bytes → Action W (Unit {0})))
          → s.reload ≡ o
          → Keeps (SameRows row) (reload_with s o name)
      go none p = Keeps-pure (SameRows-preorder row) tt
      go (some load) p = Keeps-ignore (SameRows-preorder row) (load name) (k.reload load name p)

  pub fail_with-same :
      {A : Type 0} (failing : Err → Action W (Unit {0})) (text : String) (e : Err)
      → ((x : Err) → Keeps (SameRows row) (failing x))
      → Keeps (SameRows row) (fail_with s failing {A = A} text e)
  unfolding fail_with
  fail_with-same failing text e f = search (keeps_rules, SameRows-preorder)

  module _ (failing : Err → Action W (Unit {0}))
      (fails : (x : Err) → Keeps (SameRows row) (failing x)) where
    existing-same :
        (r : Result DomainCertificate) → Keeps (SameRows row) (existing_certificate s failing r)
    unfolding existing_certificate
    existing-same (ok c) = search (keeps_rules, SameRows-preorder)
    existing-same (err e) = search (keeps_rules, SameRows-preorder, fail_with-same failing, fails)

    write-same :
        (d : Domain) (stored : StoredCertificate) (o : Option DomainCertificate)
        → Keeps (SameRows row) (write_certificate s failing d stored o)
    unfolding write_certificate
    write-same d stored none =
        search (keeps_rules, SameRows-preorder, fail_with-same, fails, k.create, logged-same)
    write-same d stored (some c) =
        search (keeps_rules, SameRows-preorder, fail_with-same, fails, k.update, logged-same)

    pub save_record-same :
        (d : Domain) (stored : StoredCertificate)
        → Keeps (SameRows row) (save_record s failing d stored)
    unfolding save_record
    save_record-same d stored =
        search (keeps_rules, SameRows-preorder, k.get_by_domain_id, existing-same, write-same)
