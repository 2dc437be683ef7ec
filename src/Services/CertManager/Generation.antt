-- ===== src/Services/CertManager/Generation.antt =====
-- What `ClearACMEChallenge` and a successful `GenerateCertificate` leave in the database.
use webrana_infinimail_backe.Text.{is_empty}
use webrana_infinimail_backe.Services.CertManager.Generate.{
  finish_generation, announce, mark_issued, generate_certificate, log_failure, refuse_if_not,
  check_ready, refuse, issue_certificate,
}
use webrana_infinimail_backe.Services.DomainManager.Status.{update_status_atomic}
use webrana_infinimail_backe.Services.{start_domain_log}
use webrana_infinimail_backe.Services.DomainManager.{update_status, with_status}
use webrana_infinimail_backe.Effect.Ensures.{
  Ensures, Ensures-ignore, Ensures-bind, Ensures-on_error, Ensures-weaken, Ensures-keeps,
  Ensures-then, Ensures-pure,
}
use webrana_infinimail_backe.Effect.Rules.{Keeps, keeps_rules}
use webrana_infinimail_backe.Services.CertManager.Frames.{KeepsDomains, reload-same, logged-same}
use webrana_infinimail_backe.Repository.Laws.{
  RowLaws, PutRow, SameRows, get_cases, update_cases, SameRows-preorder, SameRows-PutRow,
  PutRow-self,
}
use webrana_infinimail_backe.Services.CertManager.{CertManager, clear_acme_challenge, logged}
use webrana_infinimail_backe.Models.{
  Domain, certificate_issued, status_eq, DomainCertificate, acme_challenge_ready, status_eq_sound,
}
use webrana_infinimail_backe.Effect.{ok, Action, IsErr, ◌>>◌, Result, Err, pure}
use webrana_infinimail_backe.Prelude.{
  [], false, none, some, inl, inr, refl, ◌≡◌, ℕ, Option, ◌⊎◌, ◌∙◌, sym, subst, true, Bool, arith,
  not, ◌||◌,
}

abbrev pub cleared : Domain → Domain
cleared d = record d {
  acme_challenge_token = [];
  acme_challenge_value = [];
  acme_challenge_expires_at = none;
  acme_dns_verified = false;
}

-- No challenge is stored.
abbrev pub IsCleared : Domain → Type 0
IsCleared d =
    (d.acme_challenge_token ≡ [])
    × (d.acme_challenge_value ≡ [])
    × (d.acme_challenge_expires_at ≡ none)
    × (d.acme_dns_verified ≡ false)

neither : (a b : Bool) → not (a || b) ≡ true → (a ≡ false) × (b ≡ false)
neither a b h = ground arith

module _ {W : Type 0} (s : CertManager W) (row : W → ℕ → Option Domain)
    (laws : RowLaws (λ (d : Domain). d.id) row s.domains.get_by_id s.domains.update) where
  -- `ClearACMEChallenge` either returns no error and wrote the row found without its challenge, and
  -- no other row, or it returns an error and no row has changed.
  pub clear_atomic :
      (w : W) (i : ℕ)
      → ((d : Domain) × ((clear_acme_challenge s i w).0 ≡ ok tt)
          × (row w i ≡ some d)
          × PutRow row i (cleared d) w (clear_acme_challenge s i w).1)
        ⊎ (IsErr (clear_acme_challenge s i w).0 × SameRows row w (clear_acme_challenge s i w).1)
  unfolding clear_acme_challenge
  clear_atomic w i = elim (get_cases laws w i) [
    | inl (d, u, p, found, keyed, same) ↦ elim (update_cases laws u i (cleared d) keyed) [
      | inl (v, q, put) ↦
          rw (p, q) (inl (d, refl, found, SameRows-PutRow row w u v i (cleared d) same put))
      | inr (e, v, q, kept) ↦ rw (p, q) (inr (tt, λ j. kept j ∙ same j))
    ]
    | inr (e, u, p, same) ↦ rw p (inr (tt, same))
  ]

module _ {W : Type 0} (s : CertManager W) (row : W → ℕ → Option Domain)
    (laws : RowLaws (λ (d : Domain). d.id) row s.domains.get_by_id s.domains.update)
    (managed : RowLaws (λ (d : Domain). d.id) row s.manager.repo.get_by_id s.manager.repo.update)
    (k : KeepsDomains s row) where
  -- The row is issued, and its challenge is gone unless the call that clears it failed at `u`.
  abbrev pub Issued : ℕ → W → W → Type 0
  Issued i u w' =
      (r : Domain) × (row w' i ≡ some r)
      × (r.status ≡ certificate_issued)
      × (r.error_message ≡ [])
      × (IsErr (clear_acme_challenge s i u).0 ⊎ IsCleared r)

  announce-same : (d : Domain) → Keeps (SameRows row) (announce s d)
  unfolding announce
  announce-same d = search (keeps_rules, SameRows-preorder, reload-same, logged-same, k)

  still :
      {i : ℕ} (u : W) {v : W} (d : Domain)
      → row v i ≡ some d
      → IsErr (clear_acme_challenge s i u).0 ⊎ ((q : Domain) × IsCleared q × (row v i ≡ some q))
      → IsErr (clear_acme_challenge s i u).0 ⊎ IsCleared d
  still u d found (inl fails) = inl fails
  still u d found (inr (q, empty, at)) =
      let same : q ≡ d = cc (at, found) in inr (subst IsCleared same empty)

  status-Issued :
      (i : ℕ) (u v : W)
      → (IsErr (clear_acme_challenge s i u).0 ⊎ ((q : Domain) × IsCleared q × (row v i ≡ some q)))
      → Ensures (update_status s.manager i certificate_issued []) v (λ _ w'. Issued i u w')
  unfolding status_eq
  status-Issued i u v before = record {
    at = λ a w' h. elim (update_status_atomic s.manager row managed v i certificate_issued []) [
      | inl (d, done, valid, found, put) ↦ (
        with_status d certificate_issued [],
        subst
            (λ (x : Result (Unit {0}) × W). row x.1 i ≡ some (with_status d certificate_issued []))
            h (PutRow-self row v _ i (with_status d certificate_issued []) put),
        refl,
        refl,
        still u d found before,
      )
      | inr (fails, same) ↦ absurd (rw h at fails)
    ];
  }

  mark-Issued :
      (d : Domain) (u v : W)
      → (IsErr (clear_acme_challenge s d.id u).0
          ⊎ ((q : Domain) × IsCleared q × (row v d.id ≡ some q)))
      → Ensures (mark_issued s d) v (λ _ w'. Issued d.id u w')
  unfolding mark_issued log_failure
  mark-Issued d u v before =
      Ensures-on_error _ _ v _ (status-Issued d.id u v before) λ e x. record { at = λ a w' h. cc h }

  after_clear :
      (i : ℕ) (u : W)
      → IsErr (clear_acme_challenge s i u).0
        ⊎ ((q : Domain) × IsCleared q × (row (clear_acme_challenge s i u).1 i ≡ some q))
  after_clear i u = elim (clear_atomic s row laws u i) [
    | inl (d, done, found, put) ↦
        inr (cleared d, (refl, refl, refl, refl), PutRow-self row u _ i (cleared d) put)
    | inr (fails, same) ↦ inl fails
  ]

  finish-Issued :
      (d : Domain) (u : W) → Ensures (finish_generation s d) u (λ _ w'. Issued d.id u w')
  unfolding finish_generation
  finish-Issued d u = Ensures-ignore (clear_acme_challenge s d.id) _ u _ (
      Ensures-bind (mark_issued s d) (λ _. announce s d) _ _
        (Ensures-weaken _ _ _ _ (mark-Issued d u _ (after_clear d.id u))
          λ a v (r, there, status, text, gone).
            Ensures-weaken _ v _ _ (Ensures-keeps _ v (announce-same d))
              λ b w' same. (r, same d.id ∙ there, status, text, gone)))

  -- Nothing is asked of the world.
  abbrev AnyWorld : W → W → Type 0
  AnyWorld u v = Unit

  any-world : {A : Type 0} (m : Action W A) → Keeps AnyWorld m
  any-world m = record { at = λ w. tt }

  Ensures-refuse :
      {B : Type 0} (b : Bool) (d : Domain) (e : Err) (n : Action W B) (w : W) (Q : B → W → Type 0)
      → (b ≡ true → Ensures n w Q)
      → Ensures (refuse_if_not s b d e >> n) w Q
  unfolding refuse_if_not refuse
  Ensures-refuse true d e n w Q g = record { at = λ b v h. (g refl).at b v h }
  Ensures-refuse false d e n w Q g = record { at = λ b v h. cc h }

  abbrev IsReady : Domain → Type 0
  IsReady d =
      (d.status ≡ acme_challenge_ready)
      × (d.acme_dns_verified ≡ true)
      × (is_empty d.acme_challenge_token ≡ false)
      × (is_empty d.acme_challenge_value ≡ false)

  check-IsReady : (d : Domain) (w : W) → Ensures (check_ready s d) w (λ _ _. IsReady d)
  unfolding check_ready
  check-IsReady d w = Ensures-refuse _ d _ _ w _ λ status. Ensures-refuse _ d _ _ w _ λ verified.
      Ensures-refuse (not (is_empty d.acme_challenge_token || is_empty d.acme_challenge_value)) d _
        _ w _
        λ there.
          let (token, value) = neither _ _ there in
          record { at = λ a v h. (sym (status_eq_sound _ _ status), verified, token, value) }

  -- When `GenerateCertificate` returns a certificate, the domain that it was called with had the
  -- status `acme_challenge_ready`, `acme_dns_verified` set and a challenge with a token and a value,
  -- the certificate is the one that was issued and recorded, and the domain's row has afterwards the
  -- status `certificate_issued` and no error message; it stores no challenge any more, unless the
  -- call of `ClearACMEChallenge` right after the certificate was recorded failed.
  pub generate_clears_challenge :
      (d : Domain) (w w' : W) (c : DomainCertificate)
      → generate_certificate s d w ≡ (ok c, w')
      → (d.status ≡ acme_challenge_ready)
        × (d.acme_dns_verified ≡ true)
        × (is_empty d.acme_challenge_token ≡ false)
        × (is_empty d.acme_challenge_value ≡ false)
        × (v u : W) × (issue_certificate s d v ≡ (ok c, u))
        × Issued d.id u w'
  unfolding generate_certificate
  generate_clears_challenge d w w' c = (outcome w).at c w'
    where
      outcome :
          (w : W)
          → Ensures (generate_certificate s d) w λ c w'.
            (d.status ≡ acme_challenge_ready)
            × (d.acme_dns_verified ≡ true)
            × (is_empty d.acme_challenge_token ≡ false)
            × (is_empty d.acme_challenge_value ≡ false)
            × (v u : W) × (issue_certificate s d v ≡ (ok c, u))
            × Issued d.id u w'
      outcome w = Ensures-then _ _ w _ (any-world (logged s (start_domain_log d.name))) λ v₀ _.
          Ensures-bind (check_ready s d) _ v₀ _ (
            Ensures-weaken _ v₀ _ _ (check-IsReady d v₀) λ _ v₁ (status, verified, token, value).
              Ensures-bind (issue_certificate s d) _ v₁ _ (record {
                at = λ cert u made.
                    Ensures-bind (finish_generation s d) (λ _. pure cert) u _
                      (Ensures-weaken _ u _ _ (finish-Issued d u) λ _ x issued_row.
                        Ensures-pure cert x _
                          (status, verified, token, value, v₁, u, made, issued_row));
              }))
