-- ===== src/Services/DomainManager/Status.antt =====
-- What `ActivateDomain` and `UpdateStatus` do to the rows, on every branch.
use webrana_infinimail_backe.Text.{Bytes}
use webrana_infinimail_backe.Repository.Laws.{
  RowLaws, PutRow, SameRows, get_cases, update_cases, SameRows-PutRow,
}
use webrana_infinimail_backe.Services.DomainManager.{
  DomainManager, activate_domain, update_status, with_status,
}
use webrana_infinimail_backe.Models.{
  Domain, active, DomainStatus, certificate_issued, is_valid, status_eq, failed, status_eq_sound,
}
use webrana_infinimail_backe.Effect.{ok, IsErr}
use webrana_infinimail_backe.Prelude.{
  [], true, some, inl, inr, refl, ℕ, Option, ◌≡◌, ◌⊎◌, if◌then◌else◌, Bool-cases, sym, ◌∙◌,
}

abbrev pub activated : Domain → Domain
activated d = record d { status = active; is_active = true; error_message = [] }

module _ {W : Type 0} (s : DomainManager W) (row : W → ℕ → Option Domain)
    (laws : RowLaws (λ (d : Domain). d.id) row s.repo.get_by_id s.repo.update) where
  -- `ActivateDomain` either returns no error, found a domain whose certificate is issued, and wrote
  -- that row and no other, with the status `active`, `is_active` set and no error message; or it
  -- returns an error and no row has changed.
  pub activate_domain_atomic :
      (w : W) (i : ℕ)
      → ((d : Domain) × ((activate_domain s i w).0 ≡ ok tt)
          × (row w i ≡ some d)
          × (d.status ≡ certificate_issued)
          × PutRow row i (activated d) w (activate_domain s i w).1)
        ⊎ (IsErr (activate_domain s i w).0 × SameRows row w (activate_domain s i w).1)
  unfolding activate_domain
  activate_domain_atomic w i = elim (get_cases laws w i) [
    | inl (d, u, p, found, keyed, same) ↦
        elim (Bool-cases (status_eq certificate_issued d.status)) [
          | inl issued ↦ elim (update_cases laws u i (activated d) keyed) [
            | inl (v, q, put) ↦
                rw (p, issued, q)
                  (inl (
                    d,
                    refl,
                    found,
                    sym (status_eq_sound _ _ issued),
                    SameRows-PutRow row w u v i (activated d) same put,
                  ))
            | inr (e, v, q, kept) ↦ rw (p, issued, q) (inr (tt, λ j. kept j ∙ same j))
          ]
          | inr wrong ↦ rw (p, wrong) (inr (tt, same))
        ]
    | inr (e, u, p, same) ↦ rw p (inr (tt, same))
  ]

  -- `UpdateStatus` either returns no error, the status is one of the eight, and the row found was
  -- written, and no other, with the status and with the message if the status is `failed` and none
  -- if it is not; or it returns an error and no row has changed.
  pub update_status_atomic :
      (w : W) (i : ℕ) (status : DomainStatus) (msg : Bytes)
      → ((d : Domain) × ((update_status s i status msg w).0 ≡ ok tt)
          × (is_valid status ≡ true)
          × (row w i ≡ some d)
          × PutRow row i
              (record d {
                status = status;
                error_message = if status_eq failed status then msg else [];
              })
              w
              (update_status s i status msg w).1)
        ⊎ (IsErr (update_status s i status msg w).0
            × SameRows row w (update_status s i status msg w).1)
  unfolding update_status
  update_status_atomic w i status msg = elim (Bool-cases (is_valid status)) [
    | inr invalid ↦ rw invalid (inr (tt, λ j. refl))
    | inl valid ↦ elim (get_cases laws w i) [
      | inr (e, u, p, same) ↦ rw (valid, p) (inr (tt, same))
      | inl (d, u, p, found, keyed, same) ↦
          elim (update_cases laws u i (with_status d status msg) keyed) [
            | inl (v, q, put) ↦
                rw (valid, p, q)
                  (inl (
                    d,
                    refl,
                    refl,
                    found,
                    SameRows-PutRow row w u v i (with_status d status msg) same put,
                  ))
            | inr (e, v, q, kept) ↦ rw (valid, p, q) (inr (tt, λ j. kept j ∙ same j))
          ]
    ]
  ]
