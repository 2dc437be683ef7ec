-- ===== src/Api/Setup/Rows.antt =====
-- What a handler of internal/api/handlers/domain_handler.go does to the rows when it sets a status
-- by the domain manager.
use mathlib.Core.Option.{some-injective}
use webrana_infinimail_backe.Services.DomainManager.Status.{update_status_atomic}
use webrana_infinimail_backe.Effect.Rules.{outcome_cases}
use webrana_infinimail_backe.Api.{Response, Handler, calling}
use webrana_infinimail_backe.Effect.{Err}
use webrana_infinimail_backe.Repository.Laws.{RowLaws, SameRows, PutRow, PutRow-SameRows}
use webrana_infinimail_backe.Models.{Domain, DomainStatus}
use webrana_infinimail_backe.Services.DomainManager.{DomainManager, update_status, with_status}
use webrana_infinimail_backe.Prelude.{[], some, inl, inr, ℕ, Option, ◌≡◌, ◌⊎◌, sym, ◌∙◌, subst}

module _ {W : Type 0} (manager : DomainManager W) (row : W → ℕ → Option Domain)
    (laws : RowLaws (λ (d : Domain). d.id) row manager.repo.get_by_id manager.repo.update) where
  -- `UpdateStatus` and what follows it, which writes nothing.
  pub status-written :
      (i : ℕ) (d : Domain) (t : DomainStatus) (g : Err → Response) (k : Handler W) (w : W)
      → ((v : W) → SameRows row v (k v).1)
      → row w i ≡ some d
      → SameRows row w (calling (update_status manager i t []) g (λ _. k) w).1
        ⊎ PutRow row i
            (with_status d t [])
            w
            (calling (update_status manager i t []) g (λ _. k) w).1
  status-written i d t g k w quiet found = elim (outcome_cases (update_status manager i t []) w) [
    | inl (_, v, p) ↦ rw p (elim (rw p at (update_status_atomic manager row laws w i t [])) [
      | inl (d', _, _, found', put) ↦
          let same_row : d' ≡ d = some-injective d' d (sym found' ∙ found) in
          inr (
            PutRow-SameRows row w v (k v).1 i (with_status d t [])
              (subst (λ x. PutRow row i (with_status x t []) w v) same_row put) (quiet v))
      | inr (bad, _) ↦ elim bad [ ]
    ])
    | inr (e, v, p) ↦ rw p (elim (rw p at (update_status_atomic manager row laws w i t [])) [
      | inl (_, bad, _, _, _) ↦ cc bad
      | inr (_, same) ↦ inl same
    ])
  ]
