-- ===== src/Repository/Domains.antt =====
-- internal/repository/domain_repository.go
use webrana_infinimail_backe.Effect.Rules.{outcome_cases}
use webrana_infinimail_backe.Repository.Laws.{TableLaws, PutRow, RowLaws, SameRows}
use webrana_infinimail_backe.Prelude.{
  String, ℕ, Bool, List, if◌then◌else◌, ◌≡◌, Option, ◌++◌, arith, ◌≢◌, inl, inr, ◌∙◌, ap,
}
use webrana_infinimail_backe.Text.{Bytes, codes}
use webrana_infinimail_backe.Effect.{
  Err, ok, err, Action, duplicate_entry, wrap, or_else, or_wrap, ◌>>=◌,
}
use webrana_infinimail_backe.Models.{Domain}
use webrana_infinimail_backe.Repository.{GormTable, is_duplicate_key_error, read_error, check_rows}

-- the interface `DomainRepository`, which the services take
pub record DomainRepository (W : Type 0) : Type 0 where
  pub create : Domain → Action W Domain
  pub get_by_id : ℕ → Action W Domain
  pub get_by_name : Bytes → Action W Domain
  pub list : Bool → Action W (List Domain)
  pub update : Domain → Action W (Unit {0})
  pub delete : ℕ → Action W (Unit {0})

-- the calls of gorm on the table `domains`
pub record DomainTable (W : Type 0) : Type 0 where
  pub table : GormTable W Domain
  -- `Where("name = ?", name).First`
  pub first_by_name : Bytes → Action W Domain
  -- `Order("name ASC").Find`, and with `Where("is_active = ?", true)`
  pub find_all : Action W (List Domain)
  pub find_active : Action W (List Domain)

-- the error of `Create` and `Update`
unfoldable pub write_error : String → Domain → Err → Err
unfolding codes is_duplicate_key_error
write_error text d e =
    if is_duplicate_key_error e
    then wrap (codes "domain with name '" ++ d.name ++ codes "' already exists") duplicate_entry
    else wrap (codes text) e

module _ {W : Type 0} (db : DomainTable W) where
  unfoldable pub create : Domain → Action W Domain
  unfolding write_error
  create d = or_else (db.table.create d) (write_error "failed to create domain" d)

  unfoldable pub get_by_id : ℕ → Action W Domain
  unfolding codes read_error
  get_by_id i = or_else (db.table.first i) (read_error (codes "failed to get domain by ID"))

  unfoldable pub get_by_name : Bytes → Action W Domain
  unfolding codes read_error
  get_by_name name =
      or_else (db.first_by_name name) (read_error (codes "failed to get domain by name"))

  unfoldable pub list : Bool → Action W (List Domain)
  unfolding codes
  list active_only =
      or_wrap (if active_only then db.find_active else db.find_all) "failed to list domains"

  unfoldable pub update : Domain → Action W (Unit {0})
  unfolding write_error check_rows
  update d = do
    n ← or_else (db.table.save d) (write_error "failed to update domain" d)
    check_rows n

  unfoldable pub delete : ℕ → Action W (Unit {0})
  unfolding codes check_rows
  delete i = do n ← or_wrap (db.table.delete i) "failed to delete domain"; check_rows n

  -- `NewDomainRepository`
  unfoldable pub domain_repository : DomainRepository W
  unfolding create get_by_id get_by_name list update delete
  domain_repository = record {
    create = create;
    get_by_id = get_by_id;
    get_by_name = get_by_name;
    list = list;
    update = update;
    delete = delete;
  }

-- The repository over a table that behaves as gorm documents.
module _ {W : Type 0} (db : DomainTable W) (row : W → ℕ → Option Domain)
    (laws : TableLaws (λ d. d.id) row db.table.first db.table.save) where
  check_rows-ok : (n : ℕ) {w w' : W} → check_rows n w ≡ (ok tt, w') → (n ≢ 0) × (w ≡ w')
  unfolding check_rows
  check_rows-ok n h = ground arith

  check_rows-err : (n : ℕ) {w w' : W} {e : Err} → check_rows n w ≡ (err e, w') → (n ≡ 0) × (w ≡ w')
  unfolding check_rows
  check_rows-err n h = ground arith

  update-ok : (w w' : W) (d : Domain) → update db d w ≡ (ok tt, w') → PutRow row d.id d w w'
  unfolding update
  update-ok w w' d h = elim (outcome_cases (db.table.save d) w) [
    | inl (n, v, p) ↦
        let c = check_rows-ok n (rw p at h) in λ j. rw (← c.1) (laws.save_ok w v d n p c.0 j)
    | inr (e, v, p) ↦ cc (rw p at h)
  ]

  update-err : (w w' : W) (d : Domain) (e : Err) → update db d w ≡ (err e, w') → SameRows row w w'
  unfolding update
  update-err w w' d e h = elim (outcome_cases (db.table.save d) w) [
    | inl (n, v, p) ↦
        let c = check_rows-err n (rw p at h) in
        λ j. rw (← c.1) (laws.save_zero w v d (p ∙ ap (λ (k : ℕ). (ok k, v)) c.0) j)
    | inr (x, v, p) ↦ let q : v ≡ w' = cc (rw p at h) in λ j. rw (← q) (laws.save_err w v d x p j)
  ]

  get-first :
      (w w' : W) (i : ℕ) (d : Domain)
      → get_by_id db i w ≡ (ok d, w')
      → db.table.first i w ≡ (ok d, w')
  unfolding get_by_id
  get-first w w' i d h = ground arith

  get-world : (w : W) (i : ℕ) → (get_by_id db i w).1 ≡ (db.table.first i w).1
  unfolding get_by_id
  get-world w i = ground arith

  -- Reads, updates and failures of the repository behave as `RowLaws` says.
  pub domain_repository-RowLaws :
      RowLaws
        (λ (d : Domain). d.id)
        row
        (domain_repository db).get_by_id
        (domain_repository db).update
  unfolding domain_repository
  domain_repository-RowLaws = record {
    get_ok = λ w w' i r h. laws.first_ok w w' i r (get-first w w' i r h);
    get_same = λ w i. rw (get-world w i) (laws.first_same w i);
    update_ok = update-ok;
    update_err = update-err;
    keyed = laws.keyed;
  }
