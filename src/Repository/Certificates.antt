-- ===== src/Repository/Certificates.antt =====
-- internal/repository/certificate_repository.go
use webrana_infinimail_backe.Text.Decimal.{decimal}
use webrana_infinimail_backe.Effect.{
  Action, or_else, ok, Err, or_wrap, ◌>>=◌, wrap, pure, reads, duplicate_entry,
}
use webrana_infinimail_backe.Text.{codes, Bytes}
use webrana_infinimail_backe.Prelude.{ℕ, ◌≡◌, List, if◌then◌else◌, ◌++◌, ◌+◌, ◌*◌}
use webrana_infinimail_backe.Repository.{GormTable, is_duplicate_key_error, read_error, check_rows}
use webrana_infinimail_backe.Models.{DomainCertificate}

-- the interface `CertificateRepository`, which the services take
pub record CertificateRepository (W : Type 0) : Type 0 where
  pub create : DomainCertificate → Action W DomainCertificate
  pub get_by_id : ℕ → Action W DomainCertificate
  pub get_by_domain_id : ℕ → Action W DomainCertificate
  pub get_by_domain_name : Bytes → Action W DomainCertificate
  pub update : DomainCertificate → Action W (Unit {0})
  pub delete : ℕ → Action W (Unit {0})
  pub delete_by_domain_id : ℕ → Action W (Unit {0})
  pub get_expiring_certificates : ℕ → Action W (List DomainCertificate)
  pub get_all_with_auto_renew : Action W (List DomainCertificate)
  pub list : Action W (List DomainCertificate)

-- the calls of gorm on the table `domain_certificates`
pub record CertificateTable (W : Type 0) : Type 0 where
  pub table : GormTable W DomainCertificate
  pub first_by_domain_id : ℕ → Action W DomainCertificate
  pub first_by_domain_name : Bytes → Action W DomainCertificate
  -- `Where("domain_id = ?", id).Delete`
  pub delete_where_domain_id : ℕ → Action W ℕ
  -- `Where("expires_at <= ? AND expires_at > ?", threshold, now)`
  pub find_expiring : ℕ → ℕ → Action W (List DomainCertificate)
  pub find_auto_renew : Action W (List DomainCertificate)
  pub find_all : Action W (List DomainCertificate)

abbrev pub seconds_per_day : ℕ
seconds_per_day = 86400

unfoldable pub write_error : DomainCertificate → Err → Err
unfolding codes is_duplicate_key_error decimal
write_error c e =
    if is_duplicate_key_error e
    then wrap (codes "certificate for domain ID " ++ decimal c.domain_id ++ codes " already exists")
        duplicate_entry
    else wrap (codes "failed to create certificate") e

module _ {W : Type 0} (db : CertificateTable W) (now : W → ℕ) where
  unfoldable pub create : DomainCertificate → Action W DomainCertificate
  unfolding write_error
  create c = or_else (db.table.create c) (write_error c)

  unfoldable pub get_by_id : ℕ → Action W DomainCertificate
  unfolding codes read_error
  get_by_id i = or_else (db.table.first i) (read_error (codes "failed to get certificate by ID"))

  unfoldable pub get_by_domain_id : ℕ → Action W DomainCertificate
  unfolding codes read_error
  get_by_domain_id i =
      or_else (db.first_by_domain_id i)
        (read_error (codes "failed to get certificate by domain ID"))

  unfoldable pub get_by_domain_name : Bytes → Action W DomainCertificate
  unfolding codes read_error
  get_by_domain_name name =
      or_else (db.first_by_domain_name name)
        (read_error (codes "failed to get certificate by domain name"))

  unfoldable pub update : DomainCertificate → Action W (Unit {0})
  unfolding codes check_rows
  update c = do n ← or_wrap (db.table.save c) "failed to update certificate"; check_rows n

  unfoldable pub delete : ℕ → Action W (Unit {0})
  unfolding codes check_rows
  delete i = do n ← or_wrap (db.table.delete i) "failed to delete certificate"; check_rows n

  -- No check of the rows affected here.
  unfoldable pub delete_by_domain_id : ℕ → Action W (Unit {0})
  unfolding codes
  delete_by_domain_id i = do
    n ← or_wrap (db.delete_where_domain_id i) "failed to delete certificate by domain ID"
    pure tt

  unfoldable pub get_expiring_certificates : ℕ → Action W (List DomainCertificate)
  unfolding codes
  get_expiring_certificates days = do
    threshold ← reads (λ w. now w + days * seconds_per_day)
    time ← reads now
    or_wrap (db.find_expiring threshold time) "failed to get expiring certificates"

  unfoldable pub get_all_with_auto_renew : Action W (List DomainCertificate)
  unfolding codes
  get_all_with_auto_renew = or_wrap db.find_auto_renew "failed to get auto-renew certificates"

  unfoldable pub list : Action W (List DomainCertificate)
  unfolding codes
  list = or_wrap db.find_all "failed to list certificates"

  -- `NewCertificateRepository`
  unfoldable pub certificate_repository : CertificateRepository W
  unfolding create get_by_id get_by_domain_id get_by_domain_name update delete delete_by_domain_id
      get_expiring_certificates get_all_with_auto_renew list
  certificate_repository = record {
    create = create;
    get_by_id = get_by_id;
    get_by_domain_id = get_by_domain_id;
    get_by_domain_name = get_by_domain_name;
    update = update;
    delete = delete;
    delete_by_domain_id = delete_by_domain_id;
    get_expiring_certificates = get_expiring_certificates;
    get_all_with_auto_renew = get_all_with_auto_renew;
    list = list;
  }

  -- An absent certificate row is no error for `DeleteByDomainID`, unlike for `Delete`.
  delete_absent :
      (w w' : W) (i : ℕ)
      → db.delete_where_domain_id i w ≡ (ok 0, w')
      → certificate_repository.delete_by_domain_id i w ≡ (ok tt, w')
  unfolding certificate_repository
  delete_absent w w' i h = rw h
