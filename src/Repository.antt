-- ===== src/Repository.antt =====
-- internal/repository over gorm. gorm is a parameter: the calls that the code makes of it, for the
-- table at hand. `First` gives `record_not_found` for a missing row, and `Save` and `Delete` give
-- the number of rows affected.
pub mod Laws
pub mod Domains
pub mod Certificates
pub mod Mailboxes
pub mod Messages
pub mod Attachments
use webrana_infinimail_backe.Prelude.{ℕ, Bool, true, false, ◌||◌, Option, if◌then◌else◌, ◌==◌}
use webrana_infinimail_backe.Text.{Bytes, codes, contains}
use webrana_infinimail_backe.Effect.{
  Err, not_found, wrap, Action, is_record_not_found, error_text, raise, pure, ◌>>=◌,
}

pub record GormTable (W Row : Type 0) : Type 0 where
  -- `Create(&row)`, with the identifier that the database gives
  pub create : Row → Action W Row
  -- `First(&row, id)`
  pub first : ℕ → Action W Row
  -- `Save(&row)`, `RowsAffected`
  pub save : Row → Action W ℕ
  -- `Delete(&Row{}, id)`, `RowsAffected`
  pub delete : ℕ → Action W ℕ

-- `isDuplicateKeyError`
unfoldable pub is_duplicate_key_error : Err → Bool
unfolding codes contains error_text
is_duplicate_key_error e =
    contains (error_text e) (codes "duplicate key")
    || contains (error_text e) (codes "UNIQUE constraint")
    || contains (error_text e) (codes "23505")

-- The error of a query for one row.
unfoldable pub read_error : Bytes → Err → Err
unfolding is_record_not_found
read_error text e = if is_record_not_found e then not_found else wrap text e

-- `if result.RowsAffected == 0 { return ErrNotFound }`
unfoldable pub check_rows : {W : Type 0} → ℕ → Action W (Unit {0})
check_rows n = if n == 0 then raise not_found else pure tt
