-- ===== src/Repository/Attachments.antt =====
-- internal/repository/attachment_repository.go

use webrana_infinimail_backe.Effect.{Action, or_wrap, or_else, pure, ◌>>=◌, ◌>>◌, ignore}
use webrana_infinimail_backe.Text.{codes, Bytes, is_empty}
use webrana_infinimail_backe.Repository.{GormTable, read_error}
use webrana_infinimail_backe.Models.{Attachment}
use webrana_infinimail_backe.Prelude.{none, some, Option, ℕ, List, if◌then◌else◌}

pub record AttachmentRepository (W : Type 0) : Type 0 where
  pub create : Attachment → Action W Attachment
  pub get_by_id : ℕ → Action W Attachment
  pub list_by_message : ℕ → Action W (List Attachment)
  pub delete : ℕ → Action W (Unit {0})

-- the calls of gorm on the table `attachments`, and of the file storage, if there is one
pub record AttachmentTable (W : Type 0) : Type 0 where
  pub table : GormTable W Attachment
  -- `Where("message_id = ?", id).Find`
  pub find_by_message : ℕ → Action W (List Attachment)
  pub delete_file : Option (Bytes → Action W (Unit {0}))

module _ {W : Type 0} (db : AttachmentTable W) where
  unfoldable pub create : Attachment → Action W Attachment
  unfolding codes
  create a = or_wrap (db.table.create a) "failed to create attachment"

  unfoldable pub get_by_id : ℕ → Action W Attachment
  unfolding codes read_error
  get_by_id i = or_else (db.table.first i) (read_error (codes "failed to get attachment by ID"))

  unfoldable pub list_by_message : ℕ → Action W (List Attachment)
  unfolding codes
  list_by_message i = or_wrap (db.find_by_message i) "failed to list attachments"

  -- the file goes last, and its error is dropped
  unfoldable pub remove_file : Option (Bytes → Action W (Unit {0})) → Bytes → Action W (Unit {0})
  remove_file none path = pure tt
  remove_file (some remove) path = if is_empty path then pure tt else ignore (remove path)

  unfoldable pub delete : ℕ → Action W (Unit {0})
  unfolding codes get_by_id remove_file
  delete i = do
    attachment ← get_by_id i
    or_wrap (db.table.delete i) "failed to delete attachment"
    remove_file db.delete_file attachment.file_path

  -- `NewAttachmentRepository`
  unfoldable pub attachment_repository : AttachmentRepository W
  unfolding create get_by_id list_by_message delete
  attachment_repository = record {
    create = create;
    get_by_id = get_by_id;
    list_by_message = list_by_message;
    delete = delete;
  }
