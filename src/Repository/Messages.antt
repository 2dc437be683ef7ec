-- ===== src/Repository/Messages.antt =====
-- internal/repository/message_repository.go
pub mod Transaction
use webrana_infinimail_backe.Effect.{Action, or_wrap, pure, or_else, ◌>>=◌, ◌>>◌}
use webrana_infinimail_backe.Text.{codes}
use webrana_infinimail_backe.Repository.{GormTable, read_error, check_rows}
use webrana_infinimail_backe.Models.{Message, Attachment}
use webrana_infinimail_backe.Prelude.{[], true, false, ◌∷◌, ℕ, List}

-- `MessageListItem`, the row of a page
pub record MessageListItem : Type 0 where
  pub message : Message
  pub attachment_count : ℕ

pub record MessageRepository (W : Type 0) : Type 0 where
  pub create : Message → Action W Message
  pub create_with_attachments : Message → List Attachment → Action W Message
  pub get_by_id : ℕ → Action W (Message × List Attachment)
  pub list_by_mailbox : ℕ → ℕ → ℕ → Action W (List MessageListItem × ℕ)
  pub mark_as_read : ℕ → Action W (Unit {0})
  pub delete : ℕ → Action W (Unit {0})
  pub count_unread : ℕ → Action W ℕ

-- the calls of gorm on the tables `messages` and `attachments`
pub record MessageTable (W : Type 0) : Type 0 where
  pub table : GormTable W Message
  pub attachments : GormTable W Attachment
  -- `Transaction` of a function that creates a message
  pub transaction : Action W Message → Action W Message
  -- `Preload("Attachments").First(&message, id)`
  pub first_with_attachments : ℕ → Action W (Message × List Attachment)
  -- `Where("mailbox_id = ?", id).Count`, and the query of a page with its limit and offset
  pub count_by_mailbox : ℕ → Action W ℕ
  pub page_by_mailbox : ℕ → ℕ → ℕ → Action W (List MessageListItem)
  -- `Where("id = ?", id).Update("is_read", true)`, `RowsAffected`
  pub update_is_read : ℕ → Action W ℕ
  -- `Where("mailbox_id = ? AND is_read = ?", id, false).Count`
  pub count_unread_by_mailbox : ℕ → Action W ℕ

module _ {W : Type 0} (db : MessageTable W) where
  unfoldable pub create : Message → Action W Message
  unfolding codes
  create m = or_wrap (db.table.create m) "failed to create message"

  -- the loop over the attachments
  unfoldable pub create_rows : ℕ → List Attachment → Action W (Unit {0})
  unfolding codes
  create_rows i [] = pure tt
  create_rows i (a ∷ others) =
      or_wrap (db.attachments.create (record a { message_id = i })) "failed to create attachment"
      >> create_rows i others

  -- the function that runs in the transaction
  unfoldable pub create_both : Message → List Attachment → Action W Message
  unfolding codes create_rows
  create_both message attachments = do
    m ← or_wrap (db.table.create message) "failed to create message"
    create_rows m.id attachments
    pure m

  unfoldable pub create_with_attachments : Message → List Attachment → Action W Message
  unfolding create_both
  create_with_attachments message attachments = db.transaction (create_both message attachments)

  unfoldable pub get_by_id : ℕ → Action W (Message × List Attachment)
  unfolding codes read_error
  get_by_id i =
      or_else (db.first_with_attachments i) (read_error (codes "failed to get message by ID"))

  unfoldable pub list_by_mailbox : ℕ → ℕ → ℕ → Action W (List MessageListItem × ℕ)
  unfolding codes
  list_by_mailbox i limit offset = do
    total ← or_wrap (db.count_by_mailbox i) "failed to count messages"
    results ← or_wrap (db.page_by_mailbox i limit offset) "failed to list messages"
    pure (results, total)

  unfoldable pub mark_as_read : ℕ → Action W (Unit {0})
  unfolding codes check_rows
  mark_as_read i = do
    n ← or_wrap (db.update_is_read i) "failed to mark message as read"
    check_rows n

  unfoldable pub delete : ℕ → Action W (Unit {0})
  unfolding codes check_rows
  delete i = do n ← or_wrap (db.table.delete i) "failed to delete message"; check_rows n

  unfoldable pub count_unread : ℕ → Action W ℕ
  unfolding codes
  count_unread i = or_wrap (db.count_unread_by_mailbox i) "failed to count unread messages"

  -- `NewMessageRepository`
  unfoldable pub message_repository : MessageRepository W
  unfolding create create_with_attachments get_by_id list_by_mailbox mark_as_read delete
      count_unread
  message_repository = record {
    create = create;
    create_with_attachments = create_with_attachments;
    get_by_id = get_by_id;
    list_by_mailbox = list_by_mailbox;
    mark_as_read = mark_as_read;
    delete = delete;
    count_unread = count_unread;
  }
