-- ===== src/Api/Mail/Messages.antt =====
-- internal/api/handlers/message_handler.go and attachment_handler.go
use webrana_infinimail_backe.Effect.{Action}
use webrana_infinimail_backe.Models.{Message, Attachment}
use webrana_infinimail_backe.Repository.Attachments.{AttachmentRepository}
use webrana_infinimail_backe.Api.Mail.{with_number, failing, absent_or, page_limit, page_offset}
use webrana_infinimail_backe.Repository.Mailboxes.{MailboxRepository}
use webrana_infinimail_backe.Api.{
  success, Handler, calling, success_with_message, no_content, respond, no_body, attachments_body,
  attachment_body, file_reply, paginated, message_body, messages_body,
}
use webrana_infinimail_backe.Text.{codes, Bytes}
use webrana_infinimail_backe.Repository.Messages.{MessageRepository}
use webrana_infinimail_backe.Prelude.{true, ℕ, List, if◌then◌else◌}

-- `MessageHandler` and `AttachmentHandler`. `read_file` is `Get` of the file storage with the reading
-- of the file, and `send` the copy to the response.
pub record MessageHandler (W : Type 0) : Type 0 where
  pub messages : MessageRepository W
  pub mailboxes : MailboxRepository W
  pub attachments : AttachmentRepository W
  pub read_file : Bytes → Action W Bytes
  pub send : Bytes → Action W (Unit {0})

module _ {W : Type 0} (h : MessageHandler W) where
  -- `MessageHandler.List`, with the query parameters
  unfoldable pub list_messages_handler : Bytes → Bytes → Bytes → Handler W
  unfolding codes with_number absent_or page_limit page_offset failing paginated
  list_messages_handler param limit offset = with_number (codes "invalid mailbox ID") param λ i.
      calling (h.mailboxes.get_by_id i)
        (absent_or (codes "mailbox not found") (codes "failed to get mailbox"))
        λ m.
          calling (h.messages.list_by_mailbox i (page_limit limit) (page_offset offset))
            (failing (codes "failed to list messages"))
            λ page.
              respond
                (paginated (messages_body page.0) page.1 (page_limit limit) (page_offset offset))

  -- a message that is not read yet is marked, and shown as read whether that failed or not
  unfoldable pub show_message : ℕ → Message × List Attachment → Handler W
  unfolding success
  show_message i found w =
      if found.0.is_read then (success (message_body found.0 found.1), w) else (
        success (message_body (record found.0 { is_read = true }) found.1),
        (h.messages.mark_as_read i w).1,
      )

  -- `MessageHandler.Get`
  unfoldable pub get_message_handler : Bytes → Handler W
  unfolding codes with_number absent_or show_message
  get_message_handler param = with_number (codes "invalid message ID") param λ i.
      calling (h.messages.get_by_id i)
        (absent_or (codes "message not found") (codes "failed to get message")) (show_message i)

  -- `MarkAsRead`
  unfoldable pub mark_message_handler : Bytes → Handler W
  unfolding codes with_number absent_or success_with_message
  mark_message_handler param = with_number (codes "invalid message ID") param λ i.
      calling (h.messages.mark_as_read i)
        (absent_or (codes "message not found") (codes "failed to mark message as read"))
        λ u. respond (success_with_message no_body (codes "message marked as read"))

  -- `MessageHandler.Delete`
  unfoldable pub delete_message_handler : Bytes → Handler W
  unfolding codes with_number absent_or no_content
  delete_message_handler param = with_number (codes "invalid message ID") param λ i.
      calling (h.messages.delete i)
        (absent_or (codes "message not found") (codes "failed to delete message"))
        λ u. respond no_content

  -- `AttachmentHandler.List`
  unfoldable pub list_attachments_handler : Bytes → Handler W
  unfolding codes with_number absent_or failing success
  list_attachments_handler param = with_number (codes "invalid message ID") param λ i.
      calling (h.messages.get_by_id i)
        (absent_or (codes "message not found") (codes "failed to get message"))
        λ m.
          calling (h.attachments.list_by_message i) (failing (codes "failed to list attachments"))
            λ found. respond (success (attachments_body found))

  -- the row of an attachment
  unfoldable pub find_attachment : Bytes → (Attachment → Handler W) → Handler W
  unfolding codes with_number absent_or
  find_attachment param k = with_number (codes "invalid attachment ID") param λ i.
      calling (h.attachments.get_by_id i)
        (absent_or (codes "attachment not found") (codes "failed to get attachment")) k

  -- `AttachmentHandler.Get`
  unfoldable pub get_attachment_handler : Bytes → Handler W
  unfolding find_attachment success
  get_attachment_handler param = find_attachment param λ a. respond (success (attachment_body a))

  -- `Download`
  unfoldable pub download_handler : Bytes → Handler W
  unfolding codes find_attachment failing
  download_handler param = find_attachment param λ a.
      calling (h.read_file a.file_path) (failing (codes "failed to retrieve file")) λ content.
        calling (h.send content) (failing (codes "failed to send file"))
          λ u. respond (file_reply a content)
