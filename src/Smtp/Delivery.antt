-- ===== src/Smtp/Delivery.antt =====
-- internal/smtp/session.go: DATA. The readers of the attachments are shared by all recipients: what
-- one delivery has read is gone for the next.
use webrana_infinimail_backe.Smtp.Address.{parse_email_address}
use webrana_infinimail_backe.Text.{Bytes, codes, is_empty}
use webrana_infinimail_backe.Models.{Mailbox, Attachment, Message}
use webrana_infinimail_backe.Smtp.{
  ParsedAttachment, Backend, ParsedEmail, Session, Reply, refused, accepted,
}
use webrana_infinimail_backe.Effect.{ok, err, Result, Action, ◌>>=◌, or_wrap, pure, changes}
use webrana_infinimail_backe.Prelude.{
  [], true, false, none, some, ◌∷◌, List, Option, if◌then◌else◌, ℕ, Bool, ◌++◌,
}

-- the row of a saved attachment, and none of one that could not be saved
unfoldable pub attachment_rows : ParsedAttachment → Result Bytes → List Attachment
attachment_rows a (ok path) =
    record {
      id = 0;
      message_id = 0;
      filename = a.filename;
      content_type = a.content_type;
      file_path = path;
      size_bytes = a.size;
    }
    ∷ []
attachment_rows a (err e) = []

abbrev pub consumed : ParsedAttachment → Bytes → ParsedAttachment
consumed a rest = record a { content = rest }

abbrev pub message_for : Mailbox → ParsedEmail → Message
message_for mailbox e = record {
  id = 0;
  mailbox_id = mailbox.id;
  sender_email = e.sender_email;
  sender_name = e.sender_name;
  subject = e.subject;
  snippet = e.snippet;
  body_text = e.body_text;
  body_html = e.body_html;
  is_read = false;
}

-- the envelope's sender, if the headers have none
abbrev pub with_sender : Bytes → ParsedEmail → ParsedEmail
with_sender from e = record e {
  sender_email = if is_empty e.sender_email then from else e.sender_email;
}

module _ {W : Type 0} (b : Backend W) where
  -- the loop over the attachments: their rows, and the attachments with what their readers have left
  unfoldable pub store_attachments :
      List ParsedAttachment → W → (List Attachment × List ParsedAttachment) × W
  unfolding attachment_rows
  store_attachments [] w = (([], []), w)
  store_attachments (a ∷ others) w =
      let (saved, v) = b.save_file a.filename a.content w in
      let (after, u) = store_attachments others v in
      ((attachment_rows a saved.path ++ after.0, consumed a saved.rest ∷ after.1), u)

  unfoldable pub find_mailbox : Bytes → Action W Mailbox
  unfolding codes parse_email_address
  find_mailbox recipient = do
    parts ← (λ w. (parse_email_address recipient, w))
    domain ← or_wrap (b.domains.get_by_name parts.1) "failed to get domain"
    found ←
        or_wrap (b.mailboxes.get_or_create parts.0 domain.id domain.name)
          "failed to get/create mailbox"
    pure found.0

  unfoldable pub notify : Option (ℕ → Message → W → W) → ℕ → Message → W → W
  notify none mailbox_id m w = w
  notify (some broadcast) mailbox_id m w = broadcast mailbox_id m w

  -- the message and its rows, then the notification
  unfoldable pub store_message : Mailbox → ParsedEmail → List Attachment → Action W (Unit {0})
  unfolding codes notify
  store_message mailbox e rows = do
    m ← or_wrap (b.create_with_attachments (message_for mailbox e) rows) "failed to create message"
    changes (notify b.broadcast mailbox.id m)

  -- `processEmail`, with the email whose readers have moved
  unfoldable pub deliver_to :
      ParsedEmail → Result Mailbox × W → (Result (Unit {0}) × ParsedEmail) × W
  unfolding store_attachments store_message
  deliver_to e (err x, w) = ((err x, e), w)
  deliver_to e (ok mailbox, w) =
      let (stored, v) = store_attachments e.attachments w in
      let (r, u) = store_message mailbox e stored.0 v in
      ((r, record e { attachments = stored.1 }), u)

  unfoldable pub process_email : Bytes → ParsedEmail → W → (Result (Unit {0}) × ParsedEmail) × W
  unfolding find_mailbox deliver_to
  process_email recipient e w = deliver_to e (find_mailbox recipient w)

  -- the loop over the recipients, which goes on after an error
  unfoldable pub process_all : List Bytes → ParsedEmail → W → W
  unfolding process_email
  process_all [] e w = w
  process_all (recipient ∷ recipients) e w =
      let (done, v) = process_email recipient e w in process_all recipients done.1 v

  unfoldable pub data_parsed : Session → Result ParsedEmail → W → Reply × W
  unfolding codes process_all
  data_parsed s (err e) w = (refused 550 (codes "Failed to parse email"), w)
  data_parsed s (ok e) w = (accepted, process_all s.recipients (with_sender s.from e) w)

  unfoldable pub no_recipients : List Bytes → Bool
  no_recipients [] = true
  no_recipients (r ∷ rs) = false

  -- `Data`
  unfoldable pub data_command : Session → Bytes → W → Reply × W
  unfolding codes no_recipients data_parsed
  data_command s input w =
      if no_recipients s.recipients
      then (refused 503 (codes "No recipients specified"), w)
      else data_parsed s (b.parse_email input) w
