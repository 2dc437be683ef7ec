-- ===== src/Smtp.antt =====
-- internal/smtp: the session of the SMTP server, session.go, with what it uses of backend.go and
-- parser.go. The reading of an email is a parameter of the session; Parser has ParseEmail, over the
-- reading of its envelope. Log calls are left out.
pub mod Startup
pub mod Server
pub mod Parser
pub mod Address
pub mod RoundTrip
pub mod Commands
pub mod Recipients
pub mod Delivery
pub mod Attachments
pub mod Stored
pub mod Certificates
pub mod Handshake
pub mod Snippet
use webrana_infinimail_backe.Models.{Message, Attachment}
use webrana_infinimail_backe.Repository.Mailboxes.{MailboxRepository}
use webrana_infinimail_backe.Prelude.{ℕ, List, Option, Bool}
use webrana_infinimail_backe.Repository.Domains.{DomainRepository}
use webrana_infinimail_backe.Effect.{Result, Action}
use webrana_infinimail_backe.Text.{Bytes}

-- parser.go: `ParsedAttachment`. `content` is what its reader still has.
pub record ParsedAttachment : Type 0 where
  pub filename : Bytes
  pub content_type : Bytes
  pub content : Bytes
  pub size : ℕ

-- parser.go: `ParsedEmail`
pub record ParsedEmail : Type 0 where
  pub sender_email : Bytes
  pub sender_name : Bytes
  pub subject : Bytes
  pub snippet : Bytes
  pub body_text : Bytes
  pub body_html : Bytes
  pub attachments : List ParsedAttachment

-- The outcome of `Save` of the file storage: the path or an error, and what the reader has left.
pub record Saved : Type 0 where
  pub path : Result Bytes
  pub rest : Bytes

-- backend.go: `Backend`, with the calls that the session makes. `broadcast` is
-- `BroadcastNewMessage`, if a hub is set.
pub record Backend (W : Type 0) : Type 0 where
  pub domains : DomainRepository W
  pub mailboxes : MailboxRepository W
  -- `CreateWithAttachments` of the message repository, which fills in the message's identifier
  pub create_with_attachments : Message → List Attachment → Action W Message
  pub save_file : Bytes → Bytes → W → Saved × W
  pub parse_email : Bytes → Result ParsedEmail
  pub broadcast : Option (ℕ → Message → W → W)
  pub auto_provision : Bool

-- session.go: `Session`
pub record Session : Type 0 where
  pub from : Bytes
  pub recipients : List Bytes

-- A nil error, or an `SMTPError` with its code and message.
pub data Reply : Type 0 where
  accepted : Reply
  refused : ℕ → Bytes → Reply
