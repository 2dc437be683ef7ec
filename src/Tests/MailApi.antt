-- ===== src/Tests/MailApi.antt =====
-- The HTTP interface of mailboxes and the storing of messages, over small tables.

use webrana_infinimail_backe.Tests.Mail.{
  new_box, backend, backend-GivesAddress, find_mailbox_runs, active_world,
}
use webrana_infinimail_backe.Text.Split.{Without}
use webrana_infinimail_backe.Repository.Messages.Transaction.{
  StoreLaws, Stored, create_with_attachments_atomic,
}
use webrana_infinimail_backe.Repository.Messages.{MessageTable, create_with_attachments}
use webrana_infinimail_backe.Api.Mail.Reachable.{create_mailbox-unreachable}
use webrana_infinimail_backe.Api.{reply, mailbox_body}
use webrana_infinimail_backe.Repository.Domains.{domain_repository}
use webrana_infinimail_backe.Tests.World.{World, domain_table, one_row, world_in, find}
use webrana_infinimail_backe.Text.{codes, Bytes, is_empty}
use webrana_infinimail_backe.Api.Mail.{page_limit, page_offset}
use webrana_infinimail_backe.Text.Case.{to_lower}
use webrana_infinimail_backe.Api.Mail.Mailboxes.{
  MailboxHandler, MailboxRequest, create_mailbox_handler, create_random_handler,
}
use webrana_infinimail_backe.Repository.Mailboxes.{MailboxRepository}
use webrana_infinimail_backe.Models.{Mailbox, Domain, Message, Attachment, active}
use webrana_infinimail_backe.Effect.{ok, err, not_found, Result, Err, wrap, record_not_found}
use webrana_infinimail_backe.Prelude.{
  [], true, none, some, refl, List, ◌≢◌, ◌≡◌, false, inl, ◌∷◌, ◌+◌, Bool, ◌++◌, ◌⊎◌, ap,
}

abbrev a_mailbox : Mailbox
a_mailbox = record {
  id = 3;
  local_part = codes "Bob";
  domain_id = 1;
  full_address = codes "Bob@a.test";
  last_accessed_at = none;
}

abbrev mailboxes : MailboxRepository World
mailboxes = record {
  create = λ m w. (ok (record m { id = 3 }), w);
  get_by_id = λ i w. (err not_found, w);
  get_by_address = λ a w. (err not_found, w);
  get_or_create = λ l i n w. (err not_found, w);
  list_by_domain = λ i limit offset w. (ok ([], 0), w);
  update_last_accessed = λ i w. (ok tt, w);
  delete = λ i w. (ok tt, w);
}

abbrev handler : MailboxHandler World
handler = record {
  mailboxes = mailboxes;
  domains = domain_repository domain_table;
  random_index = λ n w. (27, w);
}

abbrev request : MailboxRequest
request = record { local_part = codes "Bob"; domain_id = 1 }

create_runs :
    create_mailbox_handler handler (some request) (world_in active)
    ≡ (reply 201 (mailbox_body a_mailbox), world_in active)
unfolding create_mailbox_handler domain_repository one_row find codes
    webrana_infinimail_backe.Models.status_eq
create_runs = refl

not_lower : to_lower request.local_part ≢ request.local_part
unfolding to_lower codes
not_lower h = cc h

bob_single : Without b'@' request.local_part
unfolding codes
bob_single = (refl, (refl, (refl, tt)))

create_mailbox-unreachable_example :
    (domain : Domain) × (u : World) × (handler.domains.get_by_id request.domain_id (world_in active)
      ≡ (ok domain, u))
    × (domain.is_active ≡ true)
    × (a_mailbox.full_address ≡ request.local_part ++ codes "@" ++ domain.name)
    × (new_box.full_address ≢ a_mailbox.full_address)
create_mailbox-unreachable_example =
    create_mailbox-unreachable handler backend (λ v u m n h. cc h) backend-GivesAddress request
      a_mailbox (world_in active) (world_in active) create_runs not_lower bob_single
      (codes "bob@a.test") active_world active_world new_box find_mailbox_runs

random_mailbox :
    (create_random_handler handler (some 1) (world_in active)).0
    ≡ reply 201 (
        mailbox_body (record {
          id = 3;
          local_part = codes "11111111";
          domain_id = 1;
          full_address = codes "11111111@a.test";
          last_accessed_at = none;
        }))
unfolding create_random_handler domain_repository one_row find codes
    webrana_infinimail_backe.Models.status_eq
random_mailbox = refl

limit_of_page : page_limit (codes "-5") + page_offset (codes "+7") ≡ 27
unfolding page_limit page_offset codes
limit_of_page = refl

-- Two tables. A row of attachments without a file name is refused.
record Tables : Type 0 where
  messages : List Message
  rows : List Attachment

abbrev insert_row : Bool → Attachment → Tables → Result Attachment × Tables
insert_row true a t = (err not_found, t)
insert_row false a t =
    (ok (record a { id = 4 }), record t { rows = t.rows ++ record a { id = 4 } ∷ [] })

abbrev transacted : Tables → Result Message × Tables → Result Message × Tables
transacted t (ok m, u) = (ok m, u)
transacted t (err e, u) = (err e, t)

abbrev message_table : MessageTable Tables
message_table = record {
  table = record {
    create = λ m t.
        (ok (record m { id = 9 }), record t { messages = t.messages ++ record m { id = 9 } ∷ [] });
    first = λ i t. (err record_not_found, t);
    save = λ m t. (ok 1, t);
    delete = λ i t. (ok 0, t);
  };
  attachments = record {
    create = λ a t. insert_row (is_empty a.filename) a t;
    first = λ i t. (err record_not_found, t);
    save = λ a t. (ok 1, t);
    delete = λ i t. (ok 0, t);
  };
  transaction = λ m t. transacted t (m t);
  first_with_attachments = λ i t. (err record_not_found, t);
  count_by_mailbox = λ i t. (ok 0, t);
  page_by_mailbox = λ i limit offset t. (ok [], t);
  update_is_read = λ i t. (ok 0, t);
  count_unread_by_mailbox = λ i t. (ok 0, t);
}

insert-ok :
    (b : Bool) (a r : Attachment) (t u : Tables)
    → insert_row b a t ≡ (ok r, u)
    → (r ≡ record a { id = r.id }) × (u.rows ≡ t.rows ++ r ∷ []) × (u.messages ≡ t.messages)
insert-ok true a r t u h = cc h
insert-ok false a r t u h = (cc h, cc h, cc h)

message_table-StoreLaws : StoreLaws message_table (λ t. t.messages) (λ t. t.rows)
message_table-StoreLaws = record {
  create_message = λ t u m r h. (cc h, cc h, cc h);
  create_row = λ t u a r h. insert-ok (is_empty a.filename) a r t u h;
  rolled_back = λ t u m e h. (e, t, ap (transacted t) h, refl, refl);
  committed = λ t u m r h. inl (ap (transacted t) h);
}

abbrev a_message : Message
a_message = record {
  id = 0;
  mailbox_id = 3;
  sender_email = codes "ann@b.test";
  sender_name = [];
  subject = codes "hi";
  snippet = [];
  body_text = [];
  body_html = [];
  is_read = false;
}

abbrev a_file : Bytes → Attachment
a_file name = record {
  id = 0;
  message_id = 0;
  filename = name;
  content_type = codes "text/plain";
  file_path = codes "ab/ab1";
  size_bytes = 3;
}

abbrev empty_tables : Tables
empty_tables = record { messages = []; rows = [] }

abbrev two_files : List Attachment
two_files = a_file (codes "one") ∷ a_file (codes "two") ∷ []

create_with_attachments_atomic_example :
    ((e : Err) × (u : Tables) × (create_with_attachments message_table a_message two_files
          empty_tables
        ≡ (err e, u))
      × (u.messages ≡ [])
      × (u.rows ≡ []))
    ⊎ ((m : Message) × (u : Tables) × (create_with_attachments message_table a_message two_files
            empty_tables
          ≡ (ok m, u))
        × Stored message_table
            (λ t. t.messages)
            (λ t. t.rows)
            message_table-StoreLaws
            a_message
            two_files
            m
            empty_tables
            u)
create_with_attachments_atomic_example =
    create_with_attachments_atomic message_table (λ t. t.messages) (λ t. t.rows)
      message_table-StoreLaws a_message two_files empty_tables

-- The second attachment fails, and the message is gone as well.
undone :
    create_with_attachments message_table a_message
      (a_file (codes "one") ∷ a_file [] ∷ [])
      empty_tables
    ≡ (err (wrap (codes "failed to create attachment") not_found), empty_tables)
unfolding create_with_attachments
undone = refl
