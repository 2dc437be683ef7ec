-- ===== src/Tests/Mail.antt =====
-- The mailbox repository and the SMTP session on a world with one active domain.
use webrana_infinimail_backe.Smtp.Stored.{GivesAddress, IsFound, IsStored, process_email-stores}
use webrana_infinimail_backe.Smtp.Recipients.{Outcome, rcpt-Outcome}
use webrana_infinimail_backe.Smtp.RoundTrip.{address_of, Plain, parse-address_of}
use webrana_infinimail_backe.Text.Trim.{is_space}
use webrana_infinimail_backe.Text.Case.{lower}
use webrana_infinimail_backe.Repository.Domains.{domain_repository}
use webrana_infinimail_backe.Smtp.Address.{parse_email_address, Normal}
use webrana_infinimail_backe.Text.{codes}
use webrana_infinimail_backe.Smtp.Delivery.{find_mailbox, process_email, process_all}
use webrana_infinimail_backe.Smtp.Commands.{rcpt, new_session, add_recipient}
use webrana_infinimail_backe.Smtp.Attachments.{ReadsAll, emptied, process_all-drains}
use webrana_infinimail_backe.Smtp.{Backend, Reply, ParsedEmail, Session, accepted}
use webrana_infinimail_backe.Models.{Mailbox, active, status_eq}
use webrana_infinimail_backe.Repository.Mailboxes.{
  MailboxTable, MailboxLaws, get_or_create, get_or_create-address, mailbox_repository,
}
use webrana_infinimail_backe.Tests.World.{World, world_in, domain_table, one_row, find}
use webrana_infinimail_backe.Effect.{ok, err, record_not_found}
use webrana_infinimail_backe.Prelude.{[], true, none, refl, ◌∷◌, ◌≡◌, ◌++◌, arith}

abbrev pub active_world : World
active_world = world_in active

abbrev mailbox_table : MailboxTable World
mailbox_table = record {
  table = record {
    create = λ m w. (ok (record m { id = 3 }), w);
    first = λ i w. (err record_not_found, w);
    save = λ m w. (ok 1, w);
    delete = λ i w. (ok 0, w);
  };
  first_by_address = λ a w. (err record_not_found, w);
  count_by_domain = λ i w. (ok 0, w);
  page_by_domain = λ i limit offset w. (ok [], w);
  update_last_accessed_at = λ i time w. (ok 0, w);
}

mailbox_table-MailboxLaws : MailboxLaws mailbox_table
mailbox_table-MailboxLaws = record {
  address_of_first = λ w w' a m h. cc h;
  row_of_create = λ w w' m r h. cc h;
}

abbrev pub new_box : Mailbox
new_box = record {
  id = 3;
  local_part = codes "bob";
  domain_id = 1;
  full_address = codes "bob@a.test";
  last_accessed_at = none;
}

get_or_create_runs :
    get_or_create mailbox_table (λ w. w.time) (codes "bob") 1 (codes "a.test") active_world
    ≡ (ok (new_box, true), active_world)
unfolding get_or_create
get_or_create_runs = refl

-- Files are saved under one name.
abbrev pub backend : Backend World
backend = record {
  domains = domain_repository domain_table;
  mailboxes = mailbox_repository mailbox_table (λ w. w.time);
  create_with_attachments = λ m rows w. (ok (record m { id = 9 }), w);
  save_file = λ name content w. (record { path = ok (codes "f"); rest = [] }, w);
  parse_email = λ input. ok (record {
    sender_email = [];
    sender_name = [];
    subject = [];
    snippet = [];
    body_text = input;
    body_html = [];
    attachments = [];
  });
  broadcast = none;
  auto_provision = true;
}

backend-ReadsAll : ReadsAll backend
backend-ReadsAll name content path w saved = refl

rcpt_runs :
    (rcpt backend (codes "<Bob@A.test>") new_session active_world).0
    ≡ ok (accepted, add_recipient (codes "<Bob@A.test>") new_session)
unfolding rcpt domain_repository one_row find status_eq
rcpt_runs = refl

rcpt-Outcome_example :
    (out : Reply × Session) × ((rcpt backend (codes "<Bob@A.test>") new_session active_world).0
      ≡ ok out)
    × Outcome backend (codes "<Bob@A.test>") new_session active_world out
rcpt-Outcome_example = rcpt-Outcome backend (codes "<Bob@A.test>") new_session active_world

abbrev email : ParsedEmail
email = record {
  sender_email = codes "eve@b.test";
  sender_name = [];
  subject = codes "hi";
  snippet = [];
  body_text = [];
  body_html = [];
  attachments =
      record {
        filename = codes "a.txt";
        content_type = codes "text/plain";
        content = codes "data";
        size = 4;
      }
      ∷ [];
}

pub find_mailbox_runs :
    find_mailbox backend (codes "bob@a.test") active_world ≡ (ok new_box, active_world)
unfolding find_mailbox domain_repository mailbox_repository one_row find
find_mailbox_runs = refl

email_again : (process_email backend (codes "bob@a.test") email active_world).1 ≡ active_world
unfolding process_email domain_repository mailbox_repository one_row find
email_again = refl

second_runs :
    (process_email backend
      (codes "bob@a.test")
      (process_email backend (codes "bob@a.test") email active_world).0.1
      (process_email backend (codes "bob@a.test") email active_world).1).0.0
    ≡ ok tt
unfolding process_email domain_repository mailbox_repository one_row find
second_runs = refl

process_all-drains_example :
    IsStored backend new_box email
      (emptied email.attachments)
      active_world
      (process_all backend (codes "bob@a.test" ∷ codes "bob@a.test" ∷ []) email active_world)
process_all-drains_example =
    process_all-drains backend backend-ReadsAll (codes "bob@a.test") (codes "bob@a.test") email
      new_box new_box active_world active_world active_world find_mailbox_runs (codes "f", refl, tt)
      (rw email_again find_mailbox_runs) second_runs

bob-Normal : Normal (codes "bob") (codes "a.test")
unfolding codes lower
bob-Normal = (ground arith, ground arith, ground arith)

bob-Plain : Plain (codes "bob") × Plain (codes "a.test")
unfolding codes is_space
bob-Plain = (ground arith, ground arith)

parse-address_of_example :
    (parse_email_address (address_of (codes "bob") (codes "a.test"))
      ≡ ok (codes "bob", codes "a.test"))
    × (parse_email_address (b'<' ∷ address_of (codes "bob") (codes "a.test") ++ b'>' ∷ [])
        ≡ ok (codes "bob", codes "a.test"))
parse-address_of_example =
    parse-address_of (codes "bob") (codes "a.test") bob-Normal bob-Plain.0 bob-Plain.1

parse_runs : parse_email_address (codes "<Bob@A.test>") ≡ ok (codes "bob", codes "a.test")
unfolding codes parse_email_address
parse_runs = refl

pub backend-GivesAddress : GivesAddress backend.mailboxes
unfolding mailbox_repository
backend-GivesAddress w w' l name i m created h =
    get_or_create-address mailbox_table (λ (v : World). v.time) mailbox_table-MailboxLaws w w' l
      name i m created h

delivery_runs : (process_email backend (codes "bob@a.test") email active_world).0.0 ≡ ok tt
unfolding process_email domain_repository mailbox_repository one_row find
delivery_runs = refl

process_email-stores_example :
    (mailbox : Mailbox) × IsFound backend backend-GivesAddress
      (codes "bob@a.test")
      active_world
      mailbox
    × (u : World) × (find_mailbox backend (codes "bob@a.test") active_world ≡ (ok mailbox, u))
    × IsStored backend mailbox email email.attachments u
        (process_email backend (codes "bob@a.test") email active_world).1
process_email-stores_example =
    process_email-stores backend backend-GivesAddress (codes "bob@a.test") email active_world
      delivery_runs
