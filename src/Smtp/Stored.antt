-- ===== src/Smtp/Stored.antt =====
-- What a delivery of internal/smtp/session.go that succeeds has stored.
use webrana_infinimail_backe.Effect.Rules.{outcome_cases}
use webrana_infinimail_backe.Smtp.Recipients.{Result-cases}
use webrana_infinimail_backe.Smtp.Address.{parse_email_address}
use webrana_infinimail_backe.Models.{Mailbox, Domain, Message, Attachment}
use webrana_infinimail_backe.Smtp.Delivery.{
  find_mailbox, store_message, process_email, deliver_to, message_for, notify, store_attachments,
  attachment_rows,
}
use webrana_infinimail_backe.Text.{Bytes, codes}
use webrana_infinimail_backe.Smtp.{Backend, ParsedEmail, ParsedAttachment, Saved}
use webrana_infinimail_backe.Repository.Mailboxes.{MailboxRepository}
use webrana_infinimail_backe.Prelude.{
  inl, inr, ℕ, Bool, ◌≡◌, ◌++◌, List, subst, ap, [], false, none, some, refl, ◌∷◌, Option, sym, ◌⊎◌,
}
use webrana_infinimail_backe.Effect.{ok, err, Err, result_cases}

module _ {W : Type 0} (b : Backend W) where
  store-Created :
      (mailbox : Mailbox) (e : ParsedEmail) (rows : List Attachment) (w w' : W)
      → store_message b mailbox e rows w ≡ (ok tt, w')
      → (m : Message) × (x : W) × (b.create_with_attachments (message_for mailbox e) rows w
          ≡ (ok m, x))
        × (notify b b.broadcast mailbox.id m x ≡ w')
  unfolding store_message
  store-Created mailbox e rows w w' h =
      elim (outcome_cases (b.create_with_attachments (message_for mailbox e) rows) w) [
        | inl (m, x, p) ↦ (m, x, p, cc (rw p at h))
        | inr (err_, x, p) ↦ cc (rw p at h)
      ]

  -- The attachments are saved in their order, from the content that is given. Each that gets a path
  -- has a row with its name, its type, that path and its size, and the others have none.
  abbrev pub Saves : List ParsedAttachment → List Attachment → W → W → Type 0
  Saves [] rows w w' = (rows ≡ []) × (w' ≡ w)
  Saves (a ∷ others) rows w w' =
      (saved : Saved) × (v : W) × (b.save_file a.filename a.content w ≡ (saved, v))
      × (((path : Bytes) × (more : List Attachment) × (saved.path ≡ ok path)
            × (rows
                ≡ record {
                  id = 0;
                  message_id = 0;
                  filename = a.filename;
                  content_type = a.content_type;
                  file_path = path;
                  size_bytes = a.size;
                }
                  ∷ more)
            × Saves others more v w')
          ⊎ ((e : Err) × (saved.path ≡ err e) × Saves others rows v w'))

  store-Saves :
      (attached : List ParsedAttachment) (w : W)
      → Saves attached (store_attachments b attached w).0.0 w (store_attachments b attached w).1
  unfolding store_attachments attachment_rows
  store-Saves [] w = (refl, refl)
  store-Saves (a ∷ others) w =
      let saved = (b.save_file a.filename a.content w).0 in
      let v = (b.save_file a.filename a.content w).1 in
      (
        saved,
        v,
        refl,
        elim (result_cases saved.path) [
          | inl (path, p) ↦
              inl (path, (store_attachments b others v).0.0, p, rw p refl, store-Saves others v)
          | inr (e, p) ↦ inr (e, p, rw p (store-Saves others v))
        ],
      )

  -- the unread message of an email in a mailbox
  abbrev pub unread_message : Mailbox → ParsedEmail → Message
  unread_message mailbox e = record {
    id = 0;
    mailbox_id = mailbox.id;
    sender_email = e.sender_email;
    sender_name = e.sender_name;
    subject = e.subject;
    snippet = e.snippet;
    body_text = e.body_text;
    body_html = e.body_html;
    is_read = false;
  }

  -- The hub, if there is one, was told last.
  abbrev pub Told : Option (ℕ → Message → W → W) → ℕ → Message → W → W → Type 0
  Told none mailbox_id m w w' = w' ≡ w
  Told (some broadcast) mailbox_id m w w' = w' ≡ broadcast mailbox_id m w

  notify-Told :
      (o : Option (ℕ → Message → W → W)) (i : ℕ) (m : Message) (w w' : W)
      → notify b o i m w ≡ w'
      → Told o i m w w'
  unfolding notify
  notify-Told none i m w w' h = sym h
  notify-Told (some f) i m w w' h = sym h

  -- What was done for a mailbox that was found.
  abbrev pub IsStored : Mailbox → ParsedEmail → List ParsedAttachment → W → W → Type 0
  IsStored mailbox e attached u w' =
      (rows : List Attachment) × (v : W) × Saves attached rows u v
      × (m : Message) × (x : W) × (b.create_with_attachments (unread_message mailbox e) rows v
          ≡ (ok m, x))
      × Told b.broadcast mailbox.id m x w'

  -- what a delivery stores that succeeds and has found this mailbox
  pub process_email-IsStored :
      (recipient : Bytes) (e : ParsedEmail) (mailbox : Mailbox) (w u : W)
      → find_mailbox b recipient w ≡ (ok mailbox, u)
      → (process_email b recipient e w).0.0 ≡ ok tt
      → IsStored mailbox e e.attachments u (process_email b recipient e w).1
  unfolding process_email deliver_to
  process_email-IsStored recipient e mailbox w u p h =
      let stored = store_attachments b e.attachments u in
      let done = store_message b mailbox e stored.0.0 stored.1 in
      let fine : done.0 ≡ ok tt = rw p at h in
      let (m, x, made, told) =
        store-Created mailbox e stored.0.0 stored.1 done.1 (ap (λ r. (r, done.1)) fine) in
      rw p (
        stored.0.0,
        stored.1,
        store-Saves e.attachments u,
        m,
        x,
        made,
        notify-Told b.broadcast mailbox.id m x done.1 told,
      )

-- what `get_or_create` of the mailbox repository promises
abbrev pub GivesAddress : {W : Type 0} → MailboxRepository W → Type 0
GivesAddress {W = W} mailboxes =
    (w w' : W) (local_part domain_name : Bytes) (domain_id : ℕ) (m : Mailbox) (created : Bool)
    → mailboxes.get_or_create local_part domain_id domain_name w ≡ (ok (m, created), w')
    → m.full_address ≡ local_part ++ codes "@" ++ domain_name

module _ {W : Type 0} (b : Backend W) (gives : GivesAddress b.mailboxes) where
  abbrev pub IsFound : Bytes → W → Mailbox → Type 0
  IsFound recipient w mailbox =
      (local_part domain_name : Bytes) × (domain : Domain) × (v : W) × (parse_email_address
          recipient
        ≡ ok (local_part, domain_name))
      × (b.domains.get_by_name domain_name w ≡ (ok domain, v))
      × (mailbox.full_address ≡ local_part ++ codes "@" ++ domain.name)

  pub find_mailbox-IsFound :
      (recipient : Bytes) (w w' : W) (mailbox : Mailbox)
      → find_mailbox b recipient w ≡ (ok mailbox, w')
      → IsFound recipient w mailbox
  unfolding find_mailbox
  find_mailbox-IsFound recipient w w' mailbox h =
      elim (Result-cases (parse_email_address recipient)) [
        | inr (e, bad) ↦ cc (rw bad at h)
        | inl (l, d, parsed) ↦ elim (outcome_cases (b.domains.get_by_name d) w) [
          | inr (e, v, p) ↦ cc (rw (parsed, p) at h)
          | inl (domain, v, p) ↦
              elim (outcome_cases (b.mailboxes.get_or_create l domain.id domain.name) v) [
                | inr (e, u, q) ↦ cc (rw (parsed, p, q) at h)
                | inl (found, u, q) ↦
                    let same : found.0 ≡ mailbox = cc (rw (parsed, p, q) at h) in
                    (
                      l,
                      d,
                      domain,
                      v,
                      parsed,
                      p,
                      subst (λ (m : Mailbox). m.full_address ≡ l ++ codes "@" ++ domain.name) same
                          (gives v u l domain.name domain.id found.0 found.1 q),
                    )
              ]
        ]
      ]

  -- When a delivery succeeds, the recipient's domain was found, a mailbox was found or created whose
  -- address is the recipient's local part, "@" and the name of that domain, the attachments were
  -- saved in their order, and an unread message with the email's sender, subject and texts was
  -- created in that mailbox, with one row for each attachment that could be saved, of its name, type,
  -- path and size; the hub, if there is one, was told of that message last.
  pub process_email-stores :
      (recipient : Bytes) (e : ParsedEmail) (w : W)
      → (process_email b recipient e w).0.0 ≡ ok tt
      → (mailbox : Mailbox) × IsFound recipient w mailbox
        × (u : W) × (find_mailbox b recipient w ≡ (ok mailbox, u))
        × IsStored b mailbox e e.attachments u (process_email b recipient e w).1
  unfolding process_email
  process_email-stores recipient e w h = elim (outcome_cases (find_mailbox b recipient) w) [
    | inr (x, u, p) ↦ cc (rw p at h)
    | inl (mailbox, u, p) ↦ (
      mailbox,
      find_mailbox-IsFound recipient w u mailbox p,
      u,
      p,
      process_email-IsStored b recipient e mailbox w u p h,
    )
  ]
