-- ===== src/Smtp/Attachments.antt =====
-- The readers of the attachments after a delivery.
use webrana_infinimail_backe.Smtp.Stored.{IsStored, process_email-IsStored}
use webrana_infinimail_backe.Models.{Mailbox}
use webrana_infinimail_backe.Smtp.Delivery.{
  store_attachments, process_email, process_all, deliver_to, find_mailbox,
}
use webrana_infinimail_backe.Text.{Bytes}
use webrana_infinimail_backe.Smtp.{Backend, ParsedAttachment, ParsedEmail}
use webrana_infinimail_backe.Effect.{ok}
use webrana_infinimail_backe.Prelude.{[], refl, ◌∷◌, List, ◌≡◌, ap, subst, sym}

-- A file that is saved was read to its end: `Save` returns a path only after an `io.Copy` without an
-- error, which copies until the end of its reader.
abbrev pub ReadsAll : {W : Type 0} → Backend W → Type 0
ReadsAll {W = W} b =
    (name content path : Bytes) (w : W)
    → (b.save_file name content w).0.path ≡ ok path
    → (b.save_file name content w).0.rest ≡ []

-- every attachment is saved, one after the other
abbrev pub AllSaved : {W : Type 0} → Backend W → List ParsedAttachment → W → Type 0
AllSaved b [] w = Unit {0}
AllSaved b (a ∷ others) w =
    (path : Bytes) × ((b.save_file a.filename a.content w).0.path ≡ ok path)
    × AllSaved b others (b.save_file a.filename a.content w).1

-- attachments of which nothing is left to read: the name, the type and the size stay
abbrev pub emptied : List ParsedAttachment → List ParsedAttachment
emptied [] = []
emptied (a ∷ others) = record a { content = [] } ∷ emptied others

module _ {W : Type 0} (b : Backend W) (reads : ReadsAll b) where
  store-emptied :
      (attached : List ParsedAttachment) (w : W)
      → AllSaved b attached w
      → (store_attachments b attached w).0.1 ≡ emptied attached
  unfolding store_attachments
  store-emptied [] w saved = refl
  store-emptied (a ∷ others) w (path, done, saved) =
      let read = reads a.filename a.content path w done in
      let rest = store-emptied others (b.save_file a.filename a.content w).1 saved in
      rw (read, rest) refl

  drained :
      (recipient : Bytes) (e : ParsedEmail) (mailbox : Mailbox) (w u : W)
      → find_mailbox b recipient w ≡ (ok mailbox, u)
      → AllSaved b e.attachments u
      → (process_email b recipient e w).0.1 ≡ record e { attachments = emptied e.attachments }
  unfolding process_email deliver_to
  drained recipient e mailbox w u found saved =
      rw found (ap (λ l. record e { attachments = l }) (store-emptied e.attachments u saved))

  -- Two recipients of one email, of whom the first has a mailbox and every attachment saved: when
  -- the delivery to the second succeeds, the files that are saved for the second are empty, and the
  -- rows of those that are saved still have the sizes of the full content. It is assumed that a file
  -- that is saved was read to its end.
  pub process_all-drains :
      (first second : Bytes) (e : ParsedEmail) (mailbox other : Mailbox) (w u x : W)
      → find_mailbox b first w ≡ (ok mailbox, u)
      → AllSaved b e.attachments u
      → find_mailbox b second (process_email b first e w).1 ≡ (ok other, x)
      → (process_email b second (process_email b first e w).0.1 (process_email b first e w).1).0.0
        ≡ ok tt
      → IsStored b other e (emptied e.attachments) x (process_all b (first ∷ second ∷ []) e w)
  unfolding process_all
  process_all-drains first second e mailbox other w u x found saved again fine =
      let left = drained first e mailbox w u found saved in
      let v = (process_email b first e w).1 in
      let e' = (process_email b first e w).0.1 in
      subst
        (λ (d : ParsedEmail).
          (process_email b second d v).0.0 ≡ ok tt
          → IsStored b other e (emptied e.attachments) x (process_email b second d v).1)
        (sym left)
        (process_email-IsStored b second (record e { attachments = emptied e.attachments }) other v
          x again)
        fine
