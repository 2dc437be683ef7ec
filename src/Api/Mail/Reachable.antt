-- ===== src/Api/Mail/Reachable.antt =====
-- Mailboxes that internal/api/handlers/mailbox_handler.go makes, and the addresses that
-- internal/smtp/session.go looks for.

use webrana_infinimail_backe.Smtp.Delivery.{find_mailbox}
use webrana_infinimail_backe.Smtp.Stored.{GivesAddress, find_mailbox-IsFound}
use webrana_infinimail_backe.Smtp.{Backend}
use webrana_infinimail_backe.Text.Split.{Without}
use webrana_infinimail_backe.Effect.Rules.{outcome_cases}
use webrana_infinimail_backe.Smtp.Address.{Normal, parse_email_address-Normal}
use webrana_infinimail_backe.Text.Case.{to_lower, to_lower_fixed}
use webrana_infinimail_backe.Text.{Bytes, codes, is_empty}
use webrana_infinimail_backe.Models.{Mailbox, Domain}
use webrana_infinimail_backe.Api.{
  duplicate_or, not_found_reply, conflict, internal_error, bad_request, reply, created,
  mailbox_body, Response, require, error_body, calling, respond,
}
use webrana_infinimail_backe.Api.Mail.{absent_or}
use webrana_infinimail_backe.Repository.Mailboxes.{MailboxRepository, new_mailbox}
use webrana_infinimail_backe.Api.Mail.Mailboxes.{
  MailboxHandler, MailboxRequest, create_mailbox_handler, active_domain, mailbox_address,
}
use webrana_infinimail_backe.Effect.{ok, Err, is_not_found, is_duplicate_entry}
use webrana_infinimail_backe.Prelude.{
  true, some, inl, inr, false, ◌≡◌, ◌⊎◌, Bool-cases, ◌≢◌, ap, ◌∙◌, ◌==◌, ◌++◌, sym, subst, [], refl,
  ◌∷◌, ℕ, ==-refl, append_assoc,
}

module _ {W : Type 0} (h : MailboxHandler W) where
  absent-error :
      (missing text : Bytes) (e : Err) (w w' : W) (m : Mailbox)
      → ◌≡◌ {A = Response × W} (absent_or missing text e, w) (reply 201 (mailbox_body m), w')
      → ⊥
  unfolding absent_or not_found_reply internal_error
  absent-error missing text e w w' m p = elim (Bool-cases (is_not_found e)) [
    | inl gone ↦ cc (rw gone at p)
    | inr other_ ↦ cc (rw other_ at p)
  ]

  duplicate-error :
      (duplicate text : Bytes) (e : Err) (w w' : W) (m : Mailbox)
      → ◌≡◌ {A = Response × W} (duplicate_or duplicate text e, w) (reply 201 (mailbox_body m), w')
      → ⊥
  unfolding duplicate_or conflict internal_error
  duplicate-error duplicate text e w w' m p = elim (Bool-cases (is_duplicate_entry e)) [
    | inl twice ↦ cc (rw twice at p)
    | inr other_ ↦ cc (rw other_ at p)
  ]

  -- What a created mailbox comes from.
  record Made (r : MailboxRequest) (m : Mailbox) (w : W) : Type 0 where
    domain : Domain
    v : W
    u : W
    found : h.domains.get_by_id r.domain_id w ≡ (ok domain, v)
    is_active : domain.is_active ≡ true
    made :
        h.mailboxes.create
          (new_mailbox r.local_part r.domain_id (mailbox_address r.local_part domain.name))
          v
        ≡ (ok m, u)

  create-Made :
      (r : MailboxRequest) (m : Mailbox) (w w' : W)
      → create_mailbox_handler h (some r) w ≡ (reply 201 (mailbox_body m), w')
      → Made r m w
  unfolding create_mailbox_handler active_domain bad_request created
  create-Made r m w w' p = elim (Bool-cases (is_empty r.local_part)) [
    | inl e ↦ cc (rw e at p)
    | inr e ↦ elim (Bool-cases (r.domain_id == 0)) [
      | inl z ↦ cc (rw (e, z) at p)
      | inr z ↦ elim (outcome_cases (h.domains.get_by_id r.domain_id) w) [
        | inr (x, v, q) ↦ elim (absent-error _ _ x v w' m (rw (e, z, q) at p)) [ ]
        | inl (d, v, q) ↦ active_case d v q (Bool-cases d.is_active) (rw (e, z, q) at p)
      ]
    ]
  ]
    where
      active_case :
          (d : Domain) (v : W)
          → h.domains.get_by_id r.domain_id w ≡ (ok d, v)
          → ((d.is_active ≡ true) ⊎ (d.is_active ≡ false))
          → require d.is_active
              (reply 400 (error_body (codes "domain is not active") (codes "INVALID_INPUT")))
              (calling
                (h.mailboxes.create
                  (new_mailbox r.local_part r.domain_id (mailbox_address r.local_part d.name)))
                (duplicate_or (codes "mailbox already exists") (codes "failed to create mailbox"))
                λ n. respond (created (mailbox_body n)))
              v
            ≡ (reply 201 (mailbox_body m), w')
          → Made r m w
      active_case d v q (inr off) p = cc (rw off at p)
      active_case d v q (inl on) p =
          elim (outcome_cases
            (h.mailboxes.create
              (new_mailbox r.local_part r.domain_id (mailbox_address r.local_part d.name)))
            v) [
              | inr (x, u, c) ↦ elim (duplicate-error _ _ x u w' m (rw (on, c) at p)) [ ]
              | inl (n, u, c) ↦
                  let same : n ≡ m = cc (rw (on, c) at p) in
                  record {
                    domain = d;
                    v = v;
                    u = u;
                    found = q;
                    is_active = on;
                    made = c ∙ ap (λ (x : Mailbox). (ok x, u)) same;
                  }
            ]

-- `Create` of the repository returns the row given, but for its identifier.
abbrev pub KeepsRow : {W : Type 0} → MailboxRepository W → Type 0
KeepsRow {W} repo =
    (v u : W) (m n : Mailbox) → repo.create m v ≡ (ok n, u) → n ≡ record m { id = n.id }

-- the text before the first of a byte is the same
first_part : (c : ℕ) (s t x y : Bytes) → Without c s → Without c t → s ++ c ∷ x ≡ t ++ c ∷ y → s ≡ t
first_part c [] [] x y hs ht h = refl
first_part c [] (d ∷ t) x y hs (other, ht) h = cc (h, other, ==-refl c)
first_part c (b ∷ s) [] x y (other, hs) ht h = cc (h, other, ==-refl c)
first_part c (b ∷ s) (d ∷ t) x y (no_b, hs) (no_d, ht) h =
    let rest : s ++ c ∷ x ≡ t ++ c ∷ y = cc h in cc (h, first_part c s t x y hs ht rest)

same_local :
    (s t x y : Bytes)
    → Without b'@' s
    → Without b'@' t
    → s ++ codes "@" ++ x ≡ t ++ codes "@" ++ y
    → s ≡ t
unfolding codes
same_local s t x y hs ht h =
    first_part b'@' s t x y hs ht
      (sym (append_assoc s (b'@' ∷ []) x) ∙ h ∙ append_assoc t (b'@' ∷ []) y)

-- When `Create` answers with a mailbox whose local part is not in lower case and has no "@", its
-- domain was found and is active, its address is the local part as it was given, "@" and the
-- domain's name, and no delivery of the SMTP session, to whatever recipient and in whatever state of
-- the world, finds or creates a mailbox with this address.
pub create_mailbox-unreachable :
    {W : Type 0} (h : MailboxHandler W) (b : Backend W)
    → KeepsRow h.mailboxes
    → GivesAddress b.mailboxes
    → (r : MailboxRequest) (m : Mailbox) (w w' : W)
    → create_mailbox_handler h (some r) w ≡ (reply 201 (mailbox_body m), w')
    → to_lower r.local_part ≢ r.local_part
    → Without b'@' r.local_part
    → (recipient : Bytes) (v v' : W) (found : Mailbox) → find_mailbox b recipient v ≡ (ok found, v')
    → (domain : Domain) × (u : W) × (h.domains.get_by_id r.domain_id w ≡ (ok domain, u))
      × (domain.is_active ≡ true)
      × (m.full_address ≡ r.local_part ++ codes "@" ++ domain.name)
      × (found.full_address ≢ m.full_address)
create_mailbox-unreachable h b keeps gives r m w w' p upper single recipient v v' found delivered =
    let made : Made h r m w = create-Made h r m w w' p in
    let row : Mailbox =
      new_mailbox r.local_part r.domain_id (mailbox_address r.local_part made.domain.name) in
    let address : m.full_address ≡ mailbox_address r.local_part made.domain.name =
      ap (λ (x : Mailbox). x.full_address) (keeps made.v made.u row m made.made) in
    (
      made.domain,
      made.v,
      made.found,
      made.is_active,
      address,
      λ same.
          let (l, d, domain, u, parsed, looked_up, named) =
            find_mailbox-IsFound b gives recipient v v' found delivered in
          let normal : Normal l d = parse_email_address-Normal recipient l d parsed in
          let both : r.local_part ≡ l =
            same_local r.local_part l made.domain.name domain.name single normal.2.0
              (sym address ∙ sym same ∙ named) in
          upper (subst (λ x. to_lower x ≡ x) (sym both) (to_lower_fixed l normal.0.0)),
    )
