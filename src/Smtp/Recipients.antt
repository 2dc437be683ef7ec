-- ===== src/Smtp/Recipients.antt =====
-- What `Rcpt` of internal/smtp/session.go accepts.
use webrana_infinimail_backe.Models.{Domain, Mailbox}
use webrana_infinimail_backe.Smtp.Address.{parse_email_address}
use webrana_infinimail_backe.Smtp.Commands.{
  lookup_reply, add_recipient, rcpt_mailbox, rcpt_domain, rcpt, rcpt_address,
}
use webrana_infinimail_backe.Text.{Bytes, codes}
use webrana_infinimail_backe.Smtp.{Backend, Session, Reply, refused, accepted}
use webrana_infinimail_backe.Effect.{ok, Err, is_not_found, err, Result}
use webrana_infinimail_backe.Prelude.{true, false, inl, inr, refl, String, ◌≡◌, Bool-cases, ◌⊎◌}

pub Result-cases :
    (r : Result (Bytes × Bytes))
    → ((l : Bytes) × (d : Bytes) × (r ≡ ok (l, d))) ⊎ ((e : Err) × (r ≡ err e))
Result-cases (ok (l, d)) = inl (l, d, refl)
Result-cases (err e) = inr (e, refl)

module _ {W : Type 0} (b : Backend W) where
  abbrev pub Outcome : Bytes → Session → W → Reply × Session → Type 0
  Outcome to s w (accepted, s') =
      (s' ≡ add_recipient to s)
      × (local_part domain_name : Bytes) × (parse_email_address to ≡ ok (local_part, domain_name))
      × (domain : Domain) × (v : W) × (b.domains.get_by_name domain_name w ≡ (ok domain, v))
      × (domain.is_active ≡ true)
      × (b.auto_provision ≡ false
          → (m : Mailbox) × (u : W) × (b.mailboxes.get_by_address to v ≡ (ok m, u)))
  Outcome to s w (refused code text, s') = s' ≡ s

  lookup-Outcome :
      (to : Bytes) (s : Session) (w : W) (text : String) (e : Err)
      → Outcome to s w (lookup_reply text e, s)
  unfolding lookup_reply
  lookup-Outcome to s w text e = elim (Bool-cases (is_not_found e)) [
    | inl x ↦ rw x refl
    | inr x ↦ rw x refl
  ]

  mailbox-Outcome :
      (to l d : Bytes) (s : Session) (w v u : W) (domain : Domain) (found : Result Mailbox)
      → parse_email_address to ≡ ok (l, d)
      → b.domains.get_by_name d w ≡ (ok domain, v)
      → domain.is_active ≡ true
      → b.mailboxes.get_by_address to v ≡ (found, u)
      → Outcome to s w (rcpt_mailbox b to s found)
  unfolding rcpt_mailbox
  mailbox-Outcome to l d s w v u domain (ok m) parsed named live at =
      (refl, l, d, parsed, domain, v, named, live, λ _. (m, u, at))
  mailbox-Outcome to l d s w v u domain (err e) parsed named live at =
      lookup-Outcome to s w "Mailbox not found" e

  domain-Outcome :
      (to l d : Bytes) (s : Session) (w v : W) (r : Result Domain)
      → parse_email_address to ≡ ok (l, d)
      → b.domains.get_by_name d w ≡ (r, v)
      → (out : Reply × Session) × ((rcpt_domain b to s r v).0 ≡ ok out) × Outcome to s w out
  unfolding rcpt_domain
  domain-Outcome to l d s w v (err e) parsed named =
      (_, refl, lookup-Outcome to s w "Domain not found" e)
  domain-Outcome to l d s w v (ok domain) parsed named = elim (Bool-cases domain.is_active) [
    | inr dead ↦ ((refused 550 (codes "Domain is not active"), s), rw dead refl, refl)
    | inl live ↦ elim (Bool-cases b.auto_provision) [
      | inl auto ↦ (
        (accepted, add_recipient to s),
        rw (live, auto) refl,
        (refl, l, d, parsed, domain, v, named, live, λ off. cc (auto, off)),
      )
      | inr off ↦ (
        rcpt_mailbox b to s (b.mailboxes.get_by_address to v).0,
        rw (live, off) refl,
        mailbox-Outcome to l d s w v (b.mailboxes.get_by_address to v).1 domain
            (b.mailboxes.get_by_address to v).0 parsed named live refl,
      )
    ]
  ]

  -- `Rcpt` always gives a reply. It accepts a recipient, and adds it as it was written, only if its
  -- address can be read, its domain is there and is active and, unless mailboxes are provisioned
  -- automatically, a mailbox has the address as it was written. If it refuses, the session stays.
  pub rcpt-Outcome :
      (to : Bytes) (s : Session) (w : W)
      → (out : Reply × Session) × ((rcpt b to s w).0 ≡ ok out) × Outcome to s w out
  unfolding rcpt rcpt_address
  rcpt-Outcome to s w = elim (Result-cases (parse_email_address to)) [
    | inl (l, d, parsed) ↦
        let (out, done, h) =
          domain-Outcome to l d s w (b.domains.get_by_name d w).1 (b.domains.get_by_name d w).0
            parsed refl in
        (out, rw parsed done, h)
    | inr (e, parsed) ↦ ((refused 550 (codes "Invalid recipient address"), s), rw parsed refl, refl)
  ]
