-- ===== src/Smtp/Commands.antt =====
-- internal/smtp/session.go: MAIL FROM, RCPT TO and RSET.
use webrana_infinimail_backe.Models.{Mailbox, Domain}
use webrana_infinimail_backe.Smtp.Address.{parse_email_address}
use webrana_infinimail_backe.Text.{Bytes, codes}
use webrana_infinimail_backe.Smtp.{Session, Backend, Reply, accepted, refused}
use webrana_infinimail_backe.Effect.{
  ok, err, is_not_found, Result, Action, Err, pure, ◌>>=◌, attempt,
}
use webrana_infinimail_backe.Prelude.{[], ◌∷◌, ◌++◌, String, if◌then◌else◌, not}

unfoldable pub new_session : Session
new_session = record { from = []; recipients = [] }

-- `Mail`
unfoldable pub mail : Bytes → Session → Reply × Session
mail from s = (accepted, record s { from = from })

-- `Reset`
unfoldable pub reset : Session → Session
reset s = record { from = []; recipients = [] }

-- the replies to an error of a repository
unfoldable pub lookup_reply : String → Err → Reply
unfolding codes is_not_found
lookup_reply text e =
    if is_not_found e then refused 550 (codes text) else refused 451 (codes "Temporary error")

abbrev pub add_recipient : Bytes → Session → Session
add_recipient to s = record s { recipients = s.recipients ++ to ∷ [] }

module _ {W : Type 0} (b : Backend W) where
  unfoldable pub rcpt_mailbox : Bytes → Session → Result Mailbox → Reply × Session
  unfolding lookup_reply
  rcpt_mailbox to s (ok m) = (accepted, add_recipient to s)
  rcpt_mailbox to s (err e) = (lookup_reply "Mailbox not found" e, s)

  unfoldable pub rcpt_domain : Bytes → Session → Result Domain → Action W (Reply × Session)
  unfolding codes lookup_reply rcpt_mailbox
  rcpt_domain to s (err e) = pure (lookup_reply "Domain not found" e, s)
  rcpt_domain to s (ok domain) =
      if not domain.is_active
      then pure (refused 550 (codes "Domain is not active"), s)
      else if not b.auto_provision
      then (do found ← attempt (b.mailboxes.get_by_address to); pure (rcpt_mailbox to s found))
      else pure (accepted, add_recipient to s)

  unfoldable pub rcpt_address :
      Bytes → Session → Result (Bytes × Bytes) → Action W (Reply × Session)
  unfolding codes rcpt_domain
  rcpt_address to s (err e) = pure (refused 550 (codes "Invalid recipient address"), s)
  rcpt_address to s (ok (local_part, domain_name)) = do
    domain ← attempt (b.domains.get_by_name domain_name)
    rcpt_domain to s domain

  -- `Rcpt`
  unfoldable pub rcpt : Bytes → Session → Action W (Reply × Session)
  unfolding parse_email_address rcpt_address
  rcpt to s = rcpt_address to s (parse_email_address to)
