-- ===== src/Api/Mail/Mailboxes.antt =====
-- internal/api/handlers/mailbox_handler.go
use webrana_infinimail_backe.Api.{
  bad_request, created, Handler, duplicate_or, internal_error, success, no_content, require, given,
  respond, calling, mailbox_body, paginated, mailboxes_body,
}
use webrana_infinimail_backe.Api.Mail.{
  absent_or, with_number, page_limit, attempting, page_offset, failing,
}
use webrana_infinimail_backe.Repository.Domains.{DomainRepository}
use webrana_infinimail_backe.Models.{Domain, Mailbox}
use webrana_infinimail_backe.Repository.Mailboxes.{MailboxRepository, new_mailbox}
use webrana_infinimail_backe.Text.{Bytes, codes, is_empty}
use webrana_infinimail_backe.Effect.{ok, err, Result, is_duplicate_entry}
use webrana_infinimail_backe.Prelude.{zero, suc, [], ◌∷◌, ℕ, ◌++◌, Option, not, ◌==◌, if◌then◌else◌}

-- `CreateMailboxRequest`
pub record MailboxRequest : Type 0 where
  pub local_part : Bytes
  pub domain_id : ℕ

-- `MailboxHandler`. `random_index` is `rand.Int` of crypto/rand, which gives a number below its
-- argument.
pub record MailboxHandler (W : Type 0) : Type 0 where
  pub mailboxes : MailboxRepository W
  pub domains : DomainRepository W
  pub random_index : ℕ → W → ℕ × W

unfoldable pub charset : Bytes
unfolding codes
charset = codes "abcdefghijklmnopqrstuvwxyz0123456789"

-- `charset[n]`, for an index in range
unfoldable pub byte_at : Bytes → ℕ → ℕ
byte_at [] n = 0
byte_at (c ∷ s) zero = c
byte_at (c ∷ s) (suc n) = byte_at s n

-- `localPart + "@" + domain.Name`
abbrev pub mailbox_address : Bytes → Bytes → Bytes
mailbox_address local_part name = local_part ++ codes "@" ++ name

module _ {W : Type 0} (h : MailboxHandler W) where
  -- `generateRandomString`
  unfoldable pub generate_random_string : ℕ → W → Bytes × W
  unfolding charset byte_at
  generate_random_string zero w = ([], w)
  generate_random_string (suc n) w =
      let (i, v) = h.random_index 36 w in
      let (s, u) = generate_random_string n v in (byte_at charset i ∷ s, u)

  -- the domain of a request, which is there and active
  unfoldable pub active_domain : ℕ → (Domain → Handler W) → Handler W
  unfolding codes absent_or bad_request
  active_domain i k = require (not (i == 0)) (bad_request (codes "domain_id is required")) (
      calling (h.domains.get_by_id i)
        (absent_or (codes "domain not found") (codes "failed to get domain"))
        λ domain. require domain.is_active (bad_request (codes "domain is not active")) (k domain))

  -- `Create`
  unfoldable pub create_mailbox_handler : Option MailboxRequest → Handler W
  unfolding codes bad_request active_domain duplicate_or created
  create_mailbox_handler req = given req (bad_request (codes "invalid request body")) λ r.
      require (not (is_empty r.local_part)) (bad_request (codes "local_part is required")) (
        active_domain r.domain_id λ domain.
          calling
            (h.mailboxes.create
              (new_mailbox r.local_part r.domain_id (mailbox_address r.local_part domain.name)))
            (duplicate_or (codes "mailbox already exists") (codes "failed to create mailbox"))
            λ m. respond (created (mailbox_body m)))

  -- one try with a random local part
  unfoldable pub create_named : Domain → ℕ → (Result Mailbox → Handler W) → Handler W
  unfolding generate_random_string
  create_named domain i k w =
      let (local_part, v) = generate_random_string 8 w in
      attempting
        (h.mailboxes.create (new_mailbox local_part i (mailbox_address local_part domain.name))) k v

  unfoldable pub after_second : Result Mailbox → Handler W
  unfolding codes created internal_error
  after_second (ok m) = respond (created (mailbox_body m))
  after_second (err e) = respond (internal_error (codes "failed to create mailbox"))

  -- a collision is tried once more
  unfoldable pub after_first : Domain → ℕ → Result Mailbox → Handler W
  unfolding codes created internal_error is_duplicate_entry create_named after_second
  after_first domain i (ok m) = respond (created (mailbox_body m))
  after_first domain i (err e) =
      if is_duplicate_entry e
      then create_named domain i after_second
      else respond (internal_error (codes "failed to create mailbox"))

  -- `CreateRandom`, with the identifier of the domain
  unfoldable pub create_random_handler : Option ℕ → Handler W
  unfolding codes bad_request active_domain create_named after_first
  create_random_handler req =
      given req (bad_request (codes "invalid request body"))
        λ i. active_domain i λ domain. create_named domain i (after_first domain i)

  -- `List`, with the query parameters
  unfoldable pub list_mailboxes_handler : Bytes → Bytes → Bytes → Handler W
  unfolding codes bad_request with_number page_limit page_offset failing paginated
  list_mailboxes_handler domain_id limit offset =
      require (not (is_empty domain_id)) (bad_request (codes "domain_id is required")) (
        with_number (codes "invalid domain_id") domain_id λ i.
          calling (h.mailboxes.list_by_domain i (page_limit limit) (page_offset offset))
            (failing (codes "failed to list mailboxes"))
            λ page.
              respond
                (paginated (mailboxes_body page.0) page.1 (page_limit limit) (page_offset offset)))

  -- `Get`; the error of the update is dropped
  unfoldable pub get_mailbox_handler : Bytes → Handler W
  unfolding codes with_number absent_or success
  get_mailbox_handler param = with_number (codes "invalid mailbox ID") param λ i.
      calling (h.mailboxes.get_by_id i)
        (absent_or (codes "mailbox not found") (codes "failed to get mailbox"))
        λ m w. (success (mailbox_body m), (h.mailboxes.update_last_accessed i w).1)

  -- `Delete`
  unfoldable pub delete_mailbox_handler : Bytes → Handler W
  unfolding codes with_number absent_or no_content
  delete_mailbox_handler param = with_number (codes "invalid mailbox ID") param λ i.
      calling (h.mailboxes.delete i)
        (absent_or (codes "mailbox not found") (codes "failed to delete mailbox"))
        λ u. respond no_content
