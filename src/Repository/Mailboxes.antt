-- ===== src/Repository/Mailboxes.antt =====
-- internal/repository/mailbox_repository.go
use webrana_infinimail_backe.Effect.Rules.{or_else-ok, outcome_cases}
use webrana_infinimail_backe.Text.{codes, Bytes}
use webrana_infinimail_backe.Repository.{GormTable, is_duplicate_key_error, read_error, check_rows}
use webrana_infinimail_backe.Models.{Mailbox}
use webrana_infinimail_backe.Effect.{
  ok, err, Action, is_duplicate_entry, is_not_found, Result, Err, or_else, pure, ◌>>=◌, attempt,
  or_wrap, reads, wrap, raise, duplicate_entry,
}
use webrana_infinimail_backe.Prelude.{
  true, false, none, inl, inr, ℕ, ◌≡◌, Bool, List, ◌++◌, Bool-cases, if◌then◌else◌, subst, ap,
}

-- the row of ListByDomain, with the count of unread messages
pub record MailboxWithUnreadCount : Type 0 where
  pub mailbox : Mailbox
  pub unread_count : ℕ

pub record MailboxRepository (W : Type 0) : Type 0 where
  pub create : Mailbox → Action W Mailbox
  pub get_by_id : ℕ → Action W Mailbox
  pub get_by_address : Bytes → Action W Mailbox
  pub get_or_create : Bytes → ℕ → Bytes → Action W (Mailbox × Bool)
  pub list_by_domain : ℕ → ℕ → ℕ → Action W (List MailboxWithUnreadCount × ℕ)
  pub update_last_accessed : ℕ → Action W (Unit {0})
  pub delete : ℕ → Action W (Unit {0})

-- the calls of gorm on the table `mailboxes`
pub record MailboxTable (W : Type 0) : Type 0 where
  pub table : GormTable W Mailbox
  -- `Where("full_address = ?", address).First`
  pub first_by_address : Bytes → Action W Mailbox
  -- `Where("domain_id = ?", id).Count`, and the query of a page with its limit and offset
  pub count_by_domain : ℕ → Action W ℕ
  pub page_by_domain : ℕ → ℕ → ℕ → Action W (List MailboxWithUnreadCount)
  -- `Where("id = ?", id).Update("last_accessed_at", now)`, `RowsAffected`
  pub update_last_accessed_at : ℕ → ℕ → Action W ℕ

unfoldable pub write_error : Mailbox → Err → Err
unfolding codes is_duplicate_key_error
write_error m e =
    if is_duplicate_key_error e
    then wrap (codes "mailbox with address '" ++ m.full_address ++ codes "' already exists")
        duplicate_entry
    else wrap (codes "failed to create mailbox") e

abbrev pub new_mailbox : Bytes → ℕ → Bytes → Mailbox
new_mailbox local_part domain_id full_address = record {
  id = 0;
  local_part = local_part;
  domain_id = domain_id;
  full_address = full_address;
  last_accessed_at = none;
}

module _ {W : Type 0} (db : MailboxTable W) (now : W → ℕ) where
  unfoldable pub create : Mailbox → Action W Mailbox
  unfolding write_error
  create m = or_else (db.table.create m) (write_error m)

  unfoldable pub get_by_id : ℕ → Action W Mailbox
  unfolding codes read_error
  get_by_id i = or_else (db.table.first i) (read_error (codes "failed to get mailbox by ID"))

  unfoldable pub get_by_address : Bytes → Action W Mailbox
  unfolding codes read_error
  get_by_address address =
      or_else (db.first_by_address address) (read_error (codes "failed to get mailbox by address"))

  -- another request may have created the mailbox in the meantime
  unfoldable pub after_create : Bytes → Result Mailbox → Action W (Mailbox × Bool)
  unfolding is_duplicate_entry get_by_address
  after_create address (ok m) = pure (m, true)
  after_create address (err e) =
      if is_duplicate_entry e then (do m ← get_by_address address; pure (m, false)) else raise e

  unfoldable pub after_lookup : Bytes → ℕ → Bytes → Result Mailbox → Action W (Mailbox × Bool)
  unfolding is_not_found create after_create
  after_lookup local_part domain_id address (ok m) = pure (m, false)
  after_lookup local_part domain_id address (err e) =
      if is_not_found e
      then (do
        made ← attempt (create (new_mailbox local_part domain_id address))
        after_create address made)
      else raise e

  unfoldable pub get_or_create : Bytes → ℕ → Bytes → Action W (Mailbox × Bool)
  unfolding codes get_by_address after_lookup
  get_or_create local_part domain_id domain_name =
      let address : Bytes = local_part ++ codes "@" ++ domain_name in
      do found ← attempt (get_by_address address); after_lookup local_part domain_id address found

  unfoldable pub list_by_domain : ℕ → ℕ → ℕ → Action W (List MailboxWithUnreadCount × ℕ)
  unfolding codes
  list_by_domain domain_id limit offset = do
    total ← or_wrap (db.count_by_domain domain_id) "failed to count mailboxes"
    results ← or_wrap (db.page_by_domain domain_id limit offset) "failed to list mailboxes"
    pure (results, total)

  unfoldable pub update_last_accessed : ℕ → Action W (Unit {0})
  unfolding codes check_rows
  update_last_accessed i = do
    time ← reads now
    n ← or_wrap (db.update_last_accessed_at i time) "failed to update last accessed"
    check_rows n

  unfoldable pub delete : ℕ → Action W (Unit {0})
  unfolding codes check_rows
  delete i = do n ← or_wrap (db.table.delete i) "failed to delete mailbox"; check_rows n

  -- `NewMailboxRepository`
  unfoldable pub mailbox_repository : MailboxRepository W
  unfolding create get_by_id get_by_address get_or_create list_by_domain update_last_accessed delete
  mailbox_repository = record {
    create = create;
    get_by_id = get_by_id;
    get_by_address = get_by_address;
    get_or_create = get_or_create;
    list_by_domain = list_by_domain;
    update_last_accessed = update_last_accessed;
    delete = delete;
  }

-- What gorm documents: a row found by its address has it, and `Create` returns the row given, but
-- for its identifier.
pub record MailboxLaws {W : Type 0} (db : MailboxTable W) : Type 0 where
  pub address_of_first :
      (w w' : W) (a : Bytes) (m : Mailbox)
      → db.first_by_address a w ≡ (ok m, w')
      → m.full_address ≡ a
  pub row_of_create :
      (w w' : W) (m r : Mailbox) → db.table.create m w ≡ (ok r, w') → r ≡ record m { id = r.id }

module _ {W : Type 0} (db : MailboxTable W) (now : W → ℕ) (laws : MailboxLaws db) where
  get_by_address-address :
      (w w' : W) (a : Bytes) (m : Mailbox)
      → get_by_address db now a w ≡ (ok m, w')
      → m.full_address ≡ a
  unfolding get_by_address
  get_by_address-address w w' a m h =
      laws.address_of_first w w' a m (or_else-ok (db.first_by_address a) _ h)

  after_create-address :
      (a : Bytes) (r : Result Mailbox) (w w' : W) (m : Mailbox) (created : Bool)
      → ((x : Mailbox) → r ≡ ok x → x.full_address ≡ a)
      → after_create db now a r w ≡ (ok (m, created), w')
      → m.full_address ≡ a
  unfolding after_create
  after_create-address a (ok x) w w' m created made h = made m (cc h)
  after_create-address a (err e) w w' m created made h = elim (Bool-cases (is_duplicate_entry e)) [
    | inl dup ↦ elim (outcome_cases (get_by_address db now a) w) [
      | inl (x, v, p) ↦
          let same : x ≡ m = cc (rw (dup, p) at h) in
          subst (λ y. y.full_address ≡ a) same (get_by_address-address w v a x p)
      | inr (e', v, p) ↦ cc (rw (dup, p) at h)
    ]
    | inr else_ ↦ cc (rw else_ at h)
  ]

  -- When `GetOrCreate` returns a mailbox, whether it was found at once, created, or found after
  -- another request had created it, its address is the local part, "@" and the domain's name.
  pub get_or_create-address :
      (w w' : W) (local_part domain_name : Bytes) (domain_id : ℕ) (m : Mailbox) (created : Bool)
      → get_or_create db now local_part domain_id domain_name w ≡ (ok (m, created), w')
      → m.full_address ≡ local_part ++ codes "@" ++ domain_name
  unfolding get_or_create after_lookup create
  get_or_create-address w w' l name i m created h =
      let a : Bytes = l ++ codes "@" ++ name in
      elim (outcome_cases (get_by_address db now a) w) [
        | inl (x, v, p) ↦
            let same : x ≡ m = cc (rw p at h) in
            subst (λ y. y.full_address ≡ a) same (get_by_address-address w v a x p)
        | inr (e, v, p) ↦ elim (Bool-cases (is_not_found e)) [
          | inr broken ↦ cc (rw (p, broken) at h)
          | inl absent ↦
              let made = create db now (new_mailbox l i a) v in
              after_create-address a made.0 made.1 w' m created
                (λ x q.
                  ap (λ (y : Mailbox). y.full_address)
                    (laws.row_of_create v made.1 (new_mailbox l i a) x (
                      or_else-ok (db.table.create (new_mailbox l i a)) _
                        (ap (λ r. (r, made.1)) q))))
                (rw (p, absent) at h)
        ]
      ]
