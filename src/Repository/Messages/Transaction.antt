-- ===== src/Repository/Messages/Transaction.antt =====
-- `CreateWithAttachments` of internal/repository/message_repository.go stores all or nothing.
use webrana_infinimail_backe.Effect.Rules.{outcome_cases}
use webrana_infinimail_backe.Models.{Message, Attachment}
use webrana_infinimail_backe.Repository.Messages.{
  MessageTable, create_rows, create_both, create_with_attachments,
}
use webrana_infinimail_backe.Effect.{ok, err, Action, Err}
use webrana_infinimail_backe.Prelude.{
  [], inl, inr, refl, ◌∷◌, ℕ, List, ◌≡◌, ◌++◌, subst, sym, append-nil, ◌⊎◌, ◌∙◌, ap, append_assoc,
}

-- The rows of two tables: what gorm documents of `Create` and `Transaction`. A commit may fail.
pub record StoreLaws {W : Type 0} (db : MessageTable W) (messages : W → List Message)
    (rows : W → List Attachment) : Type 0 where
  pub create_message :
      (w w' : W) (m r : Message)
      → db.table.create m w ≡ (ok r, w')
      → (r ≡ record m { id = r.id }) × (messages w' ≡ messages w ++ r ∷ []) × (rows w' ≡ rows w)
  pub create_row :
      (w w' : W) (a r : Attachment)
      → db.attachments.create a w ≡ (ok r, w')
      → (r ≡ record a { id = r.id }) × (rows w' ≡ rows w ++ r ∷ []) × (messages w' ≡ messages w)
  pub rolled_back :
      (w w' : W) (m : Action W Message) (e : Err)
      → m w ≡ (err e, w')
      → (e' : Err) × (w'' : W) × (db.transaction m w ≡ (err e', w''))
        × (messages w'' ≡ messages w)
        × (rows w'' ≡ rows w)
  pub committed :
      (w w' : W) (m : Action W Message) (r : Message)
      → m w ≡ (ok r, w')
      → (db.transaction m w ≡ (ok r, w'))
        ⊎ ((e : Err) × (w'' : W) × (db.transaction m w ≡ (err e, w''))
            × (messages w'' ≡ messages w)
            × (rows w'' ≡ rows w))

-- The stored rows are the attachments in their order, each with the message's identifier and one of
-- its own.
abbrev pub AreStored : ℕ → List Attachment → List Attachment → Type 0
AreStored i [] [] = Unit
AreStored i [] (r ∷ rs) = ⊥
AreStored i (a ∷ others) [] = ⊥
AreStored i (a ∷ others) (r ∷ rs) =
    (r ≡ record a { id = r.id; message_id = i }) × AreStored i others rs

module _ {W : Type 0} (db : MessageTable W) (messages : W → List Message)
    (rows : W → List Attachment) (laws : StoreLaws db messages rows) where
  -- The rows that the loop adds.
  record Added (i : ℕ) (attachments : List Attachment) (w w' : W) : Type 0 where
    new_rows : List Attachment
    stored : AreStored i attachments new_rows
    appended : rows w' ≡ rows w ++ new_rows
    same_messages : messages w' ≡ messages w

  create_rows-Added :
      (i : ℕ) (attachments : List Attachment) (w w' : W)
      → create_rows db i attachments w ≡ (ok tt, w')
      → Added i attachments w w'
  unfolding create_rows
  create_rows-Added i [] w w' h =
      let same : w ≡ w' = cc h in
      subst (λ v. Added i [] w v) same
        (record {
          new_rows = [];
          stored = tt;
          appended = sym (append-nil (rows w));
          same_messages = refl;
        })
  create_rows-Added i (a ∷ others) w w' h =
      let row : Attachment = record a { message_id = i } in
      elim (outcome_cases (db.attachments.create row) w) [
        | inr (e, v, p) ↦ cc (rw p at h)
        | inl (r, v, p) ↦
            let (made, put_last, kept) = laws.create_row w v row r p in
            let rest : Added i others v w' = create_rows-Added i others v w' (rw p at h) in
            record {
              new_rows = r ∷ rest.new_rows;
              stored = (made, rest.stored);
              appended =
                  rest.appended
                  ∙ ap (λ x. x ++ rest.new_rows) put_last
                  ∙ append_assoc (rows w) (r ∷ []) rest.new_rows;
              same_messages = rest.same_messages ∙ kept;
            }
      ]

  -- The tables with the message and its rows.
  pub record Stored (message : Message) (attachments : List Attachment) (m : Message) (w w' : W)
      : Type 0 where
    pub new_rows : List Attachment
    pub same_fields : m ≡ record message { id = m.id }
    pub message_added : messages w' ≡ messages w ++ m ∷ []
    pub rows_stored : AreStored m.id attachments new_rows
    pub rows_added : rows w' ≡ rows w ++ new_rows

  create_both-Stored :
      (message : Message) (attachments : List Attachment) (m : Message) (w w' : W)
      → create_both db message attachments w ≡ (ok m, w')
      → Stored message attachments m w w'
  unfolding create_both
  create_both-Stored message attachments m w w' h =
      elim (outcome_cases (db.table.create message) w) [
        | inr (e, v, p) ↦ cc (rw p at h)
        | inl (r, v, p) ↦ elim (outcome_cases (create_rows db r.id attachments) v) [
          | inr (e, u, q) ↦ cc (rw (p, q) at h)
          | inl (x, u, q) ↦
              let (made, put_last, kept) = laws.create_message w v message r p in
              let added : Added r.id attachments v u = create_rows-Added r.id attachments v u q in
              let same : r ≡ m = cc (rw (p, q) at h) in
              let end_ : u ≡ w' = cc (rw (p, q) at h) in
              subst (λ y. Stored message attachments y w w') same
                (subst (λ v'. Stored message attachments r w v') end_
                  (record {
                    new_rows = added.new_rows;
                    same_fields = made;
                    message_added = added.same_messages ∙ put_last;
                    rows_stored = added.stored;
                    rows_added = added.appended ∙ ap (λ x. x ++ added.new_rows) kept;
                  }))
        ]
      ]

  -- `CreateWithAttachments` either returns an error, and both tables are as they were, or it returns
  -- the message with the identifier that the database gave it and is otherwise the one given, the
  -- table of messages has it as one more row, and the table of attachments has one more row for each
  -- attachment given, in their order, with the identifier of that message.
  pub create_with_attachments_atomic :
      (message : Message) (attachments : List Attachment) (w : W)
      → ((e : Err) × (w' : W) × (create_with_attachments db message attachments w ≡ (err e, w'))
          × (messages w' ≡ messages w)
          × (rows w' ≡ rows w))
        ⊎ ((m : Message) × (w' : W) × (create_with_attachments db message attachments w
              ≡ (ok m, w'))
            × Stored message attachments m w w')
  unfolding create_with_attachments
  create_with_attachments_atomic message attachments w =
      let both : Action W Message = create_both db message attachments in
      elim (outcome_cases both w) [
        | inr (e, v, p) ↦ inl (laws.rolled_back w v both e p)
        | inl (m, v, p) ↦ elim (laws.committed w v both m p) [
          | inr undone ↦ inl undone
          | inl done ↦ inr (m, v, done, create_both-Stored message attachments m w v p)
        ]
      ]
