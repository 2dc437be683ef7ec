-- ===== src/Repository/Laws.antt =====
-- What the code relies on when it uses a table, and what a repository promises of its rows.
use webrana_infinimail_backe.Effect.Rules.{IsPreorder, outcome_cases}
use webrana_infinimail_backe.Prelude.{
  ℕ, Option, some, if◌then◌else◌, ◌==◌, ◌≡◌, ◌≢◌, ◌∙◌, refl, inl, inr, ◌⊎◌, subst, ap, arith,
  ==-refl, false, Bool-cases,
}
use webrana_infinimail_backe.Effect.{Err, ok, err, Action, Result}

-- The rows before and after are the same.
abbrev pub SameRows : {W Row : Type 0} → (W → ℕ → Option Row) → W → W → Type 0
SameRows row u v = (j : ℕ) → row v j ≡ row u j

-- The rows after are those before with one row put in.
abbrev pub PutRow : {W Row : Type 0} → (W → ℕ → Option Row) → ℕ → Row → W → W → Type 0
PutRow row i r u v = (j : ℕ) → row v j ≡ (if j == i then some r else row u j)

-- The documented behaviour of a gorm table whose rows `row` shows by primary key, while no other
-- session writes to it. An update that fails or that affects no row changes nothing. A row with the
-- key 0, for which `Save` creates a new row, is taken here as any other: the services update only
-- rows that they have read, and no row of a table has this key.
pub record TableLaws {W Row : Type 0} (key : Row → ℕ) (row : W → ℕ → Option Row)
    (first : ℕ → Action W Row) (save : Row → Action W ℕ) : Type 0 where
  pub first_ok : (w w' : W) (i : ℕ) (r : Row) → first i w ≡ (ok r, w') → row w i ≡ some r
  pub first_same : (w : W) (i : ℕ) → SameRows row w (first i w).1
  pub save_ok :
      (w w' : W) (r : Row) (n : ℕ) → save r w ≡ (ok n, w') → n ≢ 0 → PutRow row (key r) r w w'
  pub save_zero : (w w' : W) (r : Row) → save r w ≡ (ok 0, w') → SameRows row w w'
  pub save_err : (w w' : W) (r : Row) (e : Err) → save r w ≡ (err e, w') → SameRows row w w'
  pub keyed : (w : W) (i : ℕ) (r : Row) → row w i ≡ some r → key r ≡ i

-- What the services rely on: a read returns the row, an update that returns no error has written
-- the whole row and no other, and one that returns an error has written nothing.
pub record RowLaws {W Row : Type 0} (key : Row → ℕ) (row : W → ℕ → Option Row)
    (get : ℕ → Action W Row) (update : Row → Action W (Unit {0})) : Type 0 where
  pub get_ok : (w w' : W) (i : ℕ) (r : Row) → get i w ≡ (ok r, w') → row w i ≡ some r
  pub get_same : (w : W) (i : ℕ) → SameRows row w (get i w).1
  pub update_ok : (w w' : W) (r : Row) → update r w ≡ (ok tt, w') → PutRow row (key r) r w w'
  pub update_err : (w w' : W) (r : Row) (e : Err) → update r w ≡ (err e, w') → SameRows row w w'
  pub keyed : (w : W) (i : ℕ) (r : Row) → row w i ≡ some r → key r ≡ i

pub SameRows-preorder : {W Row : Type 0} (row : W → ℕ → Option Row) → IsPreorder (SameRows row)
SameRows-preorder row = record { reflexive = λ w j. refl; transitive = λ u v w p q j. q j ∙ p j }

module _ {W Row : Type 0} {key : Row → ℕ} {row : W → ℕ → Option Row} {get : ℕ → Action W Row}
    {update : Row → Action W (Unit {0})} (laws : RowLaws key row get update) where
  -- The outcomes of a read, with what they say of the rows.
  pub get_cases :
      (w : W) (i : ℕ)
      → ((r : Row) × (w' : W) × (get i w ≡ (ok r, w'))
          × (row w i ≡ some r)
          × (key r ≡ i)
          × SameRows row w w')
        ⊎ ((e : Err) × (w' : W) × (get i w ≡ (err e, w')) × SameRows row w w')
  get_cases w i = elim (outcome_cases (get i) w) [
    | inl (r, v, p) ↦
        let found = laws.get_ok w v i r p in
        inl (
          r,
          v,
          p,
          found,
          laws.keyed w i r found,
          λ j. subst (λ (x : Result Row × W). row x.1 j ≡ row w j) p (laws.get_same w i j),
        )
    | inr (e, v, p) ↦
        inr (
          e,
          v,
          p,
          λ j. subst (λ (x : Result Row × W). row x.1 j ≡ row w j) p (laws.get_same w i j),
        )
  ]

  -- The outcomes of an update of a row that was read at `i`.
  pub update_cases :
      (w : W) (i : ℕ) (r : Row)
      → key r ≡ i
      → ((w' : W) × (update r w ≡ (ok tt, w')) × PutRow row i r w w')
        ⊎ ((e : Err) × (w' : W) × (update r w ≡ (err e, w')) × SameRows row w w')
  update_cases w i r same = elim (outcome_cases (update r) w) [
    | inl (tt, v, p) ↦ inl (v, p, rw same at (laws.update_ok w v r p))
    | inr (e, v, p) ↦ inr (e, v, p, laws.update_err w v r e p)
  ]

module _ {W Row : Type 0} (row : W → ℕ → Option Row) (u v w : W) where
  pub SameRows-PutRow :
      (i : ℕ) (r : Row) → SameRows row u v → PutRow row i r v w → PutRow row i r u w
  SameRows-PutRow i r same put j = put j ∙ ap (λ o. if j == i then some r else o) (same j)

  pub PutRow-SameRows :
      (i : ℕ) (r : Row) → PutRow row i r u v → SameRows row v w → PutRow row i r u w
  PutRow-SameRows i r put same j = same j ∙ put j

  -- The last of two writes of a row is the one that counts.
  pub PutRow-PutRow :
      (i : ℕ) (q r : Row) → PutRow row i q u v → PutRow row i r v w → PutRow row i r u w
  PutRow-PutRow i q r first second j = ground (arith, first j, second j)

pub PutRow-self :
    {W Row : Type 0} (row : W → ℕ → Option Row) (u v : W) (i : ℕ) (r : Row)
    → PutRow row i r u v
    → row v i ≡ some r
PutRow-self row u v i r put = put i ∙ rw (==-refl i)

-- No row but `i` changes.
abbrev pub OtherRows : {W Row : Type 0} → (W → ℕ → Option Row) → ℕ → W → W → Type 0
OtherRows row i u v = (j : ℕ) → (j == i) ≡ false → row v j ≡ row u j

pub OtherRows-preorder :
    {W Row : Type 0} (row : W → ℕ → Option Row) (i : ℕ) → IsPreorder (OtherRows row i)
OtherRows-preorder row i = record {
  reflexive = λ w j h. refl;
  transitive = λ u v w p q j h. q j h ∙ p j h;
}

module _ {W Row : Type 0} (row : W → ℕ → Option Row) (u v : W) where
  pub SameRows-OtherRows : (i : ℕ) → SameRows row u v → OtherRows row i u v
  SameRows-OtherRows i same j h = same j

  pub PutRow-OtherRows : (i : ℕ) (r : Row) → PutRow row i r u v → OtherRows row i u v
  PutRow-OtherRows i r put j h = put j ∙ rw h

  pub OtherRows-PutRow :
      (w : W) (i : ℕ) (r : Row) → OtherRows row i u v → PutRow row i r v w → PutRow row i r u w
  OtherRows-PutRow w i r kept put j = elim (Bool-cases (j == i)) [
    | inl e ↦ put j ∙ rw e
    | inr e ↦ put j ∙ rw e (kept j e)
  ]
