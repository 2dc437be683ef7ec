-- ===== src/Effect.antt =====
-- Go functions that return `(T, error)`. An action reads and changes the world `W`: the database,
-- the files, the ACME server, the name servers. What was changed before an error stays changed.
pub mod Rules
pub mod Ensures
pub mod Cost
use webrana_infinimail_backe.Prelude.{String, ◌++◌, Bool, true, false, inl, inr, refl, ◌≡◌, ◌⊎◌}
use webrana_infinimail_backe.Text.{Bytes, codes}

-- Errors: the sentinels of internal/repository/errors.go and of gorm, `fmt.Errorf` without `%w`,
-- and `fmt.Errorf` with a text before a wrapped error.
pub data Err : Type 0 where
  not_found duplicate_entry record_not_found : Err
  message : Bytes → Err
  wrap : Bytes → Err → Err

pub data Result {ℓ} (A : Type ℓ) : Type ℓ where
  ok : A → Result A
  err : Err → Result A

-- The call failed.
abbrev pub IsErr : {A : Type 0} → Result A → Type 0
IsErr (ok a) = ⊥
IsErr (err e) = Unit

pub result_cases : {A : Type 0} (r : Result A) → ((a : A) × (r ≡ ok a)) ⊎ ((e : Err) × (r ≡ err e))
result_cases (ok a) = inl (a, refl)
result_cases (err e) = inr (e, refl)

-- `errors.Is(err, ErrNotFound)`
unfoldable pub is_not_found : Err → Bool
is_not_found not_found = true
is_not_found duplicate_entry = false
is_not_found record_not_found = false
is_not_found (message s) = false
is_not_found (wrap s e) = is_not_found e

-- `errors.Is(err, ErrDuplicateEntry)`
unfoldable pub is_duplicate_entry : Err → Bool
is_duplicate_entry not_found = false
is_duplicate_entry duplicate_entry = true
is_duplicate_entry record_not_found = false
is_duplicate_entry (message s) = false
is_duplicate_entry (wrap s e) = is_duplicate_entry e

-- `errors.Is(err, gorm.ErrRecordNotFound)`
unfoldable pub is_record_not_found : Err → Bool
is_record_not_found not_found = false
is_record_not_found duplicate_entry = false
is_record_not_found record_not_found = true
is_record_not_found (message s) = false
is_record_not_found (wrap s e) = is_record_not_found e

-- `err.Error()`
unfoldable pub error_text : Err → Bytes
unfolding codes
error_text not_found = codes "record not found"
error_text duplicate_entry = codes "duplicate entry"
error_text record_not_found = codes "record not found"
error_text (message s) = s
error_text (wrap s e) = s ++ codes ": " ++ error_text e

abbrev pub Action : Type 0 → Type 0 → Type 0
Action W A = W → Result A × W

module _ {W A : Type 0} where
  abbrev pub pure : A → Action W A
  pure a w = (ok a, w)

  abbrev pub raise : Err → Action W A
  raise e w = (err e, w)

  -- A call that reads the world, such as `time.Now()`, or that changes it and returns nothing.
  abbrev pub reads : (W → A) → Action W A
  reads f w = (ok (f w), w)

  abbrev as_value : Result A × W → Result (Result A) × W
  as_value (r, w) = (ok r, w)

  -- The call's result with its error as a value: `x, err := m`.
  abbrev pub attempt : Action W A → Action W (Result A)
  attempt m w = as_value (m w)

  abbrev map_err : (Err → Err) → Result A × W → Result A × W
  map_err f (ok a, w) = (ok a, w)
  map_err f (err e, w) = (err (f e), w)

  -- `if err != nil { return f(err) }`
  abbrev pub or_else : Action W A → (Err → Err) → Action W A
  or_else m f w = map_err f (m w)

  -- `return fmt.Errorf("text: %w", err)`
  abbrev pub or_wrap : Action W A → String → Action W A
  or_wrap m s = or_else m (wrap (codes s))

  abbrev recover : Result A × W → (Err → Action W A) → Result A × W
  recover (ok a, w) h = (ok a, w)
  recover (err e, w) h = h e w

  -- `if err != nil { … }`, with calls in the braces
  abbrev pub on_error : Action W A → (Err → Action W A) → Action W A
  on_error m h w = recover (m w) h

  -- A call whose result is dropped.
  abbrev dropped : Result A × W → Result (Unit {0}) × W
  dropped (r, w) = (ok tt, w)

  abbrev pub ignore : Action W A → Action W (Unit {0})
  ignore m w = dropped (m w)

module _ {W : Type 0} where
  abbrev pub changes : (W → W) → Action W (Unit {0})
  changes f w = (ok tt, f w)

module _ {W A B : Type 0} where
  abbrev continue : Result A × W → (A → Action W B) → Result B × W
  continue (ok a, w) f = f a w
  continue (err e, w) f = (err e, w)

  infixl 10 ◌>>=◌ ◌>>◌
  abbrev pub ◌>>=◌ : Action W A → (A → Action W B) → Action W B
  ◌>>=◌ m f w = continue (m w) f

  abbrev pub ◌>>◌ : Action W A → Action W B → Action W B
  m >> n = m >>= λ _. n

-- `if !test { return err }`
abbrev pub guard : {W : Type 0} → Bool → Err → Action W (Unit {0})
guard true e w = (ok tt, w)
guard false e w = (err e, w)
