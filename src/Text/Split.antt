-- ===== src/Text/Split.antt =====
-- `strings.Split` with a separator of one byte, `strings.TrimPrefix` and `strings.TrimSuffix` with
-- one byte.
use webrana_infinimail_backe.Text.{Bytes, take, drop}
use webrana_infinimail_backe.Prelude.{
  [], false, inl, inr, refl, ◌∷◌, ℕ, List, if◌then◌else◌, ◌==◌, ◌≡◌, ◌++◌, Bool-cases, ==-refl,
  zero, suc, ap, ◌∙◌,
}

abbrev pub add_first : ℕ → List Bytes → List Bytes
add_first c [] = (c ∷ []) ∷ []
add_first c (p ∷ ps) = (c ∷ p) ∷ ps

unfoldable pub split : Bytes → ℕ → List Bytes
split [] sep = [] ∷ []
split (c ∷ s) sep = let rest = split s sep in if c == sep then [] ∷ rest else add_first c rest

unfoldable pub trim_prefix : Bytes → ℕ → Bytes
trim_prefix [] p = []
trim_prefix (c ∷ s) p = if c == p then s else c ∷ s

unfoldable pub trim_suffix : Bytes → ℕ → Bytes
trim_suffix [] p = []
trim_suffix (c ∷ []) p = if c == p then [] else c ∷ []
trim_suffix (c ∷ (d ∷ s)) p = c ∷ trim_suffix (d ∷ s) p

-- A byte does not occur.
abbrev pub Without : ℕ → Bytes → Type 0
Without sep [] = Unit
Without sep (c ∷ s) = (c == sep ≡ false) × Without sep s

pub split-Without : (sep : ℕ) (s : Bytes) → Without sep s → split s sep ≡ s ∷ []
unfolding split
split-Without sep [] h = refl
split-Without sep (c ∷ s) (other, h) = rw (other, split-Without sep s h) refl

pub split_at : (sep : ℕ) (s t : Bytes) → Without sep s → split (s ++ sep ∷ t) sep ≡ s ∷ split t sep
unfolding split
split_at sep [] t h = rw (==-refl sep) refl
split_at sep (c ∷ s) t (other, h) = rw (other, split_at sep s t h) refl

abbrev pub join : ℕ → List Bytes → Bytes
join sep [] = []
join sep (p ∷ []) = p
join sep (p ∷ (q ∷ ps)) = p ++ sep ∷ join sep (q ∷ ps)

-- The parts of a split have no separator and give the text again when they are joined.
abbrev pub AllWithout : ℕ → List Bytes → Type 0
AllWithout sep [] = Unit
AllWithout sep (p ∷ ps) = Without sep p × AllWithout sep ps

add_first-AllWithout :
    (c : ℕ) (ps : List Bytes) (sep : ℕ)
    → (c == sep) ≡ false
    → AllWithout sep ps
    → AllWithout sep (add_first c ps)
add_first-AllWithout c [] sep e h = ((e, tt), tt)
add_first-AllWithout c (p ∷ ps) sep e (first, rest) = ((e, first), rest)

pub split-AllWithout : (s : Bytes) (sep : ℕ) → AllWithout sep (split s sep)
unfolding split
split-AllWithout [] sep = (tt, tt)
split-AllWithout (c ∷ s) sep = elim (Bool-cases (c == sep)) [
  | inl e ↦ rw e (tt, split-AllWithout s sep)
  | inr e ↦ rw e (add_first-AllWithout c (split s sep) sep e (split-AllWithout s sep))
]

pub split-join :
    (sep : ℕ) (p : Bytes) (ps : List Bytes)
    → AllWithout sep (p ∷ ps)
    → split (join sep (p ∷ ps)) sep ≡ p ∷ ps
split-join sep p [] (h, tt) = split-Without sep p h
split-join sep p (q ∷ ps) (h, rest) =
    split_at sep p (join sep (q ∷ ps)) h ∙ ap (λ l. p ∷ l) (split-join sep q ps rest)

pub append-Without : (sep : ℕ) (s t : Bytes) → Without sep s → Without sep t → Without sep (s ++ t)
append-Without sep [] t h h' = h'
append-Without sep (c ∷ s) t (other, h) h' = (other, append-Without sep s t h h')

pub take-Without : (sep n : ℕ) (s : Bytes) → Without sep s → Without sep (take s n)
unfolding take
take-Without sep zero s h = tt
take-Without sep (suc n) [] h = tt
take-Without sep (suc n) (c ∷ s) (other, h) = (other, take-Without sep n s h)

pub drop-Without : (sep n : ℕ) (s : Bytes) → Without sep s → Without sep (drop s n)
unfolding drop
drop-Without sep zero s h = h
drop-Without sep (suc n) [] h = tt
drop-Without sep (suc n) (c ∷ s) (other, h) = drop-Without sep n s h
