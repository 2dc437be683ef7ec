-- ===== src/Websocket/Sets.antt =====
-- A Go map with values `true`, used as a set of clients: a list without duplicates.
use webrana_infinimail_backe.Prelude.{
  [], true, false, inl, inr, ◌∷◌, ℕ, List, Bool, if◌then◌else◌, ◌≡◌, arith, ◌==◌, ◌||◌, Bool-cases,
  ap, sym, ==→eq, ◌∙◌,
}

unfoldable pub member : ℕ → List ℕ → Bool
member c [] = false
member c (x ∷ xs) = x == c || member c xs

-- `set[c] = true`
unfoldable pub add_member : ℕ → List ℕ → List ℕ
unfolding member
add_member c xs = if member c xs then xs else c ∷ xs

-- `delete(set, c)`
unfoldable pub remove_member : ℕ → List ℕ → List ℕ
remove_member c [] = []
remove_member c (x ∷ xs) = let rest = remove_member c xs in if x == c then rest else x ∷ rest

-- `len(set) == 0`
abbrev pub is_nil : List ℕ → Bool
is_nil [] = true
is_nil (x ∷ xs) = false

abbrev pub Distinct : List ℕ → Type 0
Distinct [] = Unit
Distinct (x ∷ xs) = (member x xs ≡ false) × Distinct xs

pub member-add :
    (c d : ℕ) (xs : List ℕ) → member d (add_member c xs) ≡ (if c == d then true else member d xs)
unfolding add_member
member-add c d xs = elim (Bool-cases (member c xs)) [
  | inl old ↦ rw old (elim (Bool-cases (c == d)) [
    | inl e ↦ rw e (ap (λ x. member x xs) (sym (==→eq c d e)) ∙ old)
    | inr e ↦ rw e
  ])
  | inr new ↦ rw new (ground arith)
]

pub member-remove :
    (c d : ℕ) (xs : List ℕ)
    → member d (remove_member c xs) ≡ (if c == d then false else member d xs)
unfolding member remove_member
member-remove c d [] = ground arith
member-remove c d (x ∷ xs) = ground (arith, member-remove c d xs)

pub add-Distinct : (c : ℕ) (xs : List ℕ) → Distinct xs → Distinct (add_member c xs)
unfolding add_member
add-Distinct c xs h = ground arith

pub remove-Distinct : (c : ℕ) (xs : List ℕ) → Distinct xs → Distinct (remove_member c xs)
unfolding remove_member
remove-Distinct c [] h = tt
remove-Distinct c (x ∷ xs) (new, h) = ground (arith, member-remove c x xs, remove-Distinct c xs h)
