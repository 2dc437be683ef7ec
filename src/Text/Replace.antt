-- ===== src/Text/Replace.antt =====
-- `ReplaceAllString` of the Go package regexp for expressions given by the length of their match at
-- a place, `strings.ReplaceAll` and `strings.Fields`.
use mathlib.Core.Option.{map}
use webrana_infinimail_backe.Text.Split.{add_first}
use webrana_infinimail_backe.Text.Trim.{is_space}
use webrana_infinimail_backe.Text.Case.{lower}
use webrana_infinimail_backe.Text.{Bytes, bytes_eq}
use webrana_infinimail_backe.Prelude.{
  zero, suc, [], none, some, ◌∷◌, ℕ, Option, ◌++◌, if◌then◌else◌, List, ◌==◌, take, length,
}

-- The length of a match at the start of a text, less one, if there is a match. No match is empty.
abbrev pub Pattern : Type 0
Pattern = Bytes → Option ℕ

abbrev replaced : Bytes → ℕ → (ℕ → Bytes) → Option ℕ → Bytes
replaced new c rest none = c ∷ rest 0
replaced new c rest (some n) = new ++ rest n

-- Every match is replaced, from the left; the number is that of bytes still to be left out.
unfoldable pub replace_from : Pattern → Bytes → ℕ → Bytes → Bytes
replace_from p new n [] = []
replace_from p new zero (c ∷ s) = replaced new c (λ m. replace_from p new m s) (p (c ∷ s))
replace_from p new (suc n) (c ∷ s) = replace_from p new n s

unfoldable pub replace_all : Pattern → Bytes → Bytes → Bytes
unfolding replace_from
replace_all p new s = replace_from p new 0 s

-- The text after a prefix, in any case of letters, if it is one.
unfoldable pub after_prefix : Bytes → Bytes → Option Bytes
unfolding lower
after_prefix [] s = some s
after_prefix (p ∷ ps) [] = none
after_prefix (p ∷ ps) (c ∷ s) = if lower p == lower c then after_prefix ps s else none

-- a text as it is written
unfoldable pub literal : Bytes → Pattern
unfolding bytes_eq
literal [] s = none
literal (p ∷ ps) s = if bytes_eq (p ∷ ps) (take (suc (length ps)) s) then some (length ps) else none

-- the number of bytes before a byte
unfoldable pub index_byte : ℕ → Bytes → Option ℕ
index_byte b [] = none
index_byte b (c ∷ s) = if c == b then some 0 else map suc (index_byte b s)

abbrev found_or : Option Bytes → Option ℕ → Option ℕ
found_or (some rest) later = some 0
found_or none later = map suc later

-- the number of bytes before a text, in any case of letters
unfoldable pub index_text : Bytes → Bytes → Option ℕ
unfolding after_prefix
index_text t [] = none
index_text t (c ∷ s) = found_or (after_prefix t (c ∷ s)) (index_text t s)

abbrev pub add_to_field : ℕ → Bytes → List Bytes → List Bytes
add_to_field c [] fields = (c ∷ []) ∷ fields
add_to_field c (d ∷ s) fields = if is_space d then (c ∷ []) ∷ fields else add_first c fields

unfoldable pub fields : Bytes → List Bytes
unfolding is_space
fields [] = []
fields (c ∷ s) = let rest = fields s in if is_space c then rest else add_to_field c s rest
