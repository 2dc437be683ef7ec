-- ===== src/Text.antt =====
-- The functions of Go's package strings that the program calls, over the bytes of a string.
-- Letters and white space are those of ASCII.
pub mod Case
pub mod Trim
pub mod Decimal
pub mod Split
pub mod Replace
use Prim.Native.Char.{code}
use webrana_infinimail_backe.Prelude.{
  ℕ, zero, suc, ◌+◌, ◌-◌, String, List, [], ◌∷◌, ◌++◌, Bool, true, false, ◌&&◌, ◌||◌, ◌==◌, leb,
  if◌then◌else◌, ◌≡◌, ◌↔◌, refl, arith, length, length-append, ap, ◌<◌, ◌≤◌,
}

abbrev pub Bytes : Type 0
Bytes = List ℕ

-- The bytes of an ASCII literal.
unfoldable pub codes : String → Bytes
codes String.[] = []
codes (String.◌∷◌ c s) = code c ∷ codes s

-- `a == b` on strings
unfoldable pub bytes_eq : Bytes → Bytes → Bool
bytes_eq [] [] = true
bytes_eq [] (y ∷ ys) = false
bytes_eq (x ∷ xs) [] = false
bytes_eq (x ∷ xs) (y ∷ ys) = x == y && bytes_eq xs ys

pub bytes_eq_sound : (a b : Bytes) → bytes_eq a b ≡ true → a ≡ b
unfolding bytes_eq
bytes_eq_sound [] [] h = refl
bytes_eq_sound [] (y ∷ b) h = cc
bytes_eq_sound (x ∷ a) [] h = cc
bytes_eq_sound (x ∷ a) (y ∷ b) h = ground (arith, bytes_eq_sound a b)

pub bytes_eq_refl : (a : Bytes) → bytes_eq a a ≡ true
unfolding bytes_eq
bytes_eq_refl [] = refl
bytes_eq_refl (x ∷ a) = ground (arith, bytes_eq_refl a)

pub bytes_eq_complete : (a b : Bytes) → a ≡ b → bytes_eq a b ≡ true
bytes_eq_complete a b p = rw p (bytes_eq_refl b)

pub bytes_eq_iff : (a b : Bytes) → (bytes_eq a b ≡ true) ↔ (a ≡ b)
bytes_eq_iff a b = (bytes_eq_sound a b, bytes_eq_complete a b)

-- `s == ""`
abbrev pub is_empty : Bytes → Bool
is_empty [] = true
is_empty (x ∷ xs) = false

-- `strings.HasPrefix`
unfoldable pub has_prefix : Bytes → Bytes → Bool
has_prefix s [] = true
has_prefix [] (p ∷ ps) = false
has_prefix (c ∷ s) (p ∷ ps) = c == p && has_prefix s ps

-- `strings.Contains`
unfoldable pub contains : Bytes → Bytes → Bool
unfolding has_prefix
contains [] p = has_prefix [] p
contains (c ∷ s) p = has_prefix (c ∷ s) p || contains s p

-- `s[n:]`
unfoldable pub drop : Bytes → ℕ → Bytes
drop s zero = s
drop [] (suc n) = []
drop (c ∷ s) (suc n) = drop s n

-- `s[:n]`
unfoldable pub take : Bytes → ℕ → Bytes
take s zero = []
take [] (suc n) = []
take (c ∷ s) (suc n) = c ∷ take s n

-- `strings.HasSuffix` and `strings.TrimSuffix`
unfoldable pub has_suffix : Bytes → Bytes → Bool
unfolding bytes_eq drop
has_suffix s p = leb (length p) (length s) && bytes_eq (drop s (length s - length p)) p

unfoldable pub trim_suffix_text : Bytes → Bytes → Bytes
unfolding has_suffix take
trim_suffix_text s p = if has_suffix s p then take s (length s - length p) else s

drop-append : (x p : Bytes) → drop (x ++ p) (length x) ≡ p
unfolding drop
drop-append [] p = refl
drop-append (c ∷ x) p = drop-append x p

take-append : (x p : Bytes) → take (x ++ p) (length x) ≡ x
unfolding take
take-append [] p = refl
take-append (c ∷ x) p = ap (◌∷◌ c) (take-append x p)

length-before : (x p : Bytes) → length (x ++ p) - length p ≡ length x
length-before x p = omega (arith, length-append x p)

pub has_suffix-append : (x p : Bytes) → has_suffix (x ++ p) p ≡ true
unfolding has_suffix
has_suffix-append x p =
    rw (length-before x p, drop-append x p, bytes_eq_refl p) (ground (arith, length-append x p))

pub trim_suffix-append : (x p : Bytes) → trim_suffix_text (x ++ p) p ≡ x
unfolding trim_suffix_text
trim_suffix-append x p = rw (has_suffix-append x p) (rw (length-before x p) (take-append x p))

-- a suffix is not longer than the text
pub has_suffix-longer : (s p : Bytes) → length s < length p → has_suffix s p ≡ false
unfolding has_suffix
has_suffix-longer s p h = ground arith

pub length-drop_le : (s : Bytes) (n : ℕ) → length (drop s n) ≤ length s
unfolding drop
length-drop_le s zero = omega arith
length-drop_le [] (suc n) = omega arith
length-drop_le (c ∷ s) (suc n) = ground (arith, length-drop_le s n)

-- `strings.TrimPrefix`
unfoldable pub trim_prefix_text : Bytes → Bytes → Bytes
unfolding has_prefix drop
trim_prefix_text s p = if has_prefix s p then drop s (length p) else s
