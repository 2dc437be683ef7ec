-- ===== src/Text/Trim.antt =====
-- `strings.TrimSpace` on ASCII.
use mathlib.Core.List.{reverse, reverse-reverse, reverse-cons}
use webrana_infinimail_backe.Prelude.{
  ℕ, [], ◌∷◌, Bool, false, ◌==◌, ◌||◌, ◌&&◌, leb, if◌then◌else◌, ◌≡◌, refl, arith, All, subst, sym,
  All-append,
}
use webrana_infinimail_backe.Text.{Bytes}

-- tab, line feed, vertical tab, form feed, carriage return and space
unfoldable pub is_space : ℕ → Bool
is_space c = (leb 9 c && leb c 13) || c == 32

unfoldable pub trim_left : Bytes → Bytes
unfolding is_space
trim_left [] = []
trim_left (c ∷ s) = if is_space c then trim_left s else c ∷ s

unfoldable pub trim_space : Bytes → Bytes
unfolding trim_left
trim_space s = reverse (trim_left (reverse (trim_left s)))

-- The first byte, if any, is no white space.
abbrev pub StartsDark : Bytes → Type 0
StartsDark [] = Unit
StartsDark (c ∷ s) = is_space c ≡ false

pub trim_left-StartsDark : (s : Bytes) → StartsDark (trim_left s)
unfolding trim_left
trim_left-StartsDark [] = tt
trim_left-StartsDark (c ∷ s) = ground (arith, trim_left-StartsDark s)

pub trim_left_fixed : (s : Bytes) → StartsDark s → trim_left s ≡ s
unfolding trim_left
trim_left_fixed [] h = refl
trim_left_fixed (c ∷ s) h = ground arith

-- Text with no white space at either end is left as it is.
pub trim_space_fixed : (s : Bytes) → StartsDark s → StartsDark (reverse s) → trim_space s ≡ s
unfolding trim_space
trim_space_fixed s h k =
    rw (trim_left_fixed s h) (rw (trim_left_fixed (reverse s) k) (reverse-reverse s))

pub reverse-All : (P : ℕ → Type 0) (s : Bytes) → All P s → All P (reverse s)
reverse-All P [] h = tt
reverse-All P (c ∷ s) (first, h) =
    subst (λ x. All P x) (sym (reverse-cons c s))
      (All-append P (reverse s) (c ∷ []) (reverse-All _ s h) (first, tt))
