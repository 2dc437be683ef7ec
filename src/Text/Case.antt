-- ===== src/Text/Case.antt =====
-- `strings.ToLower` on ASCII.
use webrana_infinimail_backe.Prelude.{
  ℕ, ◌+◌, [], ◌∷◌, ◌++◌, ◌&&◌, leb, if◌then◌else◌, ◌≡◌, refl, arith, All,
}
use webrana_infinimail_backe.Text.{Bytes}

unfoldable pub lower : ℕ → ℕ
lower c = if leb b'A' c && leb c b'Z' then c + 32 else c

unfoldable pub to_lower : Bytes → Bytes
unfolding lower
to_lower [] = []
to_lower (c ∷ s) = lower c ∷ to_lower s

-- No byte is an upper-case letter.
abbrev pub IsLower : Bytes → Type 0
IsLower = All (λ c. lower c ≡ c)

pub lower-lower : (c : ℕ) → lower (lower c) ≡ lower c
unfolding lower
lower-lower c = ground arith

pub to_lower-IsLower : (s : Bytes) → IsLower (to_lower s)
unfolding to_lower
to_lower-IsLower [] = tt
to_lower-IsLower (c ∷ s) = (lower-lower c, to_lower-IsLower s)

pub to_lower_fixed : (s : Bytes) → IsLower s → to_lower s ≡ s
unfolding to_lower
to_lower_fixed [] h = refl
to_lower_fixed (c ∷ s) (p, h) = ground (arith, to_lower_fixed s h)

pub to_lower-to_lower : (s : Bytes) → to_lower (to_lower s) ≡ to_lower s
to_lower-to_lower s = to_lower_fixed (to_lower s) (to_lower-IsLower s)

pub to_lower-append : (s t : Bytes) → to_lower (s ++ t) ≡ to_lower s ++ to_lower t
unfolding to_lower
to_lower-append [] t = refl
to_lower-append (c ∷ s) t = ground (arith, to_lower-append s t)
