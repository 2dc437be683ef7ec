-- ===== src/Smtp/Parser/From.antt =====
-- A From header with a quoted name, read back.

use mathlib.Core.List.{reverse, reverse-append}
use webrana_infinimail_backe.Text.Trim.{StartsDark, is_space, trim_space, trim_space_fixed}
use webrana_infinimail_backe.Text.Split.{Without, trim_prefix}
use webrana_infinimail_backe.Text.{contains, Bytes, has_prefix, codes, is_empty}
use webrana_infinimail_backe.Smtp.Parser.{
  until, name_part, closed_email, is_bracketed, closed_name, all_spaces, matches, parse_from_header,
  both_groups, trimmed_header, or_whole,
}
use webrana_infinimail_backe.Prelude.{
  [], true, some, refl, ◌∷◌, ℕ, ◌++◌, ◌≡◌, ==-refl, arith, false, ap, subst, sym,
}

until-at : (c : ℕ) (s t : Bytes) → Without c s → until c (s ++ c ∷ t) ≡ (s, c ∷ t)
unfolding until
until-at c [] t h = rw (==-refl c) refl
until-at c (b ∷ s) t (other, h) = rw (other, until-at c s t h) refl

contains-at : (c : ℕ) (s t : Bytes) → contains (s ++ c ∷ t) (c ∷ []) ≡ true
unfolding contains has_prefix
contains-at c [] t = rw (==-refl c) refl
contains-at c (b ∷ s) t = ground (arith, contains-at c s t)

Without-append : (c : ℕ) (s t : Bytes) → Without c s → Without c t → Without c (s ++ t)
Without-append c [] t h k = k
Without-append c (b ∷ s) t (other, h) k = (other, Without-append c s t h k)

-- The text can stand between quotes.
pub record IsName (name : Bytes) : Type 0 where
  pub unquoted : Without b'"' name
  pub unopened : Without b'<' name
  pub starts : StartsDark name
  pub ends : StartsDark (reverse name)

-- The text can stand between brackets.
pub record IsMailbox (email : Bytes) : Type 0 where
  pub unclosed : Without b'>' email
  pub bracketed : is_bracketed email ≡ true
  pub starts : StartsDark email
  pub ends : StartsDark (reverse email)

abbrev quoted : Bytes → Bytes
quoted name = b'"' ∷ (name ++ b'"' ∷ b' ' ∷ [])

-- `"name" <email>`
unfoldable pub from_header : Bytes → Bytes → Bytes
from_header name email = quoted name ++ b'<' ∷ (email ++ b'>' ∷ [])

name_part-quoted : (name : Bytes) → IsName name → name_part (quoted name) ≡ some name
unfolding name_part trim_prefix closed_name all_spaces
name_part-quoted name h = rw (until-at b'"' name (b' ' ∷ []) h.unquoted) refl

closed_email-at :
    (email : Bytes) → IsMailbox email → closed_email (until b'>' (email ++ b'>' ∷ [])) ≡ some email
unfolding closed_email
closed_email-at email h = rw (until-at b'>' email [] h.unclosed, h.bracketed) refl

append_at : (s t : Bytes) (c : ℕ) → s ++ b'<' ∷ (t ++ c ∷ []) ≡ (s ++ b'<' ∷ t) ++ c ∷ []
append_at [] t c = refl
append_at (b ∷ s) t c = ap (λ x. b ∷ x) (append_at s t c)

ends_at : (s : Bytes) (c : ℕ) → is_space c ≡ false → StartsDark (reverse (s ++ c ∷ []))
ends_at s c h = subst StartsDark (sym (reverse-append s (c ∷ []))) h

quoted-Unopened : (name : Bytes) → IsName name → Without b'<' (quoted name)
quoted-Unopened name h = (
  ground arith,
  Without-append b'<' name (b'"' ∷ b' ' ∷ []) h.unopened (ground arith, (ground arith, tt)),
)

matches-from_header :
    (name email : Bytes)
    → IsName name
    → IsMailbox email
    → matches (until b'<' (from_header name email)) ≡ some (name, email)
unfolding matches from_header both_groups
matches-from_header name email h k =
    rw
      (
        until-at b'<' (quoted name) (email ++ b'>' ∷ []) (quoted-Unopened name h),
        name_part-quoted name h,
        closed_email-at email k,
      )
      refl

trim_space-from_header :
    (name email : Bytes) → trim_space (from_header name email) ≡ from_header name email
unfolding from_header is_space
trim_space-from_header name email = trim_space_fixed (from_header name email) (ground arith) (
    subst (λ x. StartsDark (reverse x)) (sym (append_at (quoted name) email b'>'))
      (ends_at (quoted name ++ b'<' ∷ email) b'>' (ground arith)))

some_text : (name email : Bytes) → is_empty (from_header name email) ≡ false
unfolding from_header
some_text name email = refl

opens : (name email : Bytes) → contains (from_header name email) (codes "<") ≡ true
unfolding from_header codes
opens name email = contains-at b'<' (quoted name) (email ++ b'>' ∷ [])

closes : (name email : Bytes) → contains (from_header name email) (codes ">") ≡ true
unfolding from_header codes
closes name email =
    subst (λ x. contains x (b'>' ∷ []) ≡ true) (sym (append_at (quoted name) email b'>'))
      (contains-at b'>' (quoted name ++ b'<' ∷ email) [])

-- A name without quotes and "<", and an address with "@" inside it and without angle brackets,
-- neither of which starts or ends with white space, are read back from the From header that has the
-- name in quotes and the address in angle brackets.
pub parse-from_header :
    (name email : Bytes)
    → IsName name
    → IsMailbox email
    → parse_from_header (from_header name email) ≡ (name, email)
unfolding parse_from_header trimmed_header or_whole codes
parse-from_header name email h k =
    rw
      (
        trim_space-from_header name email,
        some_text name email,
        opens name email,
        closes name email,
        matches-from_header name email h k,
        trim_space_fixed name h.starts h.ends,
        trim_space_fixed email k.starts k.ends,
      )
      refl
