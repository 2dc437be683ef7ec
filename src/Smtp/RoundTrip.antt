-- ===== src/Smtp/RoundTrip.antt =====
-- Addresses that `parseEmailAddress` of internal/smtp/session.go reads back.
use webrana_infinimail_backe.Text.Case.{to_lower_fixed}
use webrana_infinimail_backe.Text.Trim.{
  StartsDark, trim_space, is_space, trim_space_fixed, reverse-All,
}
use webrana_infinimail_backe.Smtp.Address.{two_parts, parse_email_address, checked, Normal}
use webrana_infinimail_backe.Text.Split.{trim_prefix, trim_suffix, split, split_at, split-Without}
use webrana_infinimail_backe.Text.{Bytes}
use webrana_infinimail_backe.Effect.{ok}
use webrana_infinimail_backe.Prelude.{
  [], false, refl, ◌∷◌, All, ◌≡◌, ◌++◌, ap, All-append, ◌==◌, arith, ◌∙◌,
}
use mathlib.Core.List.{reverse}

-- Neither white space nor an angle bracket occurs.
abbrev pub Plain : Bytes → Type 0
Plain = All (λ c. (is_space c ≡ false) × (((c == b'<') ≡ false) × ((c == b'>') ≡ false)))

Plain-StartsDark : (s : Bytes) → Plain s → StartsDark s
Plain-StartsDark [] h = tt
Plain-StartsDark (c ∷ s) ((dark, b), h) = dark

trim_space-Plain : (s : Bytes) → Plain s → trim_space s ≡ s
trim_space-Plain s h =
    trim_space_fixed s (Plain-StartsDark s h) (Plain-StartsDark (reverse s) (reverse-All _ s h))

trim_prefix-Plain : (s : Bytes) → Plain s → trim_prefix s b'<' ≡ s
unfolding trim_prefix
trim_prefix-Plain [] h = refl
trim_prefix-Plain (c ∷ s) ((dark, (left, right)), h) = rw left refl

trim_suffix-Plain : (s : Bytes) → Plain s → trim_suffix s b'>' ≡ s
unfolding trim_suffix
trim_suffix-Plain [] h = refl
trim_suffix-Plain (c ∷ []) ((dark, (left, right)), h) = rw right refl
trim_suffix-Plain (c ∷ (d ∷ s)) (p, h) = ap (λ x. c ∷ x) (trim_suffix-Plain (d ∷ s) h)

trim_prefix-bracket : (s : Bytes) → trim_prefix (b'<' ∷ s) b'<' ≡ s
unfolding trim_prefix
trim_prefix-bracket s = refl

trim_suffix-bracket : (s : Bytes) → trim_suffix (s ++ b'>' ∷ []) b'>' ≡ s
unfolding trim_suffix
trim_suffix-bracket [] = refl
trim_suffix-bracket (c ∷ []) = refl
trim_suffix-bracket (c ∷ (d ∷ s)) = ap (λ x. c ∷ x) (trim_suffix-bracket (d ∷ s))

abbrev pub address_of : Bytes → Bytes → Bytes
address_of local_part domain = local_part ++ b'@' ∷ domain

two_parts-address_of :
    (l d : Bytes)
    → Normal l d
    → two_parts (address_of l d) (split (address_of l d) b'@') ≡ ok (l, d)
unfolding two_parts checked
two_parts-address_of l d ((lower_l, lower_d), (some_l, some_d), (no_l, no_d)) =
    let parts : split (address_of l d) b'@' ≡ l ∷ (d ∷ []) =
      split_at b'@' l d no_l ∙ ap (λ x. l ∷ x) (split-Without b'@' d no_d) in
    ap (two_parts (address_of l d)) parts
    ∙ rw (to_lower_fixed l lower_l, to_lower_fixed d lower_d, some_l, some_d) refl

-- A local part and a domain in lower case, not empty, without "@", white space and angle brackets
-- are read back from their address, written plainly or between angle brackets.
pub parse-address_of :
    (l d : Bytes)
    → Normal l d
    → Plain l
    → Plain d
    → (parse_email_address (address_of l d) ≡ ok (l, d))
      × (parse_email_address (b'<' ∷ address_of l d ++ b'>' ∷ []) ≡ ok (l, d))
unfolding parse_email_address
parse-address_of l d normal plain_l plain_d =
    let plain : Plain (address_of l d) =
      All-append _ l (b'@' ∷ d) plain_l ((ground arith, (ground arith, ground arith)), plain_d) in
    let read = two_parts-address_of l d normal in
    let bare : trim_space (trim_suffix (trim_prefix (address_of l d) b'<') b'>') ≡ address_of l d =
      rw (trim_prefix-Plain (address_of l d) plain, trim_suffix-Plain (address_of l d) plain)
        (trim_space-Plain (address_of l d) plain) in
    let inside : trim_space (trim_suffix (address_of l d ++ b'>' ∷ []) b'>') ≡ address_of l d =
      rw (trim_suffix-bracket (address_of l d)) (trim_space-Plain (address_of l d) plain) in
    (rw bare read, rw (trim_prefix-bracket (address_of l d ++ b'>' ∷ []), inside) read)
