-- ===== src/Smtp/Address.antt =====
-- `parseEmailAddress` of internal/smtp/session.go
use webrana_infinimail_backe.Text.Trim.{trim_space}
use webrana_infinimail_backe.Text.Split.{
  trim_prefix, trim_suffix, Without, AllWithout, split, split-AllWithout,
}
use webrana_infinimail_backe.Text.Case.{to_lower, lower, IsLower, to_lower-IsLower}
use webrana_infinimail_backe.Text.{codes, Bytes, is_empty}
use webrana_infinimail_backe.Effect.{ok, err, Err, Result, message}
use webrana_infinimail_backe.Prelude.{
  [], false, inl, inr, refl, ◌∷◌, List, ℕ, ◌≡◌, if◌then◌else◌, ◌==◌, ◌++◌, ◌||◌, arith, Bool-cases,
  subst, sym, ◌∙◌,
}

invalid_address : Bytes → Err
unfolding codes
invalid_address address = message (codes "invalid email address: " ++ address)

-- the checks of the two parts
unfoldable pub checked : Bytes → Bytes → Bytes → Result (Bytes × Bytes)
unfolding invalid_address
checked address local_part domain =
    if is_empty local_part || is_empty domain
    then err (invalid_address address)
    else ok (local_part, domain)

unfoldable pub two_parts : Bytes → List Bytes → Result (Bytes × Bytes)
unfolding invalid_address to_lower checked
two_parts address [] = err (invalid_address address)
two_parts address (p ∷ []) = err (invalid_address address)
two_parts address (p ∷ (q ∷ [])) = checked address (to_lower p) (to_lower q)
two_parts address (p ∷ (q ∷ (r ∷ ps))) = err (invalid_address address)

unfoldable pub parse_email_address : Bytes → Result (Bytes × Bytes)
unfolding trim_prefix trim_suffix trim_space split two_parts
parse_email_address raw =
    let address : Bytes = trim_space (trim_suffix (trim_prefix raw b'<') b'>') in
    two_parts address (split address b'@')

-- The two parts are in lower case, not empty and without "@".
abbrev pub Normal : Bytes → Bytes → Type 0
Normal local_part domain =
    (IsLower local_part × IsLower domain)
    × ((is_empty local_part ≡ false) × (is_empty domain ≡ false))
    × (Without b'@' local_part × Without b'@' domain)

lower-at : (c : ℕ) → (c == b'@') ≡ false → (lower c == b'@') ≡ false
unfolding lower
lower-at c h = ground arith

to_lower-Without : (s : Bytes) → Without b'@' s → Without b'@' (to_lower s)
unfolding to_lower
to_lower-Without [] h = tt
to_lower-Without (c ∷ s) (other, h) = (lower-at c other, to_lower-Without s h)

checked-ok :
    (address l d l' d' : Bytes)
    → checked address l d ≡ ok (l', d')
    → (l ≡ l') × (d ≡ d') × (is_empty l ≡ false) × (is_empty d ≡ false)
unfolding checked
checked-ok address l d l' d' h = elim (Bool-cases (is_empty l)) [
  | inl e ↦ cc (rw e at h)
  | inr e ↦ elim (Bool-cases (is_empty d)) [
    | inl e' ↦ cc (rw (e, e') at h)
    | inr e' ↦
        let same : ok (l, d) ≡ ok (l', d') = sym (rw (e, e') refl) ∙ h in (cc same, cc same, e, e')
  ]
]

two_parts-Normal :
    (address : Bytes) (ps : List Bytes) (l d : Bytes)
    → AllWithout b'@' ps
    → two_parts address ps ≡ ok (l, d)
    → Normal l d
unfolding two_parts
two_parts-Normal address [] l d w h = cc h
two_parts-Normal address (p ∷ []) l d w h = cc h
two_parts-Normal address (p ∷ (q ∷ [])) l d (wp, (wq, w)) h =
    let (left, right, some_left, some_right) = checked-ok address (to_lower p) (to_lower q) l d h in
    subst (λ x. Normal x d) left
      (subst (λ y. Normal (to_lower p) y) right
        (
          (to_lower-IsLower p, to_lower-IsLower q),
          (some_left, some_right),
          (to_lower-Without p wp, to_lower-Without q wq),
        ))
two_parts-Normal address (p ∷ (q ∷ (r ∷ ps))) l d w h = cc h

-- An address that is accepted has a local part and a domain in lower case, both not empty and
-- without "@".
pub parse_email_address-Normal :
    (raw l d : Bytes) → parse_email_address raw ≡ ok (l, d) → Normal l d
unfolding parse_email_address
parse_email_address-Normal raw l d h =
    let address : Bytes = trim_space (trim_suffix (trim_prefix raw b'<') b'>') in
    two_parts-Normal address (split address b'@') l d (split-AllWithout address b'@') h
