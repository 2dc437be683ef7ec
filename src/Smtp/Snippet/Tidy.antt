-- ===== src/Smtp/Snippet/Tidy.antt =====
-- The white space and the length of a snippet.

use webrana_infinimail_backe.Text.Split.{join, add_first}
use mathlib.Core.List.{reverse, reverse-cons}
use webrana_infinimail_backe.Text.Replace.{fields, add_to_field}
use webrana_infinimail_backe.Text.Trim.{
  StartsDark, is_space, reverse-All, trim_space, trim_space_fixed,
}
use webrana_infinimail_backe.Text.{codes, Bytes, is_empty}
use webrana_infinimail_backe.Smtp.Snippet.{truncated, generate_snippet, chosen_text}
use webrana_infinimail_backe.Prelude.{
  inl, inr, length, ◌≤◌, Bool-cases, ltb, arith, length-append, take, length-take, [], true, false,
  refl, ◌∷◌, Bool, ℕ, All, ◌++◌, List, ◌≡◌, ◌⊎◌, sym, append-nil, zero, suc, subst, if◌then◌else◌,
}

length-truncated : (s : Bytes) → length (truncated s) ≤ 255
unfolding truncated codes
length-truncated s = elim (Bool-cases (ltb 255 (length s))) [
  | inl long ↦ rw long (omega (arith, length-append (take 252 s) (codes "..."), length-take 252 s))
  | inr short ↦ rw short (ground arith)
]

-- No white space but single spaces, the first of which may come at the start if the flag is on.
abbrev IsNeat : Bool → Bytes → Type 0
IsNeat spaced [] = Unit
IsNeat spaced (c ∷ s) =
    ((is_space c ≡ false) × IsNeat true s) ⊎ ((spaced ≡ true) × (c ≡ b' ') × IsNeat false s)

-- The last byte, if any, is no white space.
abbrev EndsDark : Bytes → Type 0
EndsDark s = StartsDark (reverse s)

abbrev IsWord : Bytes → Type 0
IsWord [] = ⊥
IsWord (c ∷ s) = (is_space c ≡ false) × All (λ d. is_space d ≡ false) s

add_first-Words :
    (c : ℕ) (ps : List Bytes) → is_space c ≡ false → All IsWord ps → All IsWord (add_first c ps)
add_first-Words c [] e h = ((e, tt), tt)
add_first-Words c ([] ∷ ps) e (first, h) = elim first [ ]
add_first-Words c ((d ∷ p) ∷ ps) e (first, h) = ((e, first), h)

add_to_field-Words :
    (c : ℕ) (s : Bytes) (ps : List Bytes)
    → is_space c ≡ false
    → All IsWord ps
    → All IsWord (add_to_field c s ps)
add_to_field-Words c [] ps e h = ((e, tt), h)
add_to_field-Words c (d ∷ s) ps e h = elim (Bool-cases (is_space d)) [
  | inl space ↦ rw space ((e, tt), h)
  | inr dark ↦ rw dark (add_first-Words c ps e h)
]

fields-Words : (s : Bytes) → All IsWord (fields s)
unfolding fields
fields-Words [] = tt
fields-Words (c ∷ s) = elim (Bool-cases (is_space c)) [
  | inl space ↦ rw space (fields-Words s)
  | inr dark ↦ rw dark (add_to_field-Words c s (fields s) dark (fields-Words s))
]

dark-IsNeat : (p t : Bytes) → All (λ d. is_space d ≡ false) p → IsNeat true t → IsNeat true (p ++ t)
dark-IsNeat [] t h neat = neat
dark-IsNeat (c ∷ p) t (e, h) neat = inl (e, dark-IsNeat p t h neat)

word-IsNeat : (p t : Bytes) → IsWord p → IsNeat true t → IsNeat false (p ++ t)
word-IsNeat [] t h neat = elim h [ ]
word-IsNeat (c ∷ p) t (e, h) neat = inl (e, dark-IsNeat p t h neat)

join-IsNeat : (ps : List Bytes) → All IsWord ps → IsNeat false (join b' ' ps)
join-IsNeat [] h = tt
join-IsNeat (p ∷ []) (word, h) = rw (sym (append-nil p)) (word-IsNeat p [] word tt)
join-IsNeat (p ∷ (q ∷ ps)) (word, h) =
    word-IsNeat p (b' ' ∷ join b' ' (q ∷ ps)) word (inr (refl, refl, join-IsNeat (q ∷ ps) h))

cons-EndsDark : (c : ℕ) (s : Bytes) → is_empty s ≡ false → EndsDark s → EndsDark (c ∷ s)
cons-EndsDark c [] more h = cc more
cons-EndsDark c (d ∷ s) more h =
    subst StartsDark (sym (reverse-cons c (d ∷ s)))
      (rw (reverse-cons d s) (kept (reverse s) (rw (reverse-cons d s) at h)))
  where
    kept : (x : Bytes) → StartsDark (x ++ d ∷ []) → StartsDark ((x ++ d ∷ []) ++ c ∷ [])
    kept [] k = k
    kept (e ∷ x) k = k

append-not_empty : (p t : Bytes) → is_empty t ≡ false → is_empty (p ++ t) ≡ false
append-not_empty [] t more = more
append-not_empty (c ∷ p) t more = refl

append-EndsDark : (p t : Bytes) → is_empty t ≡ false → EndsDark t → EndsDark (p ++ t)
append-EndsDark [] t more h = h
append-EndsDark (c ∷ p) t more h =
    cons-EndsDark c (p ++ t) (append-not_empty p t more) (append-EndsDark p t more h)

All-EndsDark : (s : Bytes) → All (λ d. is_space d ≡ false) s → EndsDark s
All-EndsDark s h = starts (reverse s) (reverse-All (λ d. is_space d ≡ false) s h)
  where
    starts : (x : Bytes) → All (λ d. is_space d ≡ false) x → StartsDark x
    starts [] k = tt
    starts (c ∷ x) (dark, k) = dark

word-EndsDark : (p : Bytes) → IsWord p → EndsDark p
word-EndsDark [] h = elim h [ ]
word-EndsDark (c ∷ p) h = All-EndsDark (c ∷ p) h

join-not_empty : (p : Bytes) (ps : List Bytes) → IsWord p → is_empty (join b' ' (p ∷ ps)) ≡ false
join-not_empty [] ps h = elim h [ ]
join-not_empty (c ∷ p) [] h = refl
join-not_empty (c ∷ p) (q ∷ ps) h = refl

join-EndsDark : (ps : List Bytes) → All IsWord ps → EndsDark (join b' ' ps)
join-EndsDark [] h = tt
join-EndsDark (p ∷ []) (word, h) = word-EndsDark p word
join-EndsDark (p ∷ (q ∷ ps)) (word, (next, h)) =
    append-EndsDark p (b' ' ∷ join b' ' (q ∷ ps)) refl (
      cons-EndsDark b' ' (join b' ' (q ∷ ps)) (join-not_empty q ps next)
        (join-EndsDark (q ∷ ps) (next, h)))

neat-StartsDark : (s : Bytes) → IsNeat false s → StartsDark s
neat-StartsDark [] h = tt
neat-StartsDark (c ∷ s) (inl (dark, h)) = dark
neat-StartsDark (c ∷ s) (inr (may, space, h)) = cc may

take-IsNeat : (n : ℕ) (b : Bool) (s : Bytes) → IsNeat b s → IsNeat b (take n s)
take-IsNeat zero b s h = tt
take-IsNeat (suc n) b [] h = tt
take-IsNeat (suc n) b (c ∷ s) (inl (dark, h)) = inl (dark, take-IsNeat n true s h)
take-IsNeat (suc n) b (c ∷ s) (inr (may, space, h)) = inr (may, space, take-IsNeat n false s h)

append-IsNeat : (b : Bool) (s : Bytes) → IsNeat b s → IsNeat b (s ++ b'.' ∷ b'.' ∷ b'.' ∷ [])
unfolding is_space
append-IsNeat b [] h = inl (refl, inl (refl, inl (refl, tt)))
append-IsNeat b (c ∷ s) (inl (dark, h)) = inl (dark, append-IsNeat true s h)
append-IsNeat b (c ∷ s) (inr (may, space, h)) = inr (may, space, append-IsNeat false s h)

-- A text of at most 255 bytes whose white space is single spaces, none at the start and the end.
abbrev pub IsTidy : Bytes → Type 0
IsTidy s = (length s ≤ 255) × IsNeat false s × EndsDark s

truncated-IsTidy : (s : Bytes) → IsNeat false s → EndsDark s → IsTidy (truncated s)
unfolding truncated codes is_space
truncated-IsTidy s neat ends =
    let dots : Bytes = b'.' ∷ b'.' ∷ b'.' ∷ [] in
    let cut : IsNeat false (take 252 s ++ dots) =
      append-IsNeat false (take 252 s) (take-IsNeat 252 false s neat) in
    (
      length-truncated s,
      elim (Bool-cases (ltb 255 (length s))) [
        | inl long ↦ subst (λ b. IsNeat false (if b then take 252 s ++ dots else s)) (sym long) cut
        | inr short ↦
            subst (λ b. IsNeat false (if b then take 252 s ++ dots else s)) (sym short) neat
      ],
      elim (Bool-cases (ltb 255 (length s))) [
        | inl long ↦
            subst (λ b. EndsDark (if b then take 252 s ++ dots else s)) (sym long)
              (append-EndsDark (take 252 s) dots refl refl)
        | inr short ↦ subst (λ b. EndsDark (if b then take 252 s ++ dots else s)) (sym short) ends
      ],
    )

-- Whatever the texts of the email are, the snippet has at most 255 bytes, its white space, that of
-- ASCII, is single spaces, and it neither starts nor ends with white space.
pub generate_snippet-IsTidy : (text html : Bytes) → IsTidy (generate_snippet text html)
unfolding generate_snippet
generate_snippet-IsTidy text html =
    let words : List Bytes = fields (chosen_text text html) in
    let good : All IsWord words = fields-Words (chosen_text text html) in
    let neat : IsNeat false (join b' ' words) = join-IsNeat words good in
    let ends : EndsDark (join b' ' words) = join-EndsDark words good in
    let same : trim_space (join b' ' words) ≡ join b' ' words =
      trim_space_fixed (join b' ' words) (neat-StartsDark (join b' ' words) neat) ends in
    subst (λ s. IsTidy (truncated s)) (sym same) (truncated-IsTidy (join b' ' words) neat ends)
