-- ===== src/Websocket/Hub/Membership.antt =====
-- Who is subscribed after a step of the hub.
use webrana_infinimail_backe.Websocket.Hub.Protocol.{not_empty}
use webrana_infinimail_backe.Websocket.Sets.{
  add_member, remove_member, member, Distinct, is_nil, remove-Distinct, member-remove,
}
use webrana_infinimail_backe.Websocket.Hub.{without, set_of}
use webrana_infinimail_backe.Prelude.{
  [], true, false, none, some, inl, inr, refl, ◌∷◌, List, ℕ, Option, if◌then◌else◌, ◌≡◌, Bool-cases,
  ◌==◌, subst, ap, sym, ◌∙◌, arith,
}

set_of-unless_nil : (ys : List ℕ) → set_of (if is_nil ys then none else some ys) ≡ ys
set_of-unless_nil [] = refl
set_of-unless_nil (y ∷ ys) = refl

unless_nil-not_empty : (ys : List ℕ) → not_empty (if is_nil ys then none else some ys) ≡ true
unless_nil-not_empty [] = refl
unless_nil-not_empty (y ∷ ys) = refl

pub set_of-without :
    (c : ℕ) (o : Option (List ℕ)) → set_of (without c o) ≡ remove_member c (set_of o)
unfolding without remove_member
set_of-without c none = refl
set_of-without c (some xs) = set_of-unless_nil (remove_member c xs)

pub without-not_empty : (c : ℕ) (o : Option (List ℕ)) → not_empty (without c o) ≡ true
unfolding without
without-not_empty c none = refl
without-not_empty c (some xs) = unless_nil-not_empty (remove_member c xs)

pub add-not_empty : (c : ℕ) (xs : List ℕ) → not_empty (some (add_member c xs)) ≡ true
unfolding add_member member
add-not_empty c [] = refl
add-not_empty c (x ∷ xs) = elim (Bool-cases (member c (x ∷ xs))) [
  | inl old ↦ rw old refl
  | inr new ↦ rw new refl
]

pub member-without :
    (c d : ℕ) (o : Option (List ℕ))
    → member d (set_of (without c o)) ≡ (if c == d then false else member d (set_of o))
member-without c d o = ap (member d) (set_of-without c o) ∙ member-remove c d (set_of o)

pub without-Distinct :
    (c : ℕ) (o : Option (List ℕ)) → Distinct (set_of o) → Distinct (set_of (without c o))
without-Distinct c o h = subst Distinct (sym (set_of-without c o)) (remove-Distinct c (set_of o) h)

pub still_member :
    (c d : ℕ) (o : Option (List ℕ))
    → member d (set_of (without c o)) ≡ true
    → member d (set_of o) ≡ true
still_member c d o inside =
    let h = sym (member-without c d o) ∙ inside in
    elim (Bool-cases (c == d)) [ inl e ↦ ground arith | inr e ↦ sym (rw e refl) ∙ h ]
