-- ===== src/Websocket/Hub/Delivery.antt =====
-- What a broadcast does to the clients' channels.
use webrana_infinimail_backe.Websocket.Sets.{member, Distinct}
use webrana_infinimail_backe.Websocket.Hub.{try_send, send_all, Channel, update_at, capacity}
use webrana_infinimail_backe.Text.{Bytes}
use webrana_infinimail_backe.Prelude.{
  [], true, false, some, inl, inr, refl, ◌∷◌, List, ℕ, if◌then◌else◌, ◌≡◌, ltb, ◌==◌, arith,
  ==-refl, length, Bool-cases, ◌++◌, subst, ==→eq, ap, sym, ◌∙◌, Option,
}

-- the channel after a message that is dropped if there is no room
abbrev pub delivered : Bytes → Channel → Channel
delivered msg ch =
    if ltb (length ch.buffer) capacity then record ch { buffer = ch.buffer ++ msg ∷ [] } else ch

-- Every member's channel is open.
abbrev pub AllOpen : List ℕ → (ℕ → Channel) → Type 0
AllOpen xs send = (c : ℕ) → member c xs ≡ true → (send c).closed ≡ false

pub try_send-open :
    (x : ℕ) (msg : Bytes) (send : ℕ → Channel)
    → (send x).closed ≡ false
    → (send' : ℕ → Channel) × (try_send x msg send ≡ some send')
      × ((c : ℕ) → send' c ≡ (if x == c then delivered msg (send c) else send c))
unfolding try_send update_at
try_send-open x msg send open_ = elim (Bool-cases (ltb (length (send x).buffer) capacity)) [
  | inl room ↦ (
    update_at send x (record (send x) { buffer = (send x).buffer ++ msg ∷ [] }),
    rw (open_, room),
    λ c. elim (Bool-cases (x == c)) [
      | inl e ↦ rw e (
          subst
            (λ y. record (send x) { buffer = (send x).buffer ++ msg ∷ [] } ≡ delivered msg (send y))
            (==→eq x c e) (rw room))
      | inr e ↦ rw e
    ],
  )
  | inr full ↦ (
    send,
    rw (open_, full),
    λ c. elim (Bool-cases (x == c)) [
      | inl e ↦ rw e (subst (λ y. send y ≡ delivered msg (send y)) (==→eq x c e) (rw full))
      | inr e ↦ rw e
    ],
  )
]

pub closed-delivered : (msg : Bytes) (ch : Channel) → (delivered msg ch).closed ≡ ch.closed
closed-delivered msg ch = ground arith

open_after :
    (x : ℕ) (xs : List ℕ) (msg : Bytes) (send send' : ℕ → Channel)
    → AllOpen (x ∷ xs) send
    → ((c : ℕ) → send' c ≡ (if x == c then delivered msg (send c) else send c))
    → AllOpen xs send'
unfolding member
open_after x xs msg send send' o at c inside =
    let was = o c (elim (Bool-cases (x == c)) [ inl e ↦ rw e | inr e ↦ rw (e, inside) ]) in
    elim (Bool-cases (x == c)) [
      | inl e ↦ rw (at c, e, closed-delivered msg (send c)) was
      | inr e ↦ rw (at c, e) was
    ]

once :
    (x : ℕ) (xs : List ℕ) (msg : Bytes) (send send' send'' : ℕ → Channel)
    → member x xs ≡ false
    → ((c : ℕ) → send' c ≡ (if x == c then delivered msg (send c) else send c))
    → ((c : ℕ) → send'' c ≡ (if member c xs then delivered msg (send' c) else send' c))
    → (c : ℕ) → send'' c ≡ (if member c (x ∷ xs) then delivered msg (send c) else send c)
unfolding member
once x xs msg send send' send'' new at₁ at₂ c = elim (Bool-cases (x == c)) [
  | inl e ↦
      let out = ap (λ y. member y xs) (sym (==→eq x c e)) ∙ new in rw (at₂ c, at₁ c, e, out) refl
  | inr e ↦ rw (at₂ c, at₁ c, e) refl
]

send_all-cons :
    (x : ℕ) (xs : List ℕ) (msg : Bytes) (send send' : ℕ → Channel) (after : Option (ℕ → Channel))
    → try_send x msg send ≡ some send'
    → send_all xs msg send' ≡ after
    → send_all (x ∷ xs) msg send ≡ after
unfolding send_all
send_all-cons x xs msg send send' after sent rest = rw (send_all, sent) rest

-- A broadcast to clients with open channels, none of them twice, panics nowhere; each of them with
-- room gets the message at the end of its channel, and no other channel changes.
pub send_all-delivers :
    (xs : List ℕ) (msg : Bytes) (send : ℕ → Channel)
    → Distinct xs
    → AllOpen xs send
    → (send' : ℕ → Channel) × (send_all xs msg send ≡ some send')
      × ((c : ℕ) → send' c ≡ (if member c xs then delivered msg (send c) else send c))
unfolding send_all member
send_all-delivers [] msg send d o = (send, refl, λ c. refl)
send_all-delivers (x ∷ xs) msg send (new, d) o =
    let (send₁, sent, at₁) = try_send-open x msg send (o x (rw (==-refl x))) in
    let (send₂, rest, at₂) =
      send_all-delivers xs msg send₁ d (open_after x xs msg send send₁ o at₁) in
    (
      send₂,
      send_all-cons x xs msg send send₁ (some send₂) sent rest,
      once x xs msg send send₁ send₂ new at₁ at₂,
    )
