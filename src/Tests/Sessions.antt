-- ===== src/Tests/Sessions.antt =====
-- One client's session among deliveries and broadcasts.
use webrana_infinimail_backe.Websocket.Sessions.{sessions_never_panic}
use webrana_infinimail_backe.Websocket.Hub.Protocol.{WellFormed, phases_after, all_fresh}
use webrana_infinimail_backe.Websocket.Hub.{
  broadcast, Hub, Event, run, register, new_hub, subscribe, receive, unregister,
}
use webrana_infinimail_backe.Websocket.Client.{requests_of, session, WsMessage, subscribe_type}
use webrana_infinimail_backe.Text.{Bytes, codes}
use webrana_infinimail_backe.Prelude.{
  [], none, some, inl, inr, refl, ◌∷◌, List, ℕ, Option, Bool-cases, ◌==◌, ◌++◌, subst, ◌≡◌, ==→eq,
}

abbrev no_errors : Bytes → Option Bytes
no_errors text = none

abbrev mixed : List Event
mixed = register 1 ∷ subscribe 1 5 ∷ broadcast 5 (codes "a") ∷ receive 1 ∷ unregister 1 ∷ []

abbrev texts : List (Option WsMessage)
texts = some (record { kind = subscribe_type; mailbox_id = 5 }) ∷ []

abbrev Script : ℕ → Type 0
Script c =
    (t : List (Option WsMessage)) × (more : List Event) × (requests_of c mixed ++ more
      ≡ session no_errors c t)

visitor : Script 1
unfolding requests_of session
visitor = (texts, [], refl)

scripts : (c : ℕ) → Script c
unfolding requests_of
scripts c = elim (Bool-cases (1 == c)) [
  | inl e ↦ subst Script (==→eq 1 c e) visitor
  | inr e ↦ ([], session no_errors c [], rw e refl)
]

sessions_never_panic_example :
    (h : Hub) × (run mixed new_hub ≡ some h) × WellFormed h (phases_after mixed all_fresh)
sessions_never_panic_example = sessions_never_panic no_errors mixed scripts
