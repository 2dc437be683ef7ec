-- ===== src/Websocket/Hub/Runs.antt =====
-- Whole runs of the hub of internal/websocket/hub.go: any interleaving of the clients' requests.
use webrana_infinimail_backe.Websocket.Hub.Preservation.{step-WellFormed}
use webrana_infinimail_backe.Websocket.Sets.{member}
use webrana_infinimail_backe.Websocket.Hub.Protocol.{
  WellFormed, follows, all_fresh, phases_after, Phases, allowed, advance,
}
use webrana_infinimail_backe.Websocket.Hub.{new_hub, run, Event, Hub, step}
use webrana_infinimail_backe.Prelude.{
  [], true, some, refl, ◌∷◌, List, arith, ◌≡◌, false, Bool, Option, ◌&&◌,
}

pub new_hub-WellFormed : WellFormed new_hub all_fresh
unfolding new_hub member
new_hub-WellFormed = record {
  registered = λ c. refl;
  closed_if_gone = λ c. refl;
  subscribed_live = λ m c inside. inside;
  once_each = λ m. tt;
  no_empty_set = λ m. refl;
  within_capacity = λ c. ground arith;
}

pub both_true : (a b : Bool) → (a && b) ≡ true → (a ≡ true) × (b ≡ true)
both_true true b h = (refl, h)
both_true false true h = (h, refl)
both_true false false h = (h, h)

pub run-cons :
    (e : Event) (es : List Event) (h h₁ : Hub) (after : Option Hub)
    → step e h ≡ some h₁
    → run es h₁ ≡ after
    → run (e ∷ es) h ≡ after
unfolding run
run-cons e es h h₁ after first later = rw (run, first) later

-- From a well-formed hub, a sequence of events in which a client registers at most once and
-- subscribes and is answered only while it is registered never panics, and leaves a well-formed hub.
pub run-WellFormed :
    (es : List Event) (h : Hub) (p : Phases)
    → WellFormed h p
    → follows es p ≡ true
    → (h' : Hub) × (run es h ≡ some h') × WellFormed h' (phases_after es p)
unfolding run follows phases_after
run-WellFormed [] h p w kept = (h, refl, w)
run-WellFormed (e ∷ es) h p w kept =
    let (may, rest) = both_true (allowed e p) (follows es (advance e p)) kept in
    let (h₁, first, w₁) = step-WellFormed e h p w may in
    let (h₂, later, w₂) = run-WellFormed es h₁ (advance e p) w₁ rest in
    (h₂, run-cons e es h h₁ (some h₂) first later, w₂)

-- Every interleaving of the clients' requests with deliveries and broadcasts, from the new hub, in
-- which a client registers at most once and subscribes and is answered only while it is registered,
-- runs without a send on a closed channel and without a second close. Afterwards the hub's clients
-- are those that are registered, a channel is closed exactly when its client has unregistered, only
-- registered clients are subscribed and once each, no mailbox has an empty set, and no buffer
-- exceeds 256.
pub new_hub_never_panics :
    (es : List Event)
    → follows es all_fresh ≡ true
    → (h : Hub) × (run es new_hub ≡ some h) × WellFormed h (phases_after es all_fresh)
new_hub_never_panics es kept = run-WellFormed es new_hub all_fresh new_hub-WellFormed kept
