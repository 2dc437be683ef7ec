-- ===== src/Tests/Hub.antt =====
-- The hub with two clients, of which one leaves.
use webrana_infinimail_backe.Websocket.Hub.Delivery.{delivered}
use webrana_infinimail_backe.Text.{codes}
use webrana_infinimail_backe.Websocket.Hub.Runs.{new_hub_never_panics}
use webrana_infinimail_backe.Websocket.Hub.Subscriptions.{
  subscribed_after, late_subscription_panics, broadcast_reaches_subscribers,
}
use webrana_infinimail_backe.Websocket.Hub.{
  Hub, run, Event, new_hub, subscribe, register, step, broadcast, receive, unregister,
}
use webrana_infinimail_backe.Websocket.Hub.Protocol.{
  follows, phases_after, all_fresh, WellFormed, gone,
}
use webrana_infinimail_backe.Prelude.{
  [], true, false, none, some, refl, ◌∷◌, List, ◌≡◌, ℕ, if◌then◌else◌,
}

abbrev visit : List Event
visit =
    register 1
    ∷ register 2
    ∷ subscribe 1 5
    ∷ subscribe 2 5
    ∷ broadcast 5 (codes "a")
    ∷ receive 1
    ∷ unregister 2
    ∷ []

visit-follows : follows visit all_fresh ≡ true
unfolding follows
visit-follows = refl

new_hub_never_panics_example :
    (h : Hub) × (run visit new_hub ≡ some h) × WellFormed h (phases_after visit all_fresh)
new_hub_never_panics_example = new_hub_never_panics visit visit-follows

broadcast_reaches_subscribers_example :
    (h h' : Hub) × (run visit new_hub ≡ some h)
    × (step (broadcast 5 (codes "b")) h ≡ some h')
    × ((c : ℕ)
        → h'.send c ≡ (
            if subscribed_after c 5 visit false
            then delivered (codes "b") (h.send c)
            else h.send c))
broadcast_reaches_subscribers_example =
    broadcast_reaches_subscribers visit 5 (codes "b") visit-follows

subscribed_1 : subscribed_after 1 5 visit false ≡ true
unfolding subscribed_after
subscribed_1 = refl

not_subscribed_2 : subscribed_after 2 5 visit false ≡ false
unfolding subscribed_after
not_subscribed_2 = refl

abbrev left_hub : Hub
left_hub = (new_hub_never_panics visit visit-follows).0

ended_2 : phases_after visit all_fresh 2 ≡ gone
unfolding phases_after
ended_2 = refl

late_subscription_panics_example :
    run (subscribe 2 5 ∷ broadcast 5 (codes "b") ∷ []) left_hub ≡ none
late_subscription_panics_example =
    late_subscription_panics 2 5 (codes "b") left_hub (phases_after visit all_fresh)
      (new_hub_never_panics visit visit-follows).2 ended_2
