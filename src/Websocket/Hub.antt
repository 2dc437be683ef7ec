-- ===== src/Websocket/Hub.antt =====
-- internal/websocket/hub.go: one round of `Run` for each request that arrives on a channel.
-- Clients are numbers. Each has its `send` channel, which the hub fills and closes and `WritePump`
-- empties. A send on a closed channel and a second close are panics, and give `none`.
pub mod Protocol
pub mod Delivery
pub mod Membership
pub mod Preservation
pub mod Runs
pub mod Subscriptions
use webrana_infinimail_backe.Text.{Bytes}
use webrana_infinimail_backe.Websocket.Sets.{remove_member, member, add_member, is_nil}
use webrana_infinimail_backe.Prelude.{
  [], true, false, none, some, ◌∷◌, Bool, ℕ, List, Option, if◌then◌else◌, ◌==◌, ltb, length, ◌++◌,
}

pub record Channel : Type 0 where
  pub closed : Bool
  pub buffer : List Bytes

-- `make(chan []byte, 256)`
abbrev pub capacity : ℕ
capacity = 256

pub record Hub : Type 0 where
  pub clients : List ℕ
  -- mailbox to its set of clients
  pub subscriptions : ℕ → Option (List ℕ)
  pub send : ℕ → Channel

-- What arrives at the hub; `receive`, by which `WritePump` takes a message of its channel; and
-- `reply_error`, by which `sendError` of client.go puts a message there.
pub data Event : Type 0 where
  register unregister receive : ℕ → Event
  subscribe unsubscribe : ℕ → ℕ → Event
  broadcast reply_error : ℕ → Bytes → Event

unfoldable pub new_hub : Hub
new_hub = record {
  clients = [];
  subscriptions = λ m. none;
  send = λ c. record { closed = false; buffer = [] };
}

-- `h.subscriptions[m]`, which is empty if the key is missing
abbrev pub set_of : Option (List ℕ) → List ℕ
set_of none = []
set_of (some xs) = xs

abbrev pub subscribers : Hub → ℕ → List ℕ
subscribers h m = set_of (h.subscriptions m)

unfoldable pub update_at : {A : Type 0} → (ℕ → A) → ℕ → A → ℕ → A
update_at f k v j = if k == j then v else f j

-- a set that is empty is taken out of the map
unfoldable pub without : ℕ → Option (List ℕ) → Option (List ℕ)
unfolding remove_member
without c none = none
without c (some xs) = if is_nil (remove_member c xs) then none else some (remove_member c xs)

unfoldable pub close_channel : ℕ → (ℕ → Channel) → Option (ℕ → Channel)
unfolding update_at
close_channel c send =
    if (send c).closed then none else some (update_at send c (record (send c) { closed = true }))

-- `select { case client.send <- message: default: }`
unfoldable pub try_send : ℕ → Bytes → (ℕ → Channel) → Option (ℕ → Channel)
unfolding update_at
try_send c msg send =
    if (send c).closed
    then none
    else if ltb (length (send c).buffer) capacity
    then some (update_at send c (record (send c) { buffer = (send c).buffer ++ msg ∷ [] }))
    else some send

unfoldable pub send_all : List ℕ → Bytes → (ℕ → Channel) → Option (ℕ → Channel)
unfolding try_send
send_all [] msg send = some send
send_all (c ∷ cs) msg send = elim (try_send c msg send) [
  | none ↦ none
  | some send' ↦ send_all cs msg send'
]

abbrev pub tail : List Bytes → List Bytes
tail [] = []
tail (x ∷ xs) = xs

abbrev pub with_send : Hub → Option (ℕ → Channel) → Option Hub
with_send h none = none
with_send h (some send) = some (record h { send = send })

unfoldable pub step : Event → Hub → Option Hub
unfolding member add_member remove_member without close_channel try_send send_all update_at
step (register c) h = some (record h { clients = add_member c h.clients })
step (unregister c) h =
    if member c h.clients
    then with_send
        (record h {
          clients = remove_member c h.clients;
          subscriptions = λ m. without c (h.subscriptions m);
        })
        (close_channel c h.send)
    else some h
step (subscribe c m) h = some (record h {
  subscriptions = update_at h.subscriptions m (some (add_member c (subscribers h m)));
})
step (unsubscribe c m) h =
    some (record h { subscriptions = update_at h.subscriptions m (without c (h.subscriptions m)) })
step (broadcast m msg) h = with_send h (send_all (subscribers h m) msg h.send)
step (reply_error c msg) h = with_send h (try_send c msg h.send)
step (receive c) h =
    some (record h {
      send = update_at h.send c (record (h.send c) { buffer = tail (h.send c).buffer });
    })

unfoldable pub run : List Event → Hub → Option Hub
unfolding step
run [] h = some h
run (e ∷ es) h = elim (step e h) [ none ↦ none | some h' ↦ run es h' ]
