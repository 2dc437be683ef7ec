-- ===== src/Websocket/Hub/Protocol.antt =====
-- How internal/websocket/client.go and cmd/server/main.go drive the hub: a client registers once,
-- subscribes from its `ReadPump` while that runs, and unregisters when it ends.
use webrana_infinimail_backe.Websocket.Sets.{member, Distinct}
use webrana_infinimail_backe.Websocket.Hub.{
  Event, update_at, Hub, register, unregister, subscribers, receive, subscribe, unsubscribe,
  broadcast, capacity, reply_error,
}
use webrana_infinimail_backe.Prelude.{
  [], true, false, none, some, ◌∷◌, Bool, ℕ, List, Option, ◌&&◌, ◌≡◌, if◌then◌else◌, length, ◌≤◌,
}

pub data Phase : Type 0 where
  fresh live gone : Phase

abbrev pub is_live : Phase → Bool
is_live fresh = false
is_live live = true
is_live gone = false

abbrev pub is_gone : Phase → Bool
is_gone fresh = false
is_gone live = false
is_gone gone = true

abbrev pub is_fresh : Phase → Bool
is_fresh fresh = true
is_fresh live = false
is_fresh gone = false

abbrev pub Phases : Type 0
Phases = ℕ → Phase

abbrev pub all_fresh : Phases
all_fresh c = fresh

-- May this event come now?
unfoldable pub allowed : Event → Phases → Bool
allowed (register c) p = is_fresh (p c)
allowed (unregister c) p = true
allowed (receive c) p = true
allowed (subscribe c m) p = is_live (p c)
allowed (unsubscribe c m) p = true
allowed (broadcast m msg) p = true
allowed (reply_error c msg) p = is_live (p c)

unfoldable pub advance : Event → Phases → Phases
unfolding update_at
advance (register c) p = update_at p c live
advance (unregister c) p = if is_live (p c) then update_at p c gone else p
advance (receive c) p = p
advance (subscribe c m) p = p
advance (unsubscribe c m) p = p
advance (broadcast m msg) p = p
advance (reply_error c msg) p = p

-- Does a sequence of events keep to the protocol?
unfoldable pub follows : List Event → Phases → Bool
unfolding allowed advance
follows [] p = true
follows (e ∷ es) p = allowed e p && follows es (advance e p)

unfoldable pub phases_after : List Event → Phases → Phases
unfolding advance
phases_after [] p = p
phases_after (e ∷ es) p = phases_after es (advance e p)

-- The hub forgets a mailbox without subscribers.
abbrev pub not_empty : Option (List ℕ) → Bool
not_empty none = true
not_empty (some []) = false
not_empty (some (x ∷ xs)) = true

pub record WellFormed (h : Hub) (p : Phases) : Type 0 where
  pub registered : (c : ℕ) → member c h.clients ≡ is_live (p c)
  pub closed_if_gone : (c : ℕ) → (h.send c).closed ≡ is_gone (p c)
  pub subscribed_live : (m c : ℕ) → member c (subscribers h m) ≡ true → is_live (p c) ≡ true
  pub once_each : (m : ℕ) → Distinct (subscribers h m)
  pub no_empty_set : (m : ℕ) → not_empty (h.subscriptions m) ≡ true
  pub within_capacity : (c : ℕ) → length (h.send c).buffer ≤ capacity
