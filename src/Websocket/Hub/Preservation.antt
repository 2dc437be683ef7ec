-- ===== src/Websocket/Hub/Preservation.antt =====
-- The steps of internal/websocket/hub.go on a well-formed hub.
use webrana_infinimail_backe.Websocket.Hub.Delivery.{
  send_all-delivers, delivered, closed-delivered, AllOpen, try_send-open,
}
use webrana_infinimail_backe.Text.{Bytes}
use webrana_infinimail_backe.Websocket.Hub.Membership.{
  add-not_empty, still_member, without-Distinct, member-without, without-not_empty,
}
use webrana_infinimail_backe.Websocket.Sets.{
  add_member, member-add, add-Distinct, member, remove_member, member-remove,
}
use webrana_infinimail_backe.Websocket.Hub.{
  Event, Hub, update_at, register, subscribe, subscribers, unsubscribe, receive, close_channel,
  unregister, without, tail, Channel, broadcast, capacity, reply_error,
}
use webrana_infinimail_backe.Websocket.Hub.Protocol.{
  Phase, is_fresh, is_live, advance, Phases, allowed, is_gone, WellFormed, fresh, live, gone,
}
use webrana_infinimail_backe.Prelude.{
  true, false, some, inl, inr, refl, ℕ, ◌==◌, ◌≡◌, Bool-cases, subst, ==→eq, ◌∙◌, sym,
  if◌then◌else◌, ==-refl, [], ◌∷◌, List, length, ◌≤◌, arith, ltb, length-append,
}
use webrana_infinimail_backe.Websocket.Hub.{step}

fresh-not_gone : (q : Phase) → is_fresh q ≡ true → is_gone q ≡ false
fresh-not_gone fresh h = refl
fresh-not_gone live h = refl
fresh-not_gone gone h = sym h

live-not_gone : (q : Phase) → is_live q ≡ true → is_gone q ≡ false
live-not_gone live h = refl
live-not_gone fresh h = refl
live-not_gone gone h = sym h

-- the clients that are alive after `c` is set to a phase
at_key : {B : ℕ → Type 0} (c : ℕ) → B c → ((d : ℕ) → (c == d) ≡ false → B d) → (d : ℕ) → B d
at_key {B = B} c here there d = elim (Bool-cases (c == d)) [
  | inl e ↦ subst B (==→eq c d e) here
  | inr e ↦ there d e
]

abbrev pub Steps : Event → Hub → Phases → Type 0
Steps e h p = (h' : Hub) × (step e h ≡ some h') × WellFormed h' (advance e p)

register-Steps :
    (c : ℕ) (h : Hub) (p : Phases)
    → WellFormed h p
    → allowed (register c) p ≡ true
    → Steps (register c) h p
unfolding step advance allowed update_at
register-Steps c h p w may = (
  record h { clients = add_member c h.clients },
  refl,
  record {
    registered = λ d.
        member-add c d h.clients
        ∙ at_key
            {B = λ d.
              (if c == d then true else member d h.clients)
              ≡ is_live (if c == d then live else p d)}
            c (rw (==-refl c) refl) (λ d e. rw (e, w.registered d) refl) d;
    closed_if_gone =
        at_key {B = λ d. (h.send d).closed ≡ is_gone (if c == d then live else p d)} c
          (rw (==-refl c, w.closed_if_gone c) (fresh-not_gone (p c) may))
          (λ d e. rw (e, w.closed_if_gone d) refl);
    subscribed_live = λ m d inside. elim (Bool-cases (c == d)) [
      | inl e ↦ rw e refl
      | inr e ↦ rw e (w.subscribed_live m d inside)
    ];
    once_each = w.once_each;
    no_empty_set = w.no_empty_set;
    within_capacity = w.within_capacity;
  },
)

subscribe-Steps :
    (c m : ℕ) (h : Hub) (p : Phases)
    → WellFormed h p
    → allowed (subscribe c m) p ≡ true
    → Steps (subscribe c m) h p
unfolding step advance allowed update_at
subscribe-Steps c m h p w may = (
  record h { subscriptions = update_at h.subscriptions m (some (add_member c (subscribers h m))) },
  refl,
  record {
    registered = w.registered;
    closed_if_gone = w.closed_if_gone;
    subscribed_live = λ k d. elim (Bool-cases (m == k)) [
      | inl e ↦ rw e (λ inside. elim (Bool-cases (c == d)) [
        | inl same ↦ rw (sym (==→eq c d same)) may
        | inr other ↦
            w.subscribed_live m d (sym (member-add c d (subscribers h m) ∙ rw other refl) ∙ inside)
      ])
      | inr e ↦ rw e (w.subscribed_live k d)
    ];
    once_each = λ k. elim (Bool-cases (m == k)) [
      | inl e ↦ rw e (add-Distinct c (subscribers h m) (w.once_each m))
      | inr e ↦ rw e (w.once_each k)
    ];
    no_empty_set = λ k. elim (Bool-cases (m == k)) [
      | inl e ↦ rw e (add-not_empty c (subscribers h m))
      | inr e ↦ rw e (w.no_empty_set k)
    ];
    within_capacity = w.within_capacity;
  },
)

unsubscribe-Steps : (c m : ℕ) (h : Hub) (p : Phases) → WellFormed h p → Steps (unsubscribe c m) h p
unfolding step advance update_at
unsubscribe-Steps c m h p w = (
  record h { subscriptions = update_at h.subscriptions m (without c (h.subscriptions m)) },
  refl,
  record {
    registered = w.registered;
    closed_if_gone = w.closed_if_gone;
    subscribed_live = λ k d. elim (Bool-cases (m == k)) [
      | inl e ↦ rw e (λ inside. w.subscribed_live m d (still_member c d (h.subscriptions m) inside))
      | inr e ↦ rw e (w.subscribed_live k d)
    ];
    once_each = λ k. elim (Bool-cases (m == k)) [
      | inl e ↦ rw e (without-Distinct c (h.subscriptions m) (w.once_each m))
      | inr e ↦ rw e (w.once_each k)
    ];
    no_empty_set = λ k. elim (Bool-cases (m == k)) [
      | inl e ↦ rw e (without-not_empty c (h.subscriptions m))
      | inr e ↦ rw e (w.no_empty_set k)
    ];
    within_capacity = w.within_capacity;
  },
)

tail-length : (xs : List Bytes) (n : ℕ) → length xs ≤ n → length (tail xs) ≤ n
tail-length [] n h = h
tail-length (x ∷ xs) n h = ground arith

receive-Steps : (c : ℕ) (h : Hub) (p : Phases) → WellFormed h p → Steps (receive c) h p
unfolding step advance update_at
receive-Steps c h p w = (
  record h { send = update_at h.send c (record (h.send c) { buffer = tail (h.send c).buffer }) },
  refl,
  record {
    registered = w.registered;
    closed_if_gone = λ d. elim (Bool-cases (c == d)) [
      | inl e ↦
          rw e (subst (λ j. (h.send c).closed ≡ is_gone (p j)) (==→eq c d e) (w.closed_if_gone c))
      | inr e ↦ rw e (w.closed_if_gone d)
    ];
    subscribed_live = w.subscribed_live;
    once_each = w.once_each;
    no_empty_set = w.no_empty_set;
    within_capacity = λ d. elim (Bool-cases (c == d)) [
      | inl e ↦ rw e (tail-length (h.send c).buffer capacity (w.within_capacity c))
      | inr e ↦ rw e (w.within_capacity d)
    ];
  },
)

delivered-length :
    (msg : Bytes) (ch : Channel)
    → length ch.buffer ≤ capacity
    → length (delivered msg ch).buffer ≤ capacity
delivered-length msg ch h = elim (Bool-cases (ltb (length ch.buffer) capacity)) [
  | inl room ↦ rw (room, length-append ch.buffer (msg ∷ [])) (ground arith)
  | inr full ↦ rw full h
]

pub subscribed-AllOpen :
    (h : Hub) (p : Phases) → WellFormed h p → (m : ℕ) → AllOpen (subscribers h m) h.send
subscribed-AllOpen h p w m c inside =
    w.closed_if_gone c ∙ live-not_gone (p c) (w.subscribed_live m c inside)

broadcast-Steps :
    (m : ℕ) (msg : Bytes) (h : Hub) (p : Phases) → WellFormed h p → Steps (broadcast m msg) h p
unfolding step advance
broadcast-Steps m msg h p w =
    let (send, sent, at) =
      send_all-delivers (subscribers h m) msg h.send (w.once_each m) (subscribed-AllOpen h p w m) in
    (
      record h { send = send },
      rw sent refl,
      record {
        registered = w.registered;
        closed_if_gone = λ c. elim (Bool-cases (member c (subscribers h m))) [
          | inl e ↦ rw (at c, e, closed-delivered msg (h.send c)) (w.closed_if_gone c)
          | inr e ↦ rw (at c, e) (w.closed_if_gone c)
        ];
        subscribed_live = w.subscribed_live;
        once_each = w.once_each;
        no_empty_set = w.no_empty_set;
        within_capacity = λ c. elim (Bool-cases (member c (subscribers h m))) [
          | inl e ↦ rw (at c, e) (delivered-length msg (h.send c) (w.within_capacity c))
          | inr e ↦ rw (at c, e) (w.within_capacity c)
        ];
      },
    )

reply-Steps :
    (d : ℕ) (msg : Bytes) (h : Hub) (p : Phases)
    → WellFormed h p
    → is_live (p d) ≡ true
    → Steps (reply_error d msg) h p
unfolding step advance
reply-Steps d msg h p w may =
    let (send, sent, at) =
      try_send-open d msg h.send (w.closed_if_gone d ∙ live-not_gone (p d) may) in
    (
      record h { send = send },
      rw sent refl,
      record {
        registered = w.registered;
        closed_if_gone = λ c. elim (Bool-cases (d == c)) [
          | inl e ↦ rw (at c, e, closed-delivered msg (h.send c)) (w.closed_if_gone c)
          | inr e ↦ rw (at c, e) (w.closed_if_gone c)
        ];
        subscribed_live = w.subscribed_live;
        once_each = w.once_each;
        no_empty_set = w.no_empty_set;
        within_capacity = λ c. elim (Bool-cases (d == c)) [
          | inl e ↦ rw (at c, e) (delivered-length msg (h.send c) (w.within_capacity c))
          | inr e ↦ rw (at c, e) (w.within_capacity c)
        ];
      },
    )

unregister_live :
    (c : ℕ) (h : Hub) (p : Phases)
    → WellFormed h p
    → is_live (p c) ≡ true
    → Steps (unregister c) h p
unfolding step advance update_at close_channel
unregister_live c h p w alive = (
  record h {
    clients = remove_member c h.clients;
    subscriptions = λ m. without c (h.subscriptions m);
    send = update_at h.send c (record (h.send c) { closed = true });
  },
  rw (w.registered c, alive, w.closed_if_gone c, live-not_gone (p c) alive) refl,
  rw alive (record {
    registered = λ d.
        member-remove c d h.clients
        ∙ elim (Bool-cases (c == d)) [ inl e ↦ rw e refl | inr e ↦ rw e (w.registered d) ];
    closed_if_gone =
        λ d. elim (Bool-cases (c == d)) [ inl e ↦ rw e refl | inr e ↦ rw e (w.closed_if_gone d) ];
    subscribed_live = λ m d inside. elim (Bool-cases (c == d)) [
      | inl e ↦ rw e (sym (member-without c d (h.subscriptions m) ∙ rw e refl) ∙ inside)
      | inr e ↦ rw e (w.subscribed_live m d (still_member c d (h.subscriptions m) inside))
    ];
    once_each = λ m. without-Distinct c (h.subscriptions m) (w.once_each m);
    no_empty_set = λ m. without-not_empty c (h.subscriptions m);
    within_capacity = λ d. elim (Bool-cases (c == d)) [
      | inl e ↦ rw e (w.within_capacity c)
      | inr e ↦ rw e (w.within_capacity d)
    ];
  }),
)

unregister_other :
    (c : ℕ) (h : Hub) (p : Phases)
    → WellFormed h p
    → is_live (p c) ≡ false
    → Steps (unregister c) h p
unfolding step advance
unregister_other c h p w not_live = (h, rw (w.registered c, not_live) refl, rw not_live w)

allowed_reply :
    (d : ℕ) (msg : Bytes) (p : Phases) → allowed (reply_error d msg) p ≡ true → is_live (p d) ≡ true
unfolding allowed
allowed_reply d msg p may = may

pub step-WellFormed :
    (e : Event) (h : Hub) (p : Phases) → WellFormed h p → allowed e p ≡ true → Steps e h p
step-WellFormed (register c) h p w may = register-Steps c h p w may
step-WellFormed (unregister c) h p w may = elim (Bool-cases (is_live (p c))) [
  | inl alive ↦ unregister_live c h p w alive
  | inr not_live ↦ unregister_other c h p w not_live
]
step-WellFormed (receive c) h p w may = receive-Steps c h p w
step-WellFormed (subscribe c m) h p w may = subscribe-Steps c m h p w may
step-WellFormed (unsubscribe c m) h p w may = unsubscribe-Steps c m h p w
step-WellFormed (reply_error d msg) h p w may = reply-Steps d msg h p w (allowed_reply d msg p may)
step-WellFormed (broadcast m msg) h p w may = broadcast-Steps m msg h p w
