-- ===== src/Websocket/Hub/Subscriptions.antt =====
-- The subscriptions of internal/websocket/hub.go against an abstract view of them.
use webrana_infinimail_backe.Websocket.Hub.Delivery.{delivered, send_all-delivers}
use webrana_infinimail_backe.Text.{Bytes}
use webrana_infinimail_backe.Websocket.Hub.Membership.{member-without}
use webrana_infinimail_backe.Websocket.Hub.Preservation.{step-WellFormed, subscribed-AllOpen}
use mathlib.Core.Option.{some-injective}
use webrana_infinimail_backe.Websocket.Hub.Runs.{
  both_true, run-cons, new_hub-WellFormed, new_hub_never_panics,
}
use webrana_infinimail_backe.Websocket.Sets.{member, remove_member, member-add, add_member}
use webrana_infinimail_backe.Websocket.Hub.Protocol.{
  follows, Phases, WellFormed, allowed, advance, all_fresh, gone, is_live, phases_after, is_gone,
}
use webrana_infinimail_backe.Websocket.Hub.{
  Hub, step, Event, update_at, run, Channel, subscribe, with_send, subscribers, unregister, without,
  register, set_of, close_channel, unsubscribe, receive, broadcast, send_all, new_hub, try_send,
  reply_error,
}
use webrana_infinimail_backe.Prelude.{
  [], true, false, none, some, inl, inr, refl, ◌∷◌, ℕ, List, Option, Bool, ◌≡◌, if◌then◌else◌, ◌==◌,
  arith, ap, sym, Bool-cases, ◌&&◌, ◌∙◌, ==→eq, subst, ==-refl,
}

-- What a run of the hub promises on its subscriptions: the last request that concerns the client and
-- the mailbox decides.
unfoldable pub noted : ℕ → ℕ → Event → Bool → Bool
noted c m (subscribe c' m') now = if c' == c && m' == m then true else now
noted c m (unsubscribe c' m') now = if c' == c && m' == m then false else now
noted c m (unregister c') now = if c' == c then false else now
noted c m (register c') now = now
noted c m (receive c') now = now
noted c m (broadcast m' msg) now = now
noted c m (reply_error c' msg) now = now

unfoldable pub subscribed_after : ℕ → ℕ → List Event → Bool → Bool
unfolding noted
subscribed_after c m [] now = now
subscribed_after c m (e ∷ es) now = subscribed_after c m es (noted c m e now)

with_send-subscriptions :
    (h h' : Hub) (o : Option (ℕ → Channel))
    → with_send h o ≡ some h'
    → h'.subscriptions ≡ h.subscriptions
with_send-subscriptions h h' none e = grind arith
with_send-subscriptions h h' (some send) e = ap (λ x. x.subscriptions) (sym (some-injective _ _ e))

subscribed_as :
    (h h' : Hub) (c m : ℕ) (now : Bool)
    → h'.subscriptions ≡ h.subscriptions
    → member c (subscribers h m) ≡ now
    → member c (subscribers h' m) ≡ now
subscribed_as h h' c m now same here = ap (λ s. member c (set_of (s m))) same ∙ here

unregister_subscribers :
    (d : ℕ) (h h' : Hub)
    → member d h.clients ≡ true
    → step (unregister d) h ≡ some h'
    → (m : ℕ) → h'.subscriptions m ≡ without d (h.subscriptions m)
unfolding step
unregister_subscribers d h h' there e m =
    let cleared : Hub = record h {
      clients = remove_member d h.clients;
      subscriptions = λ k. without d (h.subscriptions k);
    } in
    let sent : with_send cleared (close_channel d h.send) ≡ some h' = sym (rw there refl) ∙ e in
    ap (λ s. s m) (with_send-subscriptions cleared h' (close_channel d h.send) sent)

unregister_absent :
    (d : ℕ) (h h' : Hub) → member d h.clients ≡ false → step (unregister d) h ≡ some h' → h ≡ h'
unfolding step
unregister_absent d h h' absent e =
    let same : some h ≡ some h' = sym (rw absent refl) ∙ e in some-injective h h' same

not_subscribed :
    (c m : ℕ) (h : Hub) (p : Phases)
    → WellFormed h p
    → member c h.clients ≡ false
    → member c (subscribers h m) ≡ false
not_subscribed c m h p w absent = elim (Bool-cases (member c (subscribers h m))) [
  | inl inside ↦
      let live_ = w.subscribed_live m c inside in
      let not_live = sym (w.registered c) ∙ absent in ground arith
  | inr outside ↦ outside
]

step-noted :
    (e : Event) (h h' : Hub) (p : Phases)
    → WellFormed h p
    → step e h ≡ some h'
    → (c m : ℕ) → member c (subscribers h' m) ≡ noted c m e (member c (subscribers h m))
unfolding step noted update_at
step-noted (register d) h h' p w e c m =
    subscribed_as h h' c m (member c (subscribers h m))
      (ap (λ x. x.subscriptions) (sym (some-injective _ _ e))) refl
step-noted (receive d) h h' p w e c m =
    subscribed_as h h' c m (member c (subscribers h m))
      (ap (λ x. x.subscriptions) (sym (some-injective _ _ e))) refl
step-noted (broadcast k msg) h h' p w e c m =
    subscribed_as h h' c m (member c (subscribers h m))
      (with_send-subscriptions h h' (send_all (subscribers h k) msg h.send) e) refl
step-noted (reply_error d msg) h h' p w e c m =
    subscribed_as h h' c m (member c (subscribers h m))
      (with_send-subscriptions h h' (try_send d msg h.send) e) refl
step-noted (subscribe d k) h h' p w e c m =
    ap (λ x. member c (subscribers x m)) (sym (some-injective _ _ e)) ∙ elim (Bool-cases (k == m)) [
      | inl same ↦ rw same (
          member-add d c (subscribers h k) ∙ (elim (Bool-cases (d == c)) [
            | inl it ↦ rw it refl
            | inr differ ↦ rw differ (ap (λ j. member c (subscribers h j)) (==→eq k m same))
          ]))
      | inr other ↦ ground arith
    ]
step-noted (unsubscribe d k) h h' p w e c m =
    ap (λ x. member c (subscribers x m)) (sym (some-injective _ _ e)) ∙ elim (Bool-cases (k == m)) [
      | inl same ↦ rw same (
          member-without d c (h.subscriptions k) ∙ (elim (Bool-cases (d == c)) [
            | inl it ↦ rw it refl
            | inr differ ↦ rw differ (ap (λ j. member c (subscribers h j)) (==→eq k m same))
          ]))
      | inr other ↦ ground arith
    ]
step-noted (unregister d) h h' p w e c m = elim (Bool-cases (member d h.clients)) [
  | inl there ↦
      ap (λ o. member c (set_of o)) (unregister_subscribers d h h' there e m)
      ∙ member-without d c (h.subscriptions m)
  | inr absent ↦
      ap (λ x. member c (subscribers x m)) (sym (unregister_absent d h h' absent e))
      ∙ elim (Bool-cases (d == c)) [
        | inl it ↦
            rw it (
              not_subscribed c m h p w (ap (λ j. member j h.clients) (sym (==→eq d c it)) ∙ absent))
        | inr differ ↦ rw differ refl
      ]
]

-- After any run, a client is subscribed to a mailbox exactly if the last request that concerns them
-- is a subscription.
pub run-subscribed_after :
    (es : List Event) (h : Hub) (p : Phases)
    → WellFormed h p
    → follows es p ≡ true
    → (h' : Hub) × (run es h ≡ some h')
      × ((c m : ℕ)
          → member c (subscribers h' m) ≡ subscribed_after c m es (member c (subscribers h m)))
unfolding subscribed_after follows run
run-subscribed_after [] h p w kept = (h, refl, λ c m. refl)
run-subscribed_after (e ∷ es) h p w kept =
    let (may, rest) = both_true (allowed e p) (follows es (advance e p)) kept in
    let (h₁, first, w₁) = step-WellFormed e h p w may in
    let (h₂, later, agrees) = run-subscribed_after es h₁ (advance e p) w₁ rest in
    (
      h₂,
      run-cons e es h h₁ (some h₂) first later,
      λ c m. agrees c m ∙ ap (subscribed_after c m es) (step-noted e h h₁ p w first c m),
    )

nobody_yet : (c m : ℕ) → member c (subscribers new_hub m) ≡ false
unfolding new_hub member
nobody_yet c m = refl

broadcast_delivers :
    (m : ℕ) (msg : Bytes) (h : Hub) (p : Phases)
    → WellFormed h p
    → (h' : Hub) × (step (broadcast m msg) h ≡ some h')
      × ((c : ℕ)
          → h'.send c ≡ (if member c (subscribers h m) then delivered msg (h.send c) else h.send c))
unfolding step
broadcast_delivers m msg h p w =
    let (send, sent, at) =
      send_all-delivers (subscribers h m) msg h.send (w.once_each m) (subscribed-AllOpen h p w m) in
    (record h { send = send }, rw sent refl, at)

-- After any run of the new hub in which a client registers at most once and subscribes and is
-- answered only while it is registered, a broadcast to a mailbox does not panic; it appends the
-- message, if there is room, to the channel of each client whose last request on that mailbox was a
-- subscription and which has not unregistered since, once, and changes no other client's channel.
pub broadcast_reaches_subscribers :
    (es : List Event) (m : ℕ) (msg : Bytes)
    → follows es all_fresh ≡ true
    → (h h' : Hub) × (run es new_hub ≡ some h)
      × (step (broadcast m msg) h ≡ some h')
      × ((c : ℕ)
          → h'.send c
            ≡ (if subscribed_after c m es false then delivered msg (h.send c) else h.send c))
broadcast_reaches_subscribers es m msg kept =
    let (h, ran, agrees) = run-subscribed_after es new_hub all_fresh new_hub-WellFormed kept in
    let (h₁, ran₁, w) = new_hub_never_panics es kept in
    let same : h₁ ≡ h = some-injective h₁ h (sym ran₁ ∙ ran) in
    let w' : WellFormed h (phases_after es all_fresh) =
      subst (λ x. WellFormed x (phases_after es all_fresh)) same w in
    let (h', sent, at) = broadcast_delivers m msg h (phases_after es all_fresh) w' in
    (
      h,
      h',
      ran,
      sent,
      λ c.
          at c
          ∙ ap (λ b. if b then delivered msg (h.send c) else h.send c)
              (agrees c m ∙ ap (subscribed_after c m es) (nobody_yet c m)),
    )

run-panics : (e : Event) (es : List Event) (h : Hub) → step e h ≡ none → run (e ∷ es) h ≡ none
unfolding run
run-panics e es h panics = rw (run, panics) refl

send_all-closed :
    (c : ℕ) (cs : List ℕ) (msg : Bytes) (send : ℕ → Channel)
    → (send c).closed ≡ true
    → send_all (c ∷ cs) msg send ≡ none
unfolding send_all try_send
send_all-closed c cs msg send e = rw (send_all, try_send, e) refl

-- In a well-formed hub, a client that subscribes after it has unregistered makes the next broadcast
-- to the mailbox panic.
pub late_subscription_panics :
    (c m : ℕ) (msg : Bytes) (h : Hub) (p : Phases)
    → WellFormed h p
    → p c ≡ gone
    → run (subscribe c m ∷ broadcast m msg ∷ []) h ≡ none
unfolding step update_at add_member
late_subscription_panics c m msg h p w ended =
    let absent = not_subscribed c m h p w (w.registered c ∙ ap is_live ended) in
    let late : Hub = record h {
      subscriptions = update_at h.subscriptions m (some (add_member c (subscribers h m)));
    } in
    let there : subscribers late m ≡ c ∷ subscribers h m = rw (==-refl m, absent) refl in
    let sent : send_all (subscribers late m) msg h.send ≡ none =
      ap (λ xs. send_all xs msg h.send) there
      ∙ send_all-closed c (subscribers h m) msg h.send (w.closed_if_gone c ∙ ap is_gone ended) in
    run-cons (subscribe c m) (broadcast m msg ∷ []) h late none refl
      (run-panics (broadcast m msg) [] late (ap (with_send late) sent))
