-- ===== src/Websocket/Sessions.antt =====
-- Interleaved sessions of the clients of internal/websocket/client.go.
use mathlib.Core.Option.{some-injective}
use webrana_infinimail_backe.Websocket.Hub.Runs.{both_true, new_hub_never_panics}
use webrana_infinimail_backe.Websocket.Hub.Protocol.{
  allowed, advance, Phase, live, fresh, follows, Phases, is_fresh, is_live, WellFormed,
  phases_after, all_fresh,
}
use webrana_infinimail_backe.Websocket.Hub.{
  Event, reply_error, subscribe, unregister, register, update_at, unsubscribe, receive, broadcast,
  Hub, run, new_hub,
}
use webrana_infinimail_backe.Text.{Bytes, codes}
use webrana_infinimail_backe.Prelude.{
  [], true, false, none, some, inl, inr, refl, ◌∷◌, ℕ, Option, List, Bool-cases, ◌==◌, ◌++◌, ◌≡◌,
  ==-refl, ap, Option-cases, ==→eq, ◌∙◌,
}
use webrana_infinimail_backe.Websocket.Client.{
  MessageType, unknown_type, fits, sent, for_mailbox, by_kind, handle_message, read_pump, session,
  requests_of, client_of, WsMessage, send_error, is_from, subscribe_type, unsubscribe_type,
}

fits-append :
    (c : ℕ) (es more : List Event) (q : Phase) → fits c (es ++ more) q ≡ true → fits c es q ≡ true
unfolding fits
fits-append c [] more q h = refl
fits-append c (e ∷ es) more q h =
    let (may, rest) =
      both_true (allowed e (λ d. q)) (fits c (es ++ more) (advance e (λ d. q) c)) h in
    rw (may, fits-append c es more (advance e (λ d. q) c) rest) refl

module _ (marshal_error : Bytes → Option Bytes) (c : ℕ) where
  -- Whatever a live client sends, it stays live.
  abbrev StaysLive : List Event → Type 0
  StaysLive es = (more : List Event) → fits c more live ≡ true → fits c (es ++ more) live ≡ true

  sent-StaysLive : (o : Option Bytes) → StaysLive (sent marshal_error c o)
  unfolding sent fits
  sent-StaysLive none more h = h
  sent-StaysLive (some data_) more h = h

  for_mailbox-StaysLive :
      (m : ℕ) (e : Event) → StaysLive (e ∷ []) → StaysLive (for_mailbox marshal_error c m e)
  unfolding for_mailbox send_error
  for_mailbox-StaysLive m e k more h = elim (Bool-cases (m == 0)) [
    | inl z ↦ rw z (sent-StaysLive (marshal_error (codes "mailbox_id is required")) more h)
    | inr z ↦ rw z (k more h)
  ]

  one-StaysLive : (m : ℕ) → StaysLive (subscribe c m ∷ []) × StaysLive (unsubscribe c m ∷ [])
  unfolding fits
  one-StaysLive m = (λ more h. h, λ more h. h)

  by_kind-StaysLive : (k : MessageType) (m : ℕ) → StaysLive (by_kind marshal_error c k m)
  unfolding by_kind send_error
  by_kind-StaysLive subscribe_type m more h =
      for_mailbox-StaysLive m (subscribe c m) (one-StaysLive m).0 more h
  by_kind-StaysLive unsubscribe_type m more h =
      for_mailbox-StaysLive m (unsubscribe c m) (one-StaysLive m).1 more h
  by_kind-StaysLive (unknown_type s) m more h = sent-StaysLive _ more h

  handle-StaysLive : (text : Option WsMessage) → StaysLive (handle_message marshal_error c text)
  unfolding handle_message send_error
  handle-StaysLive none more h = sent-StaysLive _ more h
  handle-StaysLive (some msg) more h = by_kind-StaysLive msg.kind msg.mailbox_id more h

  read_pump-fits :
      (texts : List (Option WsMessage)) → fits c (read_pump marshal_error c texts) live ≡ true
  unfolding read_pump fits
  read_pump-fits [] = refl
  read_pump-fits (text ∷ texts) =
      handle-StaysLive text (read_pump marshal_error c texts) (read_pump-fits texts)

  pub session-fits :
      (texts : List (Option WsMessage)) → fits c (session marshal_error c texts) fresh ≡ true
  unfolding session fits update_at
  session-fits texts = rw (==-refl c) (read_pump-fits texts)

quiet-follows :
    (e : Event) (es : List Event) (p : Phases)
    → allowed e p ≡ true
    → follows es (advance e p) ≡ true
    → follows (e ∷ es) p ≡ true
unfolding follows
quiet-follows e es p may rest = rw (may, rest) refl

-- What an event of one client needs and changes is the phase of that client.
allowed-client :
    (e : Event) (d : ℕ) (p : Phases) → client_of e ≡ some d → allowed e p ≡ allowed e (λ x. p d)
unfolding allowed
allowed-client (register c) d p h = ap (λ x. is_fresh (p x)) (some-injective c d h)
allowed-client (unregister c) d p h = refl
allowed-client (subscribe c m) d p h = ap (λ x. is_live (p x)) (some-injective c d h)
allowed-client (unsubscribe c m) d p h = refl
allowed-client (reply_error c msg) d p h = ap (λ x. is_live (p x)) (some-injective c d h)
allowed-client (receive c) d p h = refl
allowed-client (broadcast m msg) d p h = refl

advance-other :
    (e : Event) (c : ℕ) (p : Phases) → is_from c (client_of e) ≡ false → advance e p c ≡ p c
unfolding advance update_at
advance-other (register d) c p h = rw h refl
advance-other (unregister d) c p h = elim (Bool-cases (is_live (p d))) [
  | inl e ↦ rw (e, h) refl
  | inr e ↦ rw e refl
]
advance-other (subscribe d m) c p h = refl
advance-other (unsubscribe d m) c p h = refl
advance-other (reply_error d msg) c p h = refl
advance-other (receive d) c p h = refl
advance-other (broadcast m msg) c p h = refl

advance-own :
    (e : Event) (c : ℕ) (p : Phases)
    → is_from c (client_of e) ≡ true
    → advance e p c ≡ advance e (λ d. p c) c
unfolding advance update_at
advance-own (register d) c p h = rw h refl
advance-own (unregister d) c p h =
    let same = ==→eq d c h in
    elim (Bool-cases (is_live (p c))) [
      | inl e ↦ rw (ap (λ x. is_live (p x)) same ∙ e, e, h) refl
      | inr e ↦ rw (ap (λ x. is_live (p x)) same ∙ e, e) refl
    ]
advance-own (subscribe d m) c p h = refl
advance-own (unsubscribe d m) c p h = refl
advance-own (reply_error d msg) c p h = refl
advance-own (receive d) c p h = refl
advance-own (broadcast m msg) c p h = refl

fits-rest :
    (c : ℕ) (e : Event) (es : List Event) (p : Phases)
    → fits c (requests_of c (e ∷ es)) (p c) ≡ true
    → fits c (requests_of c es) (advance e p c) ≡ true
unfolding requests_of fits
fits-rest c e es p h = elim (Bool-cases (is_from c (client_of e))) [
  | inr other ↦ rw (advance-other e c p other) (rw other at h)
  | inl own ↦
      rw (advance-own e c p own)
        (both_true (allowed e (λ d. p c)) (fits c (requests_of c es) (advance e (λ d. p c) c))
          (rw own at h)).1
]

nobody : (e : Event) → client_of e ≡ none → (p : Phases) → allowed e p ≡ true
unfolding allowed
nobody (receive c) h p = refl
nobody (broadcast m msg) h p = refl
nobody (register c) h p = cc h
nobody (unregister c) h p = refl
nobody (subscribe c m) h p = cc h
nobody (unsubscribe c m) h p = refl
nobody (reply_error c msg) h p = cc h

fits-allowed :
    (e : Event) (es : List Event) (p : Phases)
    → ((c : ℕ) → fits c (requests_of c (e ∷ es)) (p c) ≡ true)
    → allowed e p ≡ true
unfolding requests_of fits
fits-allowed e es p h = elim (Option-cases (client_of e)) [
  | inl quiet ↦ nobody e quiet p
  | inr (d, named) ↦
      let own : is_from d (client_of e) ≡ true = rw named (==-refl d) in
      allowed-client e d p named
      ∙ (both_true (allowed e (λ x. p d)) (fits d (requests_of d es) (advance e (λ x. p d) d))
          (rw own at (h d))).0
]

fits-follows :
    (es : List Event) (p : Phases)
    → ((c : ℕ) → fits c (requests_of c es) (p c) ≡ true)
    → follows es p ≡ true
unfolding follows
fits-follows [] p h = refl
fits-follows (e ∷ es) p h =
    quiet-follows e es p (fits-allowed e es p h)
      (fits-follows es (advance e p) (λ c. fits-rest c e es p (h c)))

-- However the sessions of the clients are interleaved with one another, with deliveries and with
-- broadcasts, and wherever each of them stands, the hub does not panic, and it stays well-formed:
-- it is enough that the requests of each client are the first ones of a session of that client.
pub sessions_never_panic :
    (marshal_error : Bytes → Option Bytes) (es : List Event)
    → ((c : ℕ)
        → (texts : List (Option WsMessage)) × (more : List Event) × (requests_of c es ++ more
            ≡ session marshal_error c texts))
    → (h : Hub) × (run es new_hub ≡ some h) × WellFormed h (phases_after es all_fresh)
sessions_never_panic marshal_error es scripts = new_hub_never_panics es (
    fits-follows es all_fresh λ c.
      let (texts, more, prefix) = scripts c in
      fits-append c (requests_of c es) more fresh
        (ap (λ x. fits c x fresh) prefix ∙ session-fits marshal_error c texts))
