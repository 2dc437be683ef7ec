-- ===== src/Websocket/Client.antt =====
-- internal/websocket/client.go: what a client asks of the hub from its registration on.
use webrana_infinimail_backe.Websocket.Hub.Protocol.{allowed, advance, Phase}
use webrana_infinimail_backe.Websocket.Hub.{
  Event, reply_error, subscribe, unregister, register, unsubscribe, receive, broadcast,
}
use webrana_infinimail_backe.Text.{Bytes, codes}
use webrana_infinimail_backe.Prelude.{
  [], true, false, none, some, ◌∷◌, ℕ, Option, List, if◌then◌else◌, Bool, String, ◌==◌, ◌++◌, ◌&&◌,
}

pub data MessageType : Type 0 where
  subscribe_type unsubscribe_type : MessageType
  unknown_type : Bytes → MessageType

pub record WsMessage : Type 0 where
  pub kind : MessageType
  pub mailbox_id : ℕ

-- `json.Marshal` of an error message is a parameter.
module _ (marshal_error : Bytes → Option Bytes) (c : ℕ) where
  unfoldable pub sent : Option Bytes → List Event
  sent none = []
  sent (some data_) = reply_error c data_ ∷ []

  -- `sendError`
  unfoldable pub send_error : String → List Event
  unfolding codes sent
  send_error text = sent (marshal_error (codes text))

  unfoldable pub for_mailbox : ℕ → Event → List Event
  unfolding send_error
  for_mailbox mailbox_id request =
      if mailbox_id == 0 then send_error "mailbox_id is required" else request ∷ []

  unfoldable pub by_kind : MessageType → ℕ → List Event
  unfolding for_mailbox send_error
  by_kind subscribe_type mailbox_id = for_mailbox mailbox_id (subscribe c mailbox_id)
  by_kind unsubscribe_type mailbox_id = for_mailbox mailbox_id (unsubscribe c mailbox_id)
  by_kind (unknown_type s) mailbox_id = send_error "unknown message type"

  -- `handleMessage`, of a text that is a message or is none
  unfoldable pub handle_message : Option WsMessage → List Event
  unfolding by_kind send_error
  handle_message none = send_error "invalid message format"
  handle_message (some msg) = by_kind msg.kind msg.mailbox_id

  -- `ReadPump`, over the texts read until the connection ends
  unfoldable pub read_pump : List (Option WsMessage) → List Event
  unfolding handle_message
  read_pump [] = unregister c ∷ []
  read_pump (text ∷ texts) = handle_message text ++ read_pump texts

  -- The endpoint registers the client and starts `ReadPump`.
  unfoldable pub session : List (Option WsMessage) → List Event
  unfolding read_pump
  session texts = register c ∷ read_pump texts

-- The client whose request an event is.
abbrev pub client_of : Event → Option ℕ
client_of (register c) = some c
client_of (unregister c) = some c
client_of (subscribe c m) = some c
client_of (unsubscribe c m) = some c
client_of (reply_error c msg) = some c
client_of (receive c) = none
client_of (broadcast m msg) = none

abbrev pub is_from : ℕ → Option ℕ → Bool
is_from c none = false
is_from c (some d) = d == c

-- The requests of one client in a sequence of events.
unfoldable pub requests_of : ℕ → List Event → List Event
requests_of c [] = []
requests_of c (e ∷ es) =
    let later = requests_of c es in if is_from c (client_of e) then e ∷ later else later

-- Does one client keep to the protocol, from a phase on?
unfoldable pub fits : ℕ → List Event → Phase → Bool
unfolding allowed advance
fits c [] q = true
fits c (e ∷ es) q = allowed e (λ d. q) && fits c es (advance e (λ d. q) c)
