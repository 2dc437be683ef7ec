-- ===== src/Websocket/WritePump.antt =====
-- `WritePump` of internal/websocket/client.go, over the connection as a parameter. Deadlines are
-- left out.
use webrana_infinimail_backe.Text.{Bytes}
use webrana_infinimail_backe.Prelude.{[], true, false, refl, ◌∷◌, Bool, List, ◌≡◌, ◌++◌}

-- `websocket.Conn`: whether a call succeeds, and the world after it
pub record Connection (W : Type 0) : Type 0 where
  pub next_writer : W → Bool × W
  -- the error of `Write` is dropped
  pub write : Bytes → W → W
  pub close_writer : W → Bool × W
  pub write_close : W → Bool × W
  pub write_ping : W → Bool × W
  pub close : W → W

-- what the loop waits for: a message of the hub, the end of the channel, or a tick
pub data PumpEvent : Type 0 where
  message_of : Bytes → PumpEvent
  channel_closed : PumpEvent
  ping_tick : PumpEvent

pub data PumpState : Type 0 where
  waiting : PumpState
  returned : PumpState

module _ {W : Type 0} (conn : Connection W) where
  -- `return`, with the deferred calls
  abbrev pub return_pump : W → PumpState × W
  return_pump w = (returned, conn.close w)

  abbrev pub if_written : Bool × W → (W → PumpState × W) → PumpState × W
  if_written (true, w) next = next w
  if_written (false, w) next = return_pump w

  -- `WritePump`, over what it meets
  unfoldable pub write_pump : List PumpEvent → W → PumpState × W
  write_pump [] w = (waiting, w)
  write_pump (message_of m ∷ es) w =
      let rest = write_pump es in
      if_written (conn.next_writer w) λ v. if_written (conn.close_writer (conn.write m v)) rest
  write_pump (channel_closed ∷ es) w = return_pump (conn.write_close w).1
  write_pump (ping_tick ∷ es) w = let rest = write_pump es in if_written (conn.write_ping w) rest

  -- The pump returned, and its last call closed the connection.
  abbrev pub Closed : PumpState × W → Type 0
  Closed r = (v : W) × (r ≡ (returned, conn.close v))

  if_written-Closed :
      (b : Bool × W) (next : W → PumpState × W)
      → ((w : W) → Closed (next w))
      → Closed (if_written b next)
  if_written-Closed (true, w) next h = h w
  if_written-Closed (false, w) next h = (w, refl)

  -- When the hub closes the channel, the pump has returned and closed the connection, whatever it
  -- met before and whichever writes failed.
  pub write_pump-Closed :
      (before after : List PumpEvent) (w : W)
      → Closed (write_pump (before ++ channel_closed ∷ after) w)
  unfolding write_pump
  write_pump-Closed [] after w = ((conn.write_close w).1, refl)
  write_pump-Closed (message_of m ∷ es) after w =
      if_written-Closed (conn.next_writer w) _
        (λ v. if_written-Closed (conn.close_writer (conn.write m v)) _ (write_pump-Closed es after))
  write_pump-Closed (channel_closed ∷ es) after w = ((conn.write_close w).1, refl)
  write_pump-Closed (ping_tick ∷ es) after w =
      if_written-Closed (conn.write_ping w) _ (write_pump-Closed es after)
