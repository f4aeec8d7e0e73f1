-- ===== src/BrowserHub/Operations.antt =====
-- The operations on the hub, one after the other.
use monti.Prelude.{ℕ, List, [], ◌∷◌, Option, some, ◌>>=◌}
use monti.Access.{Claims}
use monti.BrowserHub.{Hub, Message, on_broadcast, on_register, on_unregister, on_receive}

-- The operations on a hub, in any order and with any clients.
pub data HubOp : Type 0 where
  connects : Option Claims → HubOp
  disconnects receives : ℕ → HubOp
  broadcasts : Message → HubOp

unfoldable pub step : HubOp → Hub → Option Hub
unfolding on_register on_unregister on_receive on_broadcast
step (connects claims) h = on_register claims h
step (disconnects ref) h = on_unregister ref h
step (receives ref) h = some (on_receive ref h)
step (broadcasts m) h = on_broadcast m h

unfoldable pub run : List HubOp → Hub → Option Hub
unfolding step
run [] h = some h
run (op ∷ ops) h = step op h >>= λ h'. run ops h'
