-- ===== src/Websocket/Progress/Sockets.antt =====
-- One poll for one socket.
use code_trace.Prelude.{ℕ, ◌≡◌, Option, some, List, [], ◌∷◌}
use code_trace.Websocket.Progress.{Socket, opened, end_poll, drop_poll, Reply, poll_if_started}

-- What a socket goes through when a callback that ends a poll does so before the next subscription.
pub data Serves : Socket → Type 0 where
  fresh : Serves opened
  handled : (s : Socket) (reply : Reply) → Serves s → Serves (poll_if_started reply s)
  ended : (s : Socket) (i : ℕ) → s.interval ≡ some i → Serves s → Serves (end_poll i s)
  gone : (s : Socket) (i : ℕ) → Serves s → Serves (drop_poll i s)

-- None, or the one that the field names.
data IsSingle : Option ℕ → List ℕ → Type 0 where
  none_left : (field : Option ℕ) → IsSingle field []
  the_one : (i : ℕ) → IsSingle (some i) (i ∷ [])

record IsTidy (s : Socket) : Type 0 where
  polls : IsSingle s.interval s.running
  closes : IsSingle s.close_listener s.listeners
