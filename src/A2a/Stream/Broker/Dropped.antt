-- ===== src/A2a/Stream/Broker/Dropped.antt =====
-- What a subscriber gets that was dropped for being slow.
use gori.Prelude.{ℕ, List, [], ◌∷◌}
use gori.A2a.Store.{Store}
use gori.A2a.Stream.{TaskEvent}
use gori.A2a.Stream.Broker.{log_event}

unfoldable pub log_all : ℕ → List TaskEvent → List TaskEvent → List TaskEvent
log_all m [] buf = buf
log_all m (ev ∷ evs) buf = log_all m evs (log_event m ev buf)
