-- ===== src/A2a/Stream/Broker.antt =====
-- a2a/taskstore.go: the broker of a live task's events, `taskBroker`, and what `Subscribe` sends. A subscriber is
-- found by its id; the ids do not wrap. `none` as a result is a run-time panic of the channel operations.
pub mod Dropped
use gori.Prelude.{
  ltb, if◌then◌else◌, ◌>>=◌, update, length, drop, ℕ, suc, ◌-◌, Bool, true, false, Option, none,
  some, List, [], ◌∷◌, ◌++◌,
}
use gori.Prelude.Int.{ℤ}
use gori.Channel.{Chan, make_chan, try_send, close_chan}
use gori.A2a.Store.{member, without, limit_or}
use gori.A2a.Stream.{TaskEvent, status_event, artifact_event}

pub record BrokerSub : Type 0 where
  pub chan : Chan TaskEvent
  pub overflow : Bool

pub record Broker : Type 0 where
  pub max_events : ℕ
  pub buf : List TaskEvent
  pub live : List ℕ
  pub next_id : ℕ
  pub done : Bool
  pub sub : ℕ → BrokerSub

abbrev pub new_sub : BrokerSub
new_sub = record { chan = make_chan; overflow = false }

abbrev pub default_max_broker_events : ℕ
default_max_broker_events = 4096

-- `newTaskBroker`.
unfoldable pub new_broker : ℤ → Broker
new_broker m = record {
  max_events = limit_or default_max_broker_events m;
  buf = [];
  live = [];
  next_id = 0;
  done = false;
  sub = λ i. new_sub;
}

-- The buffer part of `publish`.
unfoldable pub log_event : ℕ → TaskEvent → List TaskEvent → List TaskEvent
log_event m ev buf =
    let longer = buf ++ ev ∷ [] in
    if ltb m (length longer) then drop (length longer - m) longer else longer

-- A subscriber that is too slow is closed and dropped.
unfoldable pub drop_slow : ℕ → Broker → Option Broker
drop_slow i b = close_chan (b.sub i).chan >>= λ c. some (record b {
  sub = update b.sub i (record { chan = c; overflow = true });
  live = without i b.live;
})

offered : ℕ → Broker → Chan TaskEvent × Bool → Option Broker
unfolding drop_slow
offered i b (c, true) = some (record b { sub = update b.sub i (record (b.sub i) { chan = c }) })
offered i b (c, false) = drop_slow i b

-- One round of the loop of `publish`.
unfoldable pub offer : TaskEvent → ℕ → Broker → Option Broker
unfolding offered
offer ev i b = try_send ev (b.sub i).chan >>= offered i b

unfoldable pub publish_each : TaskEvent → List ℕ → Broker → Option Broker
publish_each ev [] b = some b
publish_each ev (i ∷ is) b = offer ev i b >>= publish_each ev is

unfoldable pub publish : TaskEvent → Broker → Option Broker
publish ev b = publish_each ev b.live (record b { buf = log_event b.max_events ev b.buf })

unfoldable pub close_each : List ℕ → Broker → Option Broker
close_each [] b = some b
close_each (i ∷ is) b = close_chan (b.sub i).chan >>= λ c.
    close_each is
      (record b { sub = update b.sub i (record (b.sub i) { chan = c }); live = without i b.live })

unfoldable pub close : Broker → Option Broker
close b = if b.done then some b else close_each b.live (record b { done = true })

-- The replay, the subscriber's id (`none` for a closed channel of a done broker), and the broker.
unfoldable pub subscribe : Broker → List TaskEvent × Option ℕ × Broker
subscribe b = if b.done then (b.buf, none, b) else (
  b.buf,
  some b.next_id,
  record b {
    next_id = suc b.next_id;
    sub = update b.sub b.next_id new_sub;
    live = b.next_id ∷ b.live;
  },
)

unfoldable pub unsubscribe : ℕ → Broker → Option Broker
unsubscribe i b =
    if member i b.live
    then (close_chan (b.sub i).chan >>= λ c. some (record b {
      sub = update b.sub i (record (b.sub i) { chan = c });
      live = without i b.live;
    }))
    else some b

-- The loop of `emitFinal` from the end of the buffer on, for each of the two kinds.
unfoldable pub last_status : List TaskEvent → List TaskEvent
last_status [] = []
last_status (artifact_event a app last ∷ evs) = last_status evs
last_status (status_event st final_ ∷ evs) = elim (last_status evs) [
  | [] ↦ status_event st final_ ∷ []
  | e ∷ es ↦ e ∷ es
]

unfoldable pub last_artifact : List TaskEvent → List TaskEvent
last_artifact [] = []
last_artifact (status_event st final_ ∷ evs) = last_artifact evs
last_artifact (artifact_event a app last ∷ evs) = elim (last_artifact evs) [
  | [] ↦ artifact_event a app last ∷ []
  | e ∷ es ↦ e ∷ es
]

-- `emitFinal`, to a sink that takes every event.
unfoldable pub emit_final : List TaskEvent → List TaskEvent
emit_final buf = last_artifact buf ++ last_status buf

-- What `Subscribe` sends to a sink that takes every event, when the channel has given `received` and was closed.
unfoldable pub sent : List TaskEvent → List TaskEvent → Bool → List TaskEvent → List TaskEvent
sent replay received overflow buf =
    (replay ++ received) ++ (if overflow then emit_final buf else [])
