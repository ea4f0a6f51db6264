-- ===== src/Bus.antt =====
-- bus.go: the in-process event bus. A channel is found by the id of the subscription that it was
-- made for. `none` as a result is a run-time panic of the channel operations.
-- The ids are `nextID`, an `int` that does not wrap here.
pub mod Publish
pub mod Safety
pub mod Traces
use gori.Prelude.{
  ℕ, suc, ◌+◌, Bool, true, false, not, ◌&&◌, ◌||◌, String, List, [], ◌∷◌, Option, none, some,
  str_eq, ◌==◌, ◌>>=◌, if◌then◌else◌, update,
}
use gori.Prelude.Int.{add64}
use gori.Channel.{Chan, make_chan, try_send, close_chan}
use gori.Provider.{StopReason, Usage}

-- The payloads that the library publishes, and the raw JSON of an event from the network.
pub data EventData : Type 0 where
  nil : EventData
  text_data : String → EventData
  step_data : ℕ → StopReason → Usage → EventData
  tool_call_data : String → String → String → EventData
  tool_result_data : String → String → Bool → String → EventData
  raw_data : String → EventData

pub record Event : Type 0 where
  pub topic : String
  pub agent : String
  pub kind : String
  pub payload : EventData
  pub origin : String

pub record Sub : Type 0 where
  pub id : ℕ
  pub topic : String

pub record Bus : Type 0 where
  pub subs : List Sub
  pub next_id : ℕ
  pub closed : Bool
  pub dropped : ℕ
  pub chan : ℕ → Chan Event

unfoldable pub new_bus : Bus
new_bus = record { subs = []; next_id = 0; closed = false; dropped = 0; chan = λ i. make_chan }

-- The id of the new subscription, or `none` for a closed channel that is in no map.
unfoldable pub subscribe : String → Bus → Option ℕ × Bus
subscribe topic b = if b.closed then (none, b) else (
  some b.next_id,
  record b {
    subs = record { id = b.next_id; topic = topic } ∷ b.subs;
    next_id = suc b.next_id;
    chan = update b.chan b.next_id make_chan;
  },
)

abbrev pub has_sub : ℕ → List Sub → Bool
has_sub i [] = false
has_sub i (s ∷ ss) = s.id == i || has_sub i ss

abbrev pub delete_sub : ℕ → List Sub → List Sub
delete_sub i [] = []
delete_sub i (s ∷ ss) = if s.id == i then ss else s ∷ delete_sub i ss

-- The function that `Subscribe` returns.
unfoldable pub unsubscribe : ℕ → Bus → Option Bus
unsubscribe i b =
    if has_sub i b.subs
    then (close_chan (b.chan i) >>= λ c.
        some (record b { subs = delete_sub i b.subs; chan = update b.chan i c }))
    else some b

unfoldable pub wants : Event → Sub → Bool
wants ev s = str_eq s.topic "" || str_eq s.topic "*" || str_eq s.topic ev.topic

-- One round of the loop of `Publish`.
unfoldable pub offer : Event → Sub → Bus → Option Bus
offer ev s b =
    if not (wants ev s)
    then some b
    else try_send ev (b.chan s.id) >>= λ r. some (record b {
      chan = update b.chan s.id r.0;
      dropped = if r.1 then b.dropped else add64 b.dropped 1;
    })

unfoldable pub publish_each : Event → List Sub → Bus → Option Bus
publish_each ev [] b = some b
publish_each ev (s ∷ ss) b = offer ev s b >>= publish_each ev ss

unfoldable pub publish : Event → Bus → Option Bus
publish ev b = if b.closed then some b else publish_each ev b.subs b

-- The loop of `Close`.
unfoldable pub close_each : List Sub → Bus → Option Bus
close_each [] b = some b
close_each (s ∷ ss) b = close_chan (b.chan s.id) >>= λ c.
    close_each ss (record b { subs = ss; chan = update b.chan s.id c })

unfoldable pub close : Bus → Option Bus
close b = if b.closed then some b else close_each b.subs (record b { closed = true })
