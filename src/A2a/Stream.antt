-- ===== src/A2a/Stream.antt =====
-- a2a/taskstore.go: the events of a streamed task (`runStream`), and a2a/server.go: the frames that
-- they become. The handler's run is its texts, each given to `emit`, and then its result.
-- `s` is the store when the handler returns; calls of others may have come before that.
pub mod Client
pub mod Broker
use gori.Prelude.{Result, ok, err, ℕ, String, Bool, true, false, not, none, List, [], ◌∷◌, ◌++◌}
use gori.A2a.Store.{Store, status_at}
use gori.A2a.{working, Part, text_part, TaskStatus, Artifact, Task}
use gori.A2a.Lifecycle.{finish}

pub data TaskEvent : Type 0 where
  status_event : TaskStatus → Bool → TaskEvent
  artifact_event : Artifact → Bool → Bool → TaskEvent

abbrev pub artifact_of : ℕ → List Part → Artifact
artifact_of i parts = record { artifact_id = i; name = ""; description = ""; parts = parts }

-- The calls of `emit`.
unfoldable pub deltas : ℕ → Bool → List String → List TaskEvent
deltas i first_chunk [] = []
deltas i first_chunk (t ∷ ts) =
    artifact_event (artifact_of i (text_part t ∷ [])) (not first_chunk) false ∷ deltas i false ts

unfoldable pub last_chunk : List Artifact → List TaskEvent
last_chunk [] = []
last_chunk (a ∷ rest) = artifact_event a false true ∷ []

unfoldable pub final_events : Result (List Part) → Task → List TaskEvent
unfolding last_chunk
final_events (err e) t = status_event t.status true ∷ []
final_events (ok parts) t = last_chunk t.artifacts ++ status_event t.status true ∷ []

-- `runStream`, begun at time `start`: the sink's calls, and the store.
unfoldable pub run_stream :
    ℕ → ℕ → List String → Result (List Part) → ℕ → Store → List TaskEvent × Store
run_stream i start texts r now s =
    let s' = finish i r now s in
    (
      status_event (status_at working none start) false ∷ deltas i true texts
          ++ final_events r (s'.heap i),
      s',
    )
