-- ===== src/A2a/Grpc/Carried.antt =====
-- A task that goes over a2a/grpc/convert.go and back.
use mathlib.Core.Option as Opt
use gori.Prelude.{
  All, is_empty, String, ◌≡◌, refl, ap, ◌⊎◌, inl, inr, false, Option, none, some, List, [], ◌∷◌,
  map,
}
use gori.A2a.{
  TaskState, submitted, working, input_required, auth_required, completed, failed, canceled,
  rejected, Part, text_part, Message, Artifact, Task,
}
use gori.A2a.Grpc.{
  Codec, state_to_pb, state_from_pb, role_to_pb, role_from_pb, data_from_pb, pb_text, raw_part,
  value_part, to_part, to_parts, part_from_pb, parts_from_pb, message_to_pb, message_from_pb,
}
use gori.A2a.Grpc.Tasks.{
  ReadTask, status_to_pb, artifact_to_pb, artifacts_to_pb, history_to_pb, task_to_pb,
  status_from_pb, artifact_from_pb, artifacts_from_pb, history_from_pb, task_from_pb,
}

-- A part that one content of a message can hold: a text, a file with a URI or with encoded bytes, or
-- data that its value prints again.
pub data Carried {R V : Type 0} (c : Codec R V) : Part → Type 0 where
  text_carried : {s : String} → Carried c (record { text = s; file = none; raw = "" })
  url_carried :
      {name mime u : String}
      → is_empty u ≡ false
      → Carried c (record {
        text = "";
        file = some (record { name = name; mime_type = mime; uri = u; bytes = "" });
        raw = "";
      })
  bytes_carried :
      {name mime : String} {r : R}
      → c.decode (c.encode r) ≡ some r
      → c.no_bytes r ≡ false
      → Carried c (record {
        text = "";
        file = some (record { name = name; mime_type = mime; uri = ""; bytes = c.encode r });
        raw = "";
      })
  data_carried :
      {b : String} {v : V}
      → is_empty b ≡ false
      → c.parse b ≡ some v
      → c.print v ≡ some b
      → Carried c (record { text = ""; file = none; raw = b })

abbrev without_kind : Message → Message
without_kind m = record m { kind = "" }

-- What is read of a task: no message has a kind, and the task has its own.
abbrev pub seen : Task → ReadTask
seen t = record {
  id = t.id;
  context_id = t.context_id;
  status = record {
    state = some t.status.state;
    message = Opt.map without_kind t.status.message;
    timestamp = t.status.timestamp;
  };
  artifacts = t.artifacts;
  history = map without_kind t.history;
  kind = "task";
}

role_from_pb-role_to_pb :
    (r : String) → ((r ≡ "agent") ⊎ (r ≡ "user")) → role_from_pb (role_to_pb r) ≡ r
unfolding role_from_pb role_to_pb
role_from_pb-role_to_pb r (inl e) = rw e refl
role_from_pb-role_to_pb r (inr e) = rw e refl

state_from_pb-state_to_pb :
    (s : TaskState) → ((s ≡ auth_required) → ⊥) → state_from_pb (state_to_pb s) ≡ some s
unfolding state_from_pb state_to_pb
state_from_pb-state_to_pb submitted h = refl
state_from_pb-state_to_pb working h = refl
state_from_pb-state_to_pb input_required h = refl
state_from_pb-state_to_pb completed h = refl
state_from_pb-state_to_pb failed h = refl
state_from_pb-state_to_pb canceled h = refl
state_from_pb-state_to_pb rejected h = refl
state_from_pb-state_to_pb auth_required h = absurd (h refl)

-- A message of the agent or of the user, all of whose parts can be carried.
abbrev pub CarriedMessage : {R V : Type 0} → Codec R V → Message → Type 0
CarriedMessage c m = ((m.role ≡ "agent") ⊎ (m.role ≡ "user")) × All (Carried c) m.parts

abbrev pub CarriedOption : {R V : Type 0} → Codec R V → Option Message → Type 0
CarriedOption c none = Unit
CarriedOption c (some m) = CarriedMessage c m

module _ {R V : Type 0} (c : Codec R V) where
  part_from_pb-to_part :
      (p : Part) (rest : List Part)
      → Carried c p
      → part_from_pb c (to_part c p p.file) (to_part c p p.file).content rest ≡ p ∷ rest
  unfolding part_from_pb to_part pb_text raw_part value_part data_from_pb text_part
  part_from_pb-to_part _ rest (text_carried {s}) = refl
  part_from_pb-to_part _ rest (url_carried {name} {mime} {u} full) = rw full refl
  part_from_pb-to_part _ rest (bytes_carried {name} {mime} {r} decodes full) =
      rw (decodes, full) refl
  part_from_pb-to_part _ rest (data_carried {b} {v} full parses prints) =
      rw (full, parses, prints) refl

  parts_from_pb-to_parts :
      (ps : List Part) → All (Carried c) ps → parts_from_pb c (to_parts c ps) ≡ ps
  unfolding parts_from_pb to_parts
  parts_from_pb-to_parts [] h = refl
  parts_from_pb-to_parts (p ∷ ps) h =
      rw (parts_from_pb-to_parts ps h.1) (part_from_pb-to_part p ps h.0)

  message_from_pb-message_to_pb :
      (m : Message) → CarriedMessage c m → message_from_pb c (message_to_pb c m) ≡ without_kind m
  unfolding message_from_pb message_to_pb
  message_from_pb-message_to_pb m (role, parts) =
      rw (role_from_pb-role_to_pb m.role role, parts_from_pb-to_parts m.parts parts) refl

  map-message_from_pb :
      (m : Option Message)
      → CarriedOption c m
      → Opt.map (message_from_pb c) (Opt.map (message_to_pb c) m) ≡ Opt.map without_kind m
  map-message_from_pb none h = refl
  map-message_from_pb (some m) h = ap some (message_from_pb-message_to_pb m h)

  history_from_pb-history_to_pb :
      (ms : List Message)
      → All (CarriedMessage c) ms
      → history_from_pb c (history_to_pb c ms) ≡ map without_kind ms
  unfolding history_from_pb history_to_pb
  history_from_pb-history_to_pb [] h = refl
  history_from_pb-history_to_pb (m ∷ ms) h =
      rw (message_from_pb-message_to_pb m h.0, history_from_pb-history_to_pb ms h.1) refl

  artifacts_from_pb-artifacts_to_pb :
      (as' : List Artifact)
      → All (λ a. All (Carried c) a.parts) as'
      → artifacts_from_pb c (artifacts_to_pb c as') ≡ as'
  unfolding artifacts_from_pb artifacts_to_pb artifact_from_pb artifact_to_pb
  artifacts_from_pb-artifacts_to_pb [] h = refl
  artifacts_from_pb-artifacts_to_pb (a ∷ as') h =
      rw (parts_from_pb-to_parts a.parts h.0, artifacts_from_pb-artifacts_to_pb as' h.1) refl

  -- A task whose state is not "auth-required", and whose messages and artifacts can be carried, is
  -- read back from its message with the same id, context, status, artifacts and history, except that
  -- the messages have lost their kind.
  pub task_from_pb-task_to_pb :
      (t : Task)
      → ((t.status.state ≡ auth_required) → ⊥)
      → CarriedOption c t.status.message
      → All (λ a. All (Carried c) a.parts) t.artifacts
      → All (CarriedMessage c) t.history
      → task_from_pb c (some (task_to_pb c t)) ≡ seen t
  unfolding task_from_pb task_to_pb status_from_pb status_to_pb
  task_from_pb-task_to_pb t state message artifacts history =
      rw
        (
          state_from_pb-state_to_pb t.status.state state,
          map-message_from_pb t.status.message message,
          artifacts_from_pb-artifacts_to_pb t.artifacts artifacts,
          history_from_pb-history_to_pb t.history history,
        )
        refl
