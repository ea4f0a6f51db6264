-- ===== src/Netbus.antt =====
-- netbus/hub.go and netbus/client.go: the event hub and its clients. Event ids are `seq`, an `int64` that
-- does not wrap here. A `Last-Event-ID` that is absent, not a number or negative is 0. `none` as a
-- result is a run-time panic of the channel operations. The payload is the event's JSON text.
pub mod Window
pub mod Hub
pub mod Replay
pub mod Client
pub mod Resume
pub mod Echo
use gori.Prelude.{
  ltb, length, drop, select, str_eq, ℕ, suc, ◌-◌, String, Bool, true, false, ◌||◌, Option, List, [],
  ◌∷◌, ◌++◌,
}

pub record Event : Type 0 where
  pub id : ℕ
  pub topic : String
  pub origin : String
  pub agent : String
  pub kind : String
  pub payload : Option String

pub record Ring : Type 0 where
  pub seq : ℕ
  pub buf : List Event
  pub cap : ℕ

abbrev pub new_ring : ℕ → Ring
new_ring c = record { seq = 0; buf = []; cap = c }

abbrev pub default_ring_size : ℕ
default_ring_size = 256

-- `ring.add`, with the event that it returns; the event's JSON text `wire` is a cache.
unfoldable pub add : Event → Ring → Event × Ring
add ev r =
    let ev' : Event = record ev { id = suc r.seq } in
    let buf = r.buf ++ ev' ∷ [] in
    (ev', record r { seq = suc r.seq; buf = drop (length buf - r.cap) buf })

-- `ring.after`'s loop.
abbrev pub above : ℕ → List Event → List Event
above id = select (λ ev. ltb id ev.id)

unfoldable pub after : ℕ → Ring → List Event
after id r = above id r.buf

-- `s.topics[topic]`, where no topics stand for all of them.
abbrev pub has_topic : String → List String → Bool
has_topic t [] = false
has_topic t (u ∷ us) = str_eq u t || has_topic t us

unfoldable pub wants : List String → Event → Bool
wants [] ev = true
wants (t ∷ ts) ev = has_topic ev.topic (t ∷ ts)
