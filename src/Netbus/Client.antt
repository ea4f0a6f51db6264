-- ===== src/Netbus/Client.antt =====
-- `Client.stream` and `Client.Bridge` of netbus/client.go: what goes between a hub and a local bus.
use gori.Prelude.{
  ltb, leb, ◌==◌, if◌then◌else◌, str_eq, ℕ, String, Bool, true, not, ◌&&◌, Option, none, some, List,
  [], ◌∷◌, ◌++◌,
}
use gori.Netbus.{Event, has_topic}

-- A frame of the stream: `none` has no data, or data that is no event.
unfoldable pub stream : String → ℕ → List (Option Event) → List Event × ℕ
stream origin last [] = ([], last)
stream origin last (none ∷ fs) = stream origin last fs
stream origin last (some ev ∷ fs) =
    let dropped = stream origin last fs in
    let (rest, last') = stream origin (if ltb last ev.id then ev.id else last) fs in
    if not (ev.id == 0) && leb ev.id last
    then dropped
    else if str_eq ev.origin origin
    then (rest, last')
    else (ev ∷ rest, last')

-- The connections of `receive`, one after the other: what is published on the local bus.
unfoldable pub receive : String → ℕ → List (List (Option Event)) → List Event × ℕ
receive origin last [] = ([], last)
receive origin last (fs ∷ rest) =
    let (evs, last') = stream origin last fs in
    let (more, last_id) = receive origin last' rest in (evs ++ more, last_id)

-- Whether `Bridge` forwards a bus event of this topic and origin to the hub.
unfoldable pub forwards : List String → String → String → Bool
forwards allow topic origin = str_eq origin "" && allowed allow
  where
    allowed : List String → Bool
    allowed [] = true
    allowed (t ∷ ts) = has_topic topic (t ∷ ts)
