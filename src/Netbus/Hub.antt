-- ===== src/Netbus/Hub.antt =====
-- The hub of netbus/hub.go: its handlers and its subscribers' channels, found by the subscriber's id.
-- The body of a request is its decoded event, or `none` where decoding fails (too large, or no JSON).
use gori.Prelude.{
  ◌==◌, if◌then◌else◌, ◌>>=◌, update, length, str_eq, append, ℕ, suc, String, Bool, true, false,
  not, ◌||◌, Option, none, some, List, [], ◌∷◌,
}
use gori.Channel.{Chan, make_chan, try_send, close_chan}
use gori.Netbus.{Event, Ring, new_ring, default_ring_size, add, wants}

pub record Hub : Type 0 where
  pub auth_token : String
  pub subs : List (ℕ × List String)
  pub next_sub : ℕ
  pub shutdown : Bool
  pub ring : Ring
  pub chan : ℕ → Chan Event

abbrev pub new_hub : String → Hub
new_hub token = record {
  auth_token = token;
  subs = [];
  next_sub = 0;
  shutdown = false;
  ring = new_ring default_ring_size;
  chan = λ i. make_chan;
}

pub record PublishRequest : Type 0 where
  pub authorization : String
  pub method : String
  pub body : Option Event

-- `authorised`: the header is "Bearer " and the token. The constant-time comparison is an equality.
unfoldable pub authorised : String → Hub → Bool
authorised header h = str_eq h.auth_token "" || str_eq header (append "Bearer " h.auth_token)

-- One round of the loop of `broadcast`.
unfoldable pub offer : Event → ℕ × List String → Hub → Option Hub
offer ev (i, topics) h =
    if wants topics ev
    then (try_send ev (h.chan i) >>= λ r. some (record h { chan = update h.chan i r.0 }))
    else some h

unfoldable pub broadcast_each : Event → List (ℕ × List String) → Hub → Option Hub
broadcast_each ev [] h = some h
broadcast_each ev (s ∷ ss) h = offer ev s h >>= broadcast_each ev ss

unfoldable pub broadcast : Event → Hub → Option Hub
broadcast ev h = broadcast_each ev h.subs h

unfoldable pub with_origin : Event → Event
with_origin ev = if str_eq ev.origin "" then record ev { origin = "external" } else ev

-- The part of `handlePublish` under `pub`, and its status.
unfoldable pub publish : Event → Hub → Option (ℕ × Hub)
publish ev h =
    let (ev', r) = add ev h.ring in broadcast ev' (record h { ring = r }) >>= λ h'. some (202, h')

publish_body : Option Event → Hub → Option (ℕ × Hub)
publish_body none h = some (400, h)
publish_body (some ev) h = publish (with_origin ev) h

unfoldable pub handle_publish : PublishRequest → Hub → Option (ℕ × Hub)
unfolding publish_body
handle_publish r h =
    if not (authorised r.authorization h)
    then some (401, h)
    else if not (str_eq r.method "POST")
    then some (405, h)
    else publish_body r.body h

-- `none` is the id -1 of a closed channel that is in no map.
unfoldable pub add_sub : List String → Hub → Option ℕ × Hub
add_sub topics h = if h.shutdown then (none, h) else (
  some h.next_sub,
  record h {
    next_sub = suc h.next_sub;
    subs = (h.next_sub, topics) ∷ h.subs;
    chan = update h.chan h.next_sub make_chan;
  },
)

abbrev pub has_sub : ℕ → List (ℕ × List String) → Bool
has_sub i [] = false
has_sub i ((j, topics) ∷ ss) = j == i || has_sub i ss

abbrev pub delete_sub : ℕ → List (ℕ × List String) → List (ℕ × List String)
delete_sub i [] = []
delete_sub i ((j, topics) ∷ ss) =
    let rest = delete_sub i ss in if j == i then rest else (j, topics) ∷ rest

unfoldable pub remove_sub : ℕ → Hub → Option Hub
remove_sub i h =
    if has_sub i h.subs
    then (close_chan (h.chan i) >>= λ c.
        some (record h { subs = delete_sub i h.subs; chan = update h.chan i c }))
    else some h

unfoldable pub close_each : List (ℕ × List String) → Hub → Option Hub
close_each [] h = some h
close_each ((i, topics) ∷ ss) h =
    close_chan (h.chan i) >>= λ c. close_each ss (record h { subs = ss; chan = update h.chan i c })

unfoldable pub close_all : Hub → Option Hub
close_all h = close_each h.subs (record h { shutdown = true })

-- `SubscriberCount`.
unfoldable pub subscriber_count : Hub → ℕ
subscriber_count h = length h.subs
