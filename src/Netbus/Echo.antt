-- ===== src/Netbus/Echo.antt =====
-- The hub's tag on events without an origin, and the filter of a bridge.
use gori.Prelude.{
  ltb, leb, ◌==◌, if◌then◌else◌, Bool-cases, All, str_eq, ℕ, String, ◌≡◌, refl, inl, inr, false,
  not, ◌&&◌, some, List, [], ◌∷◌, map,
}
use gori.Netbus.{Event}
use gori.Netbus.Hub.{with_origin}
use gori.Netbus.Client.{stream, forwards}

empty-external : str_eq "external" "" ≡ false
empty-external = refl

with_origin-tagged : (ev : Event) → str_eq (with_origin ev).origin "" ≡ false
unfolding with_origin
with_origin-tagged ev = elim (Bool-cases (str_eq ev.origin "")) [
  | inl yes_ ↦ simp yes_ empty-external
  | inr no_ ↦ simp no_ refl
]

forwards-with_origin :
    (allow : List String) (ev : Event)
    → forwards allow (with_origin ev).topic (with_origin ev).origin ≡ false
unfolding forwards
forwards-with_origin allow ev = rw (with_origin-tagged ev) refl

-- Of the events that the hub has accepted, whoever published them, a bridge sends none back to the hub that its stream has put
-- on the local bus.
pub stream_no_echo :
    (allow : List String) (origin : String) (last : ℕ) (evs : List Event)
    → All
        (λ ev. forwards allow ev.topic ev.origin ≡ false)
        (stream origin last (map (λ ev. some (with_origin ev)) evs)).0
unfolding stream
stream_no_echo allow origin last [] = tt
stream_no_echo allow origin last (ev ∷ evs) =
    elim (Bool-cases (not ((with_origin ev).id == 0) && leb (with_origin ev).id last)) [
      | inl seen ↦ rw seen (stream_no_echo allow origin last evs)
      | inr new ↦ elim (Bool-cases (str_eq (with_origin ev).origin origin)) [
        | inl own ↦
            rw (new, own)
              (stream_no_echo allow origin
                (if ltb last (with_origin ev).id then (with_origin ev).id else last) evs)
        | inr other ↦
            rw (new, other)
              (
                forwards-with_origin allow ev,
                stream_no_echo allow origin
                    (if ltb last (with_origin ev).id then (with_origin ev).id else last) evs,
              )
      ]
    ]
