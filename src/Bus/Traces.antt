-- ===== src/Bus/Traces.antt =====
-- Whole histories of a bus, in which calls and receives come in any order.
use mathlib.Core.List.{Memᴰ}
use gori.Prelude.{
  ltb, ◌==◌, ltb→lt, ==_iff, Bool-cases, ◌>>=◌, update, length, take, select, length-append,
  take-nil, ℕ, suc, ◌+◌, ◌-◌, ◌≤◌, ◌<◌, String, ◌≡◌, refl, subst, ◌∙◌, inl, inr, true, false,
  Option, none, some, List, [], ◌∷◌, ◌++◌, append-nil, append_assoc, arith,
}
use gori.Channel.{Chan, capacity, recv, IsOpen}
use gori.Bus.{Event, Sub, Bus, new_bus, subscribe, unsubscribe, wants, publish, close}
use gori.Bus.Publish.{Live, received, Live-mem}
use gori.Bus.Safety.{
  IsValid, new_bus-IsValid, SomeValid, subscribe-IsValid, Published-IsValid, publish_delivers,
  publish-IsValid, close-IsValid, unsubscribe-IsValid,
}

-- What goroutines do with a bus. An id that `receives` or `unsubscribes` names may be any number.
pub data Call : Type 0 where
  subscribes : String → Call
  unsubscribes : ℕ → Call
  publishes : Event → Call
  receives : ℕ → Call
  closes : Call

unfoldable pub step : Call → Bus → Option Bus
step (subscribes topic) b = some (subscribe topic b).1
step (unsubscribes i) b = unsubscribe i b
step (publishes ev) b = publish ev b
step (receives i) b = some (record b { chan = update b.chan i (recv (b.chan i)).1 })
step closes b = close b

unfoldable pub run : List Call → Bus → Option Bus
run [] b = some b
run (c ∷ cs) b = step c b >>= run cs

recv-IsOpen : (c : Chan Event) → IsOpen c → IsOpen (recv c).1
recv-IsOpen c h = ground arith

receive-Live :
    (i : ℕ) (chan : ℕ → Chan Event) (ss : List Sub)
    → Live chan ss
    → Live (update chan i (recv (chan i)).1) ss
receive-Live i chan [] h = tt
receive-Live i chan (s ∷ ss) h = elim (Bool-cases (s.id == i)) [
  | inl hit ↦ (
    simp hit (subst (λ j. IsOpen (recv (chan j)).1) ((==_iff s.id i).0 hit) (recv-IsOpen _ h.0)),
    receive-Live i chan ss h.1,
  )
  | inr miss ↦ (simp miss h.0, receive-Live i chan ss h.1)
]

step-IsValid : (c : Call) (b : Bus) → IsValid b → SomeValid (step c b)
unfolding step
step-IsValid (subscribes topic) b v = (_, refl, subscribe-IsValid topic b v)
step-IsValid (unsubscribes i) b v = unsubscribe-IsValid i b v
step-IsValid (publishes ev) b v = publish-IsValid ev b v
step-IsValid (receives i) b v = (
  _,
  refl,
  record {
    below = v.below;
    live = receive-Live i b.chan b.subs v.live;
    closed_empty = v.closed_empty;
    counter = v.counter;
  },
)
step-IsValid closes b v = close-IsValid b v

run-IsValid : (cs : List Call) (b : Bus) → IsValid b → SomeValid (run cs b)
unfolding run
run-IsValid [] b v = (b, refl, v)
run-IsValid (c ∷ cs) b v =
    let (b₁, e, v₁) = step-IsValid c b v in
    let (b₂, e', v₂) = run-IsValid cs b₁ v₁ in (b₂, rw e e', v₂)

-- No history of a new bus panics, whatever the order of calls: nothing is sent on a closed channel
-- and no channel is closed twice. Afterwards the subscriptions are distinct, their channels open and
-- at most 64 events full, and a closed bus has none.
pub run_safe : (cs : List Call) → SomeValid (run cs new_bus)
run_safe cs = run-IsValid cs new_bus new_bus-IsValid

-- After `Close` a publish changes nothing, and a subscriber gets a channel that is closed already.
pub closed_inert :
    (ev : Event) (topic : String) (b : Bus)
    → b.closed ≡ true
    → (publish ev b ≡ some b) × (subscribe topic b ≡ (none, b)) × (close b ≡ some b)
unfolding publish subscribe close
closed_inert ev topic b c = (simp c, simp c, simp c)

unfoldable pub publish_all : List Event → Bus → Option Bus
publish_all [] b = some b
publish_all (ev ∷ evs) b = publish ev b >>= publish_all evs

-- What still fits of the wanted events of a list.
abbrev pub fitting : Sub → List Event → ℕ → List Event
fitting s evs used = take (capacity - used) (select (λ e. wants e s) evs)

take_more :
    (ev : Event) (rest : List Event) (n : ℕ)
    → n < 64
    → take (64 - n) (ev ∷ rest) ≡ ev ∷ take (64 - (n + 1)) rest
take_more ev rest n h = rw (let e : 64 - n ≡ suc (64 - (n + 1)) = omega arith in e)

received-fitting :
    (ev : Event) (evs : List Event) (s : Sub) (c : Chan Event)
    → length c.buf ≤ capacity
    → (received ev s c).buf ++ fitting s evs (length (received ev s c).buf)
      ≡ c.buf ++ fitting s (ev ∷ evs) (length c.buf)
received-fitting ev evs s c h = elim (Bool-cases (wants ev s)) [
  | inr skip ↦ rw skip
  | inl want ↦ elim (Bool-cases (ltb (length c.buf) capacity)) [
    | inl room ↦
        rw (want, room)
          (rw (
            length-append c.buf (ev ∷ []),
            take_more ev (select (λ e. wants e s) evs) (length c.buf) (ltb→lt _ _ room),
            append_assoc,
          ))
    | inr full ↦ rw (want, full) (rw (let e : capacity - length c.buf ≡ 0 = ground arith in e))
  ]
]

-- Events that are published in a row, with nothing received in between, stand in a subscriber's
-- channel behind what it held, in order: the wanted ones, as many as the buffer has room for.
pub publish_all_in_order :
    (evs : List Event) (b : Bus) (s : Sub)
    → IsValid b
    → b.closed ≡ false
    → Memᴰ s b.subs
    → (b' : Bus) × (publish_all evs b ≡ some b')
      × ((b'.chan s.id).buf ≡ (b.chan s.id).buf ++ fitting s evs (length (b.chan s.id).buf))
unfolding publish_all
publish_all_in_order [] b s v o m =
    (b, refl, rw (take-nil {A = Event} (capacity - length (b.chan s.id).buf), append-nil))
publish_all_in_order (ev ∷ evs) b s v o m =
    let (b₁, e, p) = publish_delivers ev b v o in
    let (b₂, e', q) =
      publish_all_in_order evs b₁ s (Published-IsValid ev b b₁ v p) (p.same_closed ∙ o)
        (rw p.same_subs m) in
    (
      b₂,
      rw e e',
      q
          ∙ rw (p.each s m)
              (received-fitting ev evs s (b.chan s.id) (Live-mem b.chan s b.subs v.live m).fits),
    )
