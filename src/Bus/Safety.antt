-- ===== src/Bus/Safety.antt =====
-- No schedule of bus operations panics, and what a publish, an unsubscribe and a close achieve.
use mathlib.Core.List.{Memᴰ}
use gori.Prelude.{
  ℕ, ◌≤◌, ◌<◌, ◌^◌, ◌≡◌, refl, sym, ap, ◌∙◌, true, false, String, List, [], ◌∷◌, Option, some, inl,
  inr, arith, ◌==◌, update, Bool-cases, subst, ==_iff,
}
use gori.Channel.{Chan, IsOpen}
use gori.Bus.{
  Event, Sub, Bus, new_bus, subscribe, unsubscribe, has_sub, delete_sub, publish, close, close_each,
}
use gori.Bus.Publish.{
  Below, Live, Live-agree, Below-mem, publish_each-Published, Below-mono, Published,
}

pub record IsValid (b : Bus) : Type 0 where
  pub below : Below b.next_id b.subs
  pub live : Live b.chan b.subs
  pub closed_empty : b.closed ≡ true → b.subs ≡ []
  pub counter : b.dropped < 2 ^ 64

pub new_bus-IsValid : IsValid new_bus
unfolding new_bus
new_bus-IsValid = record { below = tt; live = tt; closed_empty = λ e. cc; counter = omega arith }

abbrev pub SomeValid : Option Bus → Type 0
SomeValid r = (b : Bus) × (r ≡ some b) × IsValid b

pub subscribe-IsValid : (topic : String) (b : Bus) → IsValid b → IsValid (subscribe topic b).1
unfolding subscribe
subscribe-IsValid topic b v = elim (Bool-cases b.closed) [
  | inl c ↦ simp c v
  | inr o ↦ rw o (record {
    below = (omega arith, v.below);
    live =
        (ground arith, Live-agree b.chan _ b.next_id b.subs v.below (λ i l. ground arith) v.live);
    closed_empty = λ e. cc;
    counter = v.counter;
  })
]

pub Published-IsValid :
    (ev : Event) (b b' : Bus) → IsValid b → Published ev b.subs b.next_id b b' → IsValid b'
Published-IsValid ev b b' v p = record {
  below = rw (p.same_next, p.same_subs) v.below;
  live = rw p.same_subs p.live;
  closed_empty = λ c. p.same_subs ∙ v.closed_empty (sym p.same_closed ∙ c);
  counter = omega (arith, p.counts);
}

-- On a valid bus that is not closed, publishing does not panic. A subscriber gets the event exactly if
-- its topic matches and its buffer has room; a channel whose id is not subscribed is unchanged, whether
-- the id was given out before or not; and the counter goes up by the matching subscribers that were
-- full.
pub publish_delivers :
    (ev : Event) (b : Bus)
    → IsValid b
    → b.closed ≡ false
    → (b' : Bus) × (publish ev b ≡ some b') × Published ev b.subs b.next_id b b'
unfolding publish
publish_delivers ev b v o =
    let (b', e, p) = publish_each-Published ev b.subs b.next_id b v.below v.live v.counter in
    (b', simp o e, p)

pub publish-IsValid : (ev : Event) (b : Bus) → IsValid b → SomeValid (publish ev b)
unfolding publish
publish-IsValid ev b v = elim (Bool-cases b.closed) [
  | inl c ↦ (b, rw c, v)
  | inr o ↦ let (b', e, p) = publish_delivers ev b v o in (b', e, Published-IsValid ev b b' v p)
]

-- Closing the channels of a list that is all of the map.
record ClosedAll (ss : List Sub) (n : ℕ) (b b' : Bus) : Type 0 where
  no_subs : b'.subs ≡ []
  same_next : b'.next_id ≡ b.next_id
  same_closed : b'.closed ≡ b.closed
  same_dropped : b'.dropped ≡ b.dropped
  others : (i : ℕ) → n ≤ i → b'.chan i ≡ b.chan i
  each : (s : Sub) → Memᴰ s ss → b'.chan s.id ≡ record (b.chan s.id) { closed = true }

abbrev pub closed_now : Chan Event → Chan Event
closed_now c = record c { closed = true }

module _ (s : Sub) (ss : List Sub) (n : ℕ) (b b' : Bus) (bl : Below n (s ∷ ss)) where
  abbrev one_closed : Bus
  one_closed = record b { subs = ss; chan = update b.chan s.id (closed_now (b.chan s.id)) }

  one_closed_alike : (i : ℕ) → i < s.id → one_closed.chan i ≡ b.chan i
  one_closed_alike i l = ground arith

  ClosedAll-cons : ClosedAll ss s.id one_closed b' → ClosedAll (s ∷ ss) n b b'
  ClosedAll-cons p = record {
    no_subs = p.no_subs;
    same_next = p.same_next;
    same_closed = p.same_closed;
    same_dropped = p.same_dropped;
    others = λ i l. p.others i (omega (arith, bl.0)) ∙ ground (arith, bl.0);
    each = each_cons;
  }
    where
      each_cons : (t : Sub) → Memᴰ t (s ∷ ss) → b'.chan t.id ≡ closed_now (b.chan t.id)
      each_cons t (Memᴰ.head e) = rw e (p.others s.id (omega arith) ∙ ground arith)
      each_cons t (Memᴰ.tail m) =
          p.each t m ∙ ap closed_now (one_closed_alike t.id (Below-mem s.id ss t bl.1 m))

close_each-ClosedAll :
    (ss : List Sub) (n : ℕ) (b : Bus)
    → b.subs ≡ ss
    → Below n ss
    → Live b.chan ss
    → (b' : Bus) × (close_each ss b ≡ some b') × ClosedAll ss n b b'
unfolding close_each
close_each-ClosedAll [] n b e bl h = (
  b,
  refl,
  record {
    no_subs = e;
    same_next = refl;
    same_closed = refl;
    same_dropped = refl;
    others = λ i _. refl;
    each = λ s m. elim m [ ];
  },
)
close_each-ClosedAll (s ∷ ss) n b e bl h =
    let b₁ = one_closed s ss n b b bl in
    let (b₂, e', p) =
      close_each-ClosedAll ss s.id b₁ refl bl.1
        (Live-agree b.chan b₁.chan s.id ss bl.1 (one_closed_alike s ss n b b bl) h.1) in
    (b₂, rw h.0.open_now e', ClosedAll-cons s ss n b b₂ bl p)

-- What `Close` leaves behind.
pub record Closed (b b' : Bus) : Type 0 where
  pub closed_flag : b'.closed ≡ true
  pub no_subs : b'.subs ≡ []
  pub drains : (s : Sub) → Memᴰ s b.subs → b'.chan s.id ≡ closed_now (b.chan s.id)

-- Closing an open bus leaves no subscription, and every subscriber's channel closed with its
-- buffered events in it.
pub close_closes :
    (b : Bus) → IsValid b → b.closed ≡ false → (b' : Bus) × (close b ≡ some b') × Closed b b'
unfolding close
close_closes b v o =
    let (b', e, p) =
      close_each-ClosedAll b.subs b.next_id (record b { closed = true }) refl v.below v.live in
    (b', rw o e, record { closed_flag = p.same_closed; no_subs = p.no_subs; drains = p.each })

pub close-IsValid : (b : Bus) → IsValid b → SomeValid (close b)
unfolding close
close-IsValid b v = elim (Bool-cases b.closed) [
  | inl c ↦ (b, rw c, v)
  | inr o ↦
      let (b', e, p) =
        close_each-ClosedAll b.subs b.next_id (record b { closed = true }) refl v.below v.live in
      (
        b',
        rw o e,
        record {
          below = rw p.no_subs tt;
          live = rw p.no_subs tt;
          closed_empty = λ _. p.no_subs;
          counter = rw p.same_dropped v.counter;
        },
      )
]

-- Taking one subscription out.
delete_sub-Below : (i n : ℕ) (ss : List Sub) → Below n ss → Below n (delete_sub i ss)
delete_sub-Below i n [] b = tt
delete_sub-Below i n (s ∷ ss) b = elim (Bool-cases (s.id == i)) [
  | inl hit ↦ rw hit (Below-mono s.id n ss (omega (arith, b.0)) b.1)
  | inr miss ↦ rw miss (b.0, delete_sub-Below i s.id ss b.1)
]

delete_sub-Live :
    (i n : ℕ) (c : Chan Event) (chan : ℕ → Chan Event) (ss : List Sub)
    → Below n ss
    → Live chan ss
    → Live (update chan i c) (delete_sub i ss)
delete_sub-Live i n c chan [] b h = tt
delete_sub-Live i n c chan (s ∷ ss) b h = elim (Bool-cases (s.id == i)) [
  | inl hit ↦ rw hit (Live-agree chan _ s.id ss b.1 (λ j l. ground arith) h.1)
  | inr miss ↦ rw miss (simp miss h.0, delete_sub-Live i s.id c chan ss b.1 h.1)
]

has_sub-IsOpen :
    (i : ℕ) (chan : ℕ → Chan Event) (ss : List Sub)
    → Live chan ss
    → has_sub i ss ≡ true
    → IsOpen (chan i)
has_sub-IsOpen i chan [] h e = cc
has_sub-IsOpen i chan (s ∷ ss) h e = elim (Bool-cases (s.id == i)) [
  | inl hit ↦ subst (λ j. IsOpen (chan j)) ((==_iff s.id i).0 hit) h.0
  | inr miss ↦ has_sub-IsOpen i chan ss h.1 (rw miss at e)
]

pub unsubscribe-IsValid : (i : ℕ) (b : Bus) → IsValid b → SomeValid (unsubscribe i b)
unfolding unsubscribe
unsubscribe-IsValid i b v = elim (Bool-cases (has_sub i b.subs)) [
  | inr absent ↦ (b, rw absent, v)
  | inl held ↦
      let o = has_sub-IsOpen i b.chan b.subs v.live held in
      (
        record b { subs = delete_sub i b.subs; chan = update b.chan i (closed_now (b.chan i)) },
        rw (held, o.open_now),
        record {
          below = delete_sub-Below i b.next_id b.subs v.below;
          live = delete_sub-Live i b.next_id _ b.chan b.subs v.below v.live;
          closed_empty = λ c. rw (v.closed_empty c);
          counter = v.counter;
        },
      )
]
