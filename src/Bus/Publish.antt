-- ===== src/Bus/Publish.antt =====
-- What `Publish` does to every channel and to the counter.
use mathlib.Core.List.{Memᴰ}
use gori.Prelude.{
  ℕ, ◌+◌, ◌≤◌, ◌<◌, ◌^◌, ◌≡◌, refl, true, false, Bool, ◌&&◌, ◌||◌, not, List, [], ◌∷◌, ◌++◌, some,
  arith, length, length-append, ltb, ◌==◌, if◌then◌else◌, update, All, Bool-cases, inl, inr, ◌∙◌,
  ap,
}
use gori.Prelude.Int.{add64}
use gori.Channel.{Chan, IsOpen, capacity}
use gori.Bus.{Event, Sub, Bus, has_sub, wants, offer, publish_each, Bool, has_sub}

-- The ids fall along the list, newest first, and stay under the bound.
abbrev pub Below : ℕ → List Sub → Type 0
Below n [] = Unit {0}
Below n (s ∷ ss) = (s.id < n) × Below s.id ss

-- The channels of a list of subscriptions are open.
abbrev pub Live : (ℕ → Chan Event) → List Sub → Type 0
Live chan ss = All (λ s. IsOpen (chan s.id)) ss

-- What a subscriber's channel holds after an event: it is at the end if the subscriber wants it and
-- the buffer had room.
abbrev pub received : Event → Sub → Chan Event → Chan Event
received ev s c =
    if wants ev s && ltb (length c.buf) capacity then record c { buf = c.buf ++ ev ∷ [] } else c

-- The subscribers that want the event and whose buffer is full.
abbrev pub missed : Event → (ℕ → Chan Event) → List Sub → ℕ
missed ev chan [] = 0
missed ev chan (s ∷ ss) =
    (if wants ev s && not (ltb (length (chan s.id).buf) capacity) then 1 else 0) + missed ev chan ss

-- What one round of the loop changes.
record Offered (ev : Event) (s : Sub) (b b' : Bus) : Type 0 where
  same_subs : b'.subs ≡ b.subs
  same_next : b'.next_id ≡ b.next_id
  same_closed : b'.closed ≡ b.closed
  counts : b'.dropped ≡ add64 b.dropped (missed ev b.chan (s ∷ []))
  chans : (i : ℕ) → b'.chan i ≡ (if i == s.id then received ev s (b.chan i) else b.chan i)

module _ (ev : Event) (s : Sub) (b : Bus) (h : IsOpen (b.chan s.id)) (d : b.dropped < 2 ^ 64) where
  abbrev Offers : Type 0
  Offers = (b' : Bus) × (offer ev s b ≡ some b') × Offered ev s b b'

  offer-skip : wants ev s ≡ false → Offers
  unfolding offer
  offer-skip skip = (
    b,
    ground arith,
    record {
      same_subs = refl;
      same_next = refl;
      same_closed = refl;
      counts = ground arith;
      chans = λ i. ground arith;
    },
  )

  offer-room : wants ev s ≡ true → ltb (length (b.chan s.id).buf) capacity ≡ true → Offers
  unfolding offer
  offer-room want room = (
    record b { chan = update b.chan s.id (received ev s (b.chan s.id)) },
    ground arith,
    record {
      same_subs = refl;
      same_next = refl;
      same_closed = refl;
      counts = ground arith;
      chans = λ i. ground arith;
    },
  )

  offer-full : wants ev s ≡ true → ltb (length (b.chan s.id).buf) capacity ≡ false → Offers
  unfolding offer
  offer-full want full = (
    record b { chan = update b.chan s.id (b.chan s.id); dropped = add64 b.dropped 1 },
    ground arith,
    record {
      same_subs = refl;
      same_next = refl;
      same_closed = refl;
      counts = ground arith;
      chans = λ i. ground arith;
    },
  )

  offer-Offered : Offers
  offer-Offered = elim (Bool-cases (wants ev s)) [
    | inl want ↦ elim (Bool-cases (ltb (length (b.chan s.id).buf) capacity)) [
      | inl room ↦ offer-room want room
      | inr full ↦ offer-full want full
    ]
    | inr skip ↦ offer-skip skip
  ]

received-IsOpen : (ev : Event) (s : Sub) (c : Chan Event) → IsOpen c → IsOpen (received ev s c)
received-IsOpen ev s c h = record {
  open_now = ground arith;
  fits = ground (arith, length-append c.buf (ev ∷ []));
}

pub Below-mem : (n : ℕ) (ss : List Sub) (s : Sub) → Below n ss → Memᴰ s ss → s.id < n
Below-mem n [] s b m = elim m [ ]
Below-mem n (t ∷ ss) s b (Memᴰ.head e) = rw e b.0
Below-mem n (t ∷ ss) s b (Memᴰ.tail m) = omega (arith, Below-mem t.id ss s b.1 m, b.0)

pub Live-mem :
    (chan : ℕ → Chan Event) (s : Sub) (ss : List Sub)
    → Live chan ss
    → Memᴰ s ss
    → IsOpen (chan s.id)
Live-mem chan s [] h m = elim m [ ]
Live-mem chan s (t ∷ ss) h (Memᴰ.head e) = rw e h.0
Live-mem chan s (t ∷ ss) h (Memᴰ.tail m) = Live-mem chan s ss h.1 m

pub Below-mono : (m n : ℕ) (ss : List Sub) → m ≤ n → Below m ss → Below n ss
Below-mono m n [] h b = tt
Below-mono m n (s ∷ ss) h b = (omega arith, b.1)

-- Two heaps that agree under the bound are alike to the list.
module _ (f g : ℕ → Chan Event) where
  pub Live-agree :
      (n : ℕ) (ss : List Sub) → Below n ss → ((i : ℕ) → i < n → g i ≡ f i) → Live f ss → Live g ss
  Live-agree n [] b e h = tt
  Live-agree n (s ∷ ss) b e h =
      (rw (e s.id b.0) h.0, Live-agree s.id ss b.1 (λ i l. e i (omega (arith, b.0))) h.1)

  missed-agree :
      (ev : Event) (n : ℕ) (ss : List Sub)
      → Below n ss
      → ((i : ℕ) → i < n → g i ≡ f i)
      → missed ev g ss ≡ missed ev f ss
  missed-agree ev n [] b e = refl
  missed-agree ev n (s ∷ ss) b e =
      rw (e s.id b.0, missed-agree ev s.id ss b.1 (λ i l. e i (omega (arith, b.0))))

absent_here : (a b : Bool) → (a || b) ≡ false → a ≡ false
absent_here true b h = cc
absent_here false b h = refl

absent_rest : (a b : Bool) → (a || b) ≡ false → b ≡ false
absent_rest true b h = cc
absent_rest false b h = h

-- What the whole loop does.
pub record Published (ev : Event) (ss : List Sub) (n : ℕ) (b b' : Bus) : Type 0 where
  pub same_subs : b'.subs ≡ b.subs
  pub same_next : b'.next_id ≡ b.next_id
  pub same_closed : b'.closed ≡ b.closed
  pub counts : b'.dropped ≡ add64 b.dropped (missed ev b.chan ss)
  pub others : (i : ℕ) → n ≤ i → b'.chan i ≡ b.chan i
  pub elsewhere : (i : ℕ) → has_sub i ss ≡ false → b'.chan i ≡ b.chan i
  pub each : (s : Sub) → Memᴰ s ss → b'.chan s.id ≡ received ev s (b.chan s.id)
  pub live : Live b'.chan ss

Published-nil : (ev : Event) (n : ℕ) (b : Bus) → b.dropped < 2 ^ 64 → Published ev [] n b b
Published-nil ev n b d = record {
  same_subs = refl;
  same_next = refl;
  same_closed = refl;
  counts = omega arith;
  others = λ i _. refl;
  elsewhere = λ i _. refl;
  each = λ s m. elim m [ ];
  live = tt;
}

module _ (ev : Event) (s : Sub) (ss : List Sub) (n : ℕ) (b b₁ b₂ : Bus)
    (bl : Below n (s ∷ ss)) where
  below_alike : Offered ev s b b₁ → (i : ℕ) → i < s.id → b₁.chan i ≡ b.chan i
  below_alike o i l = ground (arith, o.chans i)

  Published-cons :
      IsOpen (b.chan s.id)
      → Offered ev s b b₁
      → Published ev ss s.id b₁ b₂
      → Published ev (s ∷ ss) n b b₂
  Published-cons h o p = record {
    same_subs = p.same_subs ∙ o.same_subs;
    same_next = p.same_next ∙ o.same_next;
    same_closed = p.same_closed ∙ o.same_closed;
    counts =
        omega
          (arith, p.counts, o.counts, missed-agree b.chan b₁.chan ev s.id ss bl.1 (below_alike o));
    others = λ i l. p.others i (omega (arith, bl.0)) ∙ ground (arith, o.chans i, bl.0);
    elsewhere = λ i l.
        p.elsewhere i (absent_rest (s.id == i) _ l)
        ∙ ground (arith, o.chans i, absent_here (s.id == i) _ l);
    each = each_cons;
    live = (rw here_is (received-IsOpen ev s _ h), p.live);
  }
    where
      here_is : b₂.chan s.id ≡ received ev s (b.chan s.id)
      here_is = p.others s.id (omega arith) ∙ ground (arith, o.chans s.id)

      each_cons : (t : Sub) → Memᴰ t (s ∷ ss) → b₂.chan t.id ≡ received ev t (b.chan t.id)
      each_cons t (Memᴰ.head e) = rw e here_is
      each_cons t (Memᴰ.tail m) =
          p.each t m ∙ ap (received ev t) (below_alike o t.id (Below-mem s.id ss t bl.1 m))

pub publish_each-Published :
    (ev : Event) (ss : List Sub) (n : ℕ) (b : Bus)
    → Below n ss
    → Live b.chan ss
    → b.dropped < 2 ^ 64
    → (b' : Bus) × (publish_each ev ss b ≡ some b') × Published ev ss n b b'
unfolding publish_each
publish_each-Published ev [] n b bl h d = (b, refl, Published-nil ev n b d)
publish_each-Published ev (s ∷ ss) n b bl h d =
    let (b₁, e, o) = offer-Offered ev s b h.0 d in
    let alike = below_alike ev s ss n b b₁ b₁ bl o in
    let (b₂, e', p) =
      publish_each-Published ev ss s.id b₁ bl.1 (Live-agree b.chan b₁.chan s.id ss bl.1 alike h.1)
        (omega (arith, o.counts)) in
    (b₂, rw e e', Published-cons ev s ss n b b₁ b₂ bl h.0 o p)
