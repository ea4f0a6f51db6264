-- ===== src/Channel.antt =====
-- Go's buffered channels as the program uses them: `make(chan T, 64)`, a send in a `select` with a
-- `default`, and `close`. `none` is a run-time panic: a send on a closed channel, or a second close.
use gori.Prelude.{
  ℕ, ◌≤◌, ◌≡◌, Bool, true, false, List, [], ◌∷◌, ◌++◌, Option, none, some, ltb, length,
  if◌then◌else◌,
}

pub record Chan {ℓ} (A : Type ℓ) : Type ℓ where
  pub buf : List A
  pub closed : Bool

abbrev pub capacity : ℕ
capacity = 64

module _ {ℓ} {A : Type ℓ} where
  abbrev pub make_chan : Chan A
  make_chan = record { buf = []; closed = false }

  -- The flag tells that the value went in; a full buffer takes the `default` case.
  abbrev pub try_send : A → Chan A → Option (Chan A × Bool)
  try_send a c =
      if c.closed
      then none
      else if ltb (length c.buf) capacity
      then some (record c { buf = c.buf ++ a ∷ [] }, true)
      else some (c, false)

  abbrev pub close_chan : Chan A → Option (Chan A)
  close_chan c = if c.closed then none else some (record c { closed = true })

  -- The consumer's `v, ok := <-ch` where it does not block.
  abbrev pub recv : Chan A → Option A × Chan A
  recv c = elim c.buf [ [] ↦ (none, c) | a ∷ rest ↦ (some a, record c { buf = rest }) ]

  -- An open channel within its capacity.
  pub record IsOpen (c : Chan A) : Type ℓ where
    pub open_now : c.closed ≡ false
    pub fits : length c.buf ≤ capacity
