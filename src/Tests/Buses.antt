-- ===== src/Tests/Buses.antt =====
-- bus_test.go and lifecycle_extra_test.go: topics, a full buffer, closing.
use mathlib.Core.List.{Memᴰ}
use mathlib.Core.Option
use gori.Prelude.{length, ℕ, String, ◌≡◌, refl, false, some, [], ◌∷◌, arith}
use gori.Channel.{make_chan}
use gori.Bus.{nil, Event, Sub, Bus, new_bus, wants, offer, publish_each, publish}
use gori.Bus.Publish.{Published}
use gori.Bus.Safety.{IsValid, SomeValid, publish_delivers}
use gori.Bus.Traces.{
  subscribes, unsubscribes, publishes, closes, run, run_safe, publish_all, fitting,
  publish_all_in_order,
}

abbrev event : String → Event
event t = record { topic = t; agent = t; kind = "step"; payload = nil; origin = "" }

abbrev alice : Sub
alice = record { id = 1; topic = "alice" }

abbrev two_subscribers : Bus
two_subscribers = record {
  subs = alice ∷ record { id = 0; topic = "*" } ∷ [];
  next_id = 2;
  closed = false;
  dropped = 0;
  chan = λ i. make_chan;
}

two_subscribers-IsValid : IsValid two_subscribers
two_subscribers-IsValid = record {
  below = omega arith;
  live = (
    record { open_now = refl; fits = omega arith },
    (record { open_now = refl; fits = omega arith }, tt),
  );
  closed_empty = λ e. cc;
  counter = omega arith;
}

topic_filter :
    Option.map {B = ℕ × ℕ}
      (λ b. (length (b.chan 0).buf, length (b.chan 1).buf))
      (publish_all (event "bob" ∷ event "alice" ∷ []) two_subscribers)
    ≡ some (2, 1)
unfolding publish_all publish publish_each offer wants
topic_filter = refl

run_safe_example :
    SomeValid (
      run
        (subscribes "*" ∷ publishes (event "bob") ∷ unsubscribes 0 ∷ closes ∷ closes ∷ [])
        new_bus)
run_safe_example =
    run_safe (subscribes "*" ∷ publishes (event "bob") ∷ unsubscribes 0 ∷ closes ∷ closes ∷ [])

publish_delivers_example :
    (b : Bus) × (publish (event "alice") two_subscribers ≡ some b)
    × Published (event "alice") two_subscribers.subs 2 two_subscribers b
publish_delivers_example =
    publish_delivers (event "alice") two_subscribers two_subscribers-IsValid refl

publish_all_in_order_example :
    (b : Bus) × (publish_all (event "alice" ∷ event "bob" ∷ []) two_subscribers ≡ some b)
    × ((b.chan 1).buf ≡ fitting alice (event "alice" ∷ event "bob" ∷ []) 0)
publish_all_in_order_example =
    publish_all_in_order (event "alice" ∷ event "bob" ∷ []) two_subscribers alice
      two_subscribers-IsValid refl (Memᴰ.head refl)
