-- ===== src/Tests/Nets.antt =====
-- The hub and its clients at concrete inputs.
use gori.Prelude.{
  drop, select, All, ℕ, String, ◌≡◌, refl, false, none, some, List, [], ◌∷◌, ◌++◌, map, arith,
}
use gori.Netbus.{Event, new_ring, add, above, after, wants}
use gori.Netbus.Window.{number, add_all, ring_window}
use gori.Netbus.Hub.{with_origin}
use gori.Netbus.Replay.{serve_live, event_ids, serve, serve_resumes}
use gori.Netbus.Client.{stream, receive, forwards}
use gori.Netbus.Resume.{window, others, reach, Follows, receive_exactly_once}
use gori.Netbus.Echo.{stream_no_echo}

abbrev news : String → String → Event
news topic origin = record {
  id = 0;
  topic = topic;
  origin = origin;
  agent = "a";
  kind = "k";
  payload = none;
}

abbrev first_two : List Event
first_two = news "t" "x" ∷ news "u" "y" ∷ []

ring_window_example :
    ((add_all first_two (new_ring 1)).seq ≡ 2)
    × ((add_all first_two (new_ring 1)).buf ≡ drop 1 (number 0 first_two))
ring_window_example = ring_window first_two 1

-- One event is published while the subscriber arrives, one before and one after.
serve_resumes_example :
    serve 1
      ("t" ∷ [])
      (add_all (first_two ++ first_two) (new_ring 3))
      (select (wants ("t" ∷ [])) (number 2 (first_two ++ first_two)))
    ≡ select (wants ("t" ∷ [])) (above 1 (number 0 (first_two ++ first_two ++ first_two)))
serve_resumes_example =
    serve_resumes first_two first_two first_two 3 1 ("t" ∷ []) (omega arith) (omega arith)
      (omega arith)

serve_resumes_run :
    event_ids (
      serve 1
        ("t" ∷ [])
        (add_all (first_two ++ first_two) (new_ring 3))
        (select (wants ("t" ∷ [])) (number 2 (first_two ++ first_two))))
    ≡ 3 ∷ 5 ∷ []
unfolding serve serve_live after add_all add wants
serve_resumes_run = refl

-- The second connection replays an event that the first has delivered.
receive_exactly_once_example :
    receive "x" 0 (
      map {A = ℕ × ℕ}
        (λ c. map (λ ev. some ev) (window c.0 c.1 (number 0 (first_two ++ first_two))))
        ((0, 3) ∷ (2, 4) ∷ []))
    ≡ (others "x" (window 0 4 (number 0 (first_two ++ first_two))), 4)
unfolding reach Follows
receive_exactly_once_example =
    receive_exactly_once "x" (first_two ++ first_two) 0 ((0, 3) ∷ (2, 4) ∷ [])
      (omega arith, (omega arith, tt))

stream_no_echo_example :
    All
      (λ ev. forwards ("t" ∷ []) ev.topic ev.origin ≡ false)
      (stream "x" 0 (map (λ ev. some (with_origin ev)) (news "t" "" ∷ news "t" "y" ∷ []))).0
stream_no_echo_example = stream_no_echo ("t" ∷ []) "x" 0 (news "t" "" ∷ news "t" "y" ∷ [])
