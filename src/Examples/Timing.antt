-- ===== src/Examples/Timing.antt =====
-- Runs of the timers.
use polkadot_p2p_connect.Prelude.{
  ℕ, ◌≡◌, refl, true, false, ◌==◌, if◌then◌else◌, List, [], ◌∷◌, ◌++◌, none, some,
}
use polkadot_p2p_connect.Timers.{ready, pending, Timers, new, add, put_back, poll_front, try_next}
use polkadot_p2p_connect.Timers.Fifo.{Event, adds, wakes, tries, run, run_fifo, items, added}
use polkadot_p2p_connect.Timers.Wakeups
use polkadot_p2p_connect.Timers.Wakeups.{
  World, System, Step, Reachable, start, undisturbed, tried, tried_while_ends, ends_inside, polled,
  try_next-over,
}
use polkadot_p2p_connect.Timers.Lost
use polkadot_p2p_connect.Timers.Lost.{Calls, try_next-lost}

-- Two sleeps, of which the first is over at the second try.
abbrev events : List (Event ℕ ℕ)
events =
    adds 7 0
    ∷ adds 8 1
    ∷ tries (λ fut. pending false)
    ∷ wakes
    ∷ tries (λ fut. if fut == 0 then ready else pending false)
    ∷ tries (λ fut. if fut == 0 then ready else pending false)
    ∷ []

abbrev none_yet : Timers ℕ ℕ
none_yet = new

events_out : (run events none_yet).1 ≡ 7 ∷ []
unfolding run add try_next poll_front put_back
events_out = refl

run_fifo_example :
    (run events none_yet).1 ++ items (run events none_yet).0 ≡ items none_yet ++ added events
run_fifo_example = run_fifo events none_yet

abbrev nothing_over : World
nothing_over = record { over = λ fut. false; registered = λ fut. false }

abbrev waiting : System ℕ
waiting = record {
  timers = record { poll_next = true; timers = (7, 0) ∷ [] };
  world = record {
    over = λ fut. if fut == 0 then true else false;
    registered = λ fut. if fut == 0 then true else false;
  };
}

-- A timer is added and polled, and then its sleep ends.
abbrev waiting_reached : Reachable ℕ waiting
unfolding add try_next poll_front put_back
waiting_reached =
    Wakeups.next (Wakeups.next (Wakeups.next (start nothing_over) (Wakeups.adds 7 0)) Wakeups.tries)
      (Wakeups.ends 0)

try_next-over_example :
    try_next (polled false waiting.world) waiting.timers
    ≡ (record { poll_next = true; timers = [] }, some 7)
unfolding waiting_reached
try_next-over_example = try_next-over ℕ waiting 7 0 [] waiting_reached refl refl refl

-- The sleep of the only timer ends inside of the first call, behind the poll.
abbrev one_timer : System ℕ
one_timer = record {
  timers = record { poll_next = true; timers = (7, 0) ∷ [] };
  world = nothing_over;
}

abbrev after_calls : System ℕ
after_calls = tried ℕ (tried_while_ends ℕ 0 one_timer)

after_calls_reached : Calls (tried_while_ends ℕ 0 one_timer) after_calls
after_calls_reached = Lost.tries Lost.none_yet

try_next-lost_example :
    (after_calls.world.over 0 ≡ true)
    × (try_next (polled false after_calls.world) after_calls.timers ≡ (after_calls.timers, none))
try_next-lost_example =
    try_next-lost 7 0 [] one_timer after_calls refl refl refl after_calls_reached
