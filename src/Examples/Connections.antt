-- ===== src/Examples/Connections.antt =====
-- Runs of a connection, over streams that hand out what a script says.
use polkadot_p2p_connect.Prelude.{
  ℕ, suc, ◌+◌, ◌≤◌, ◌≡◌, refl, arith, Bool, true, false, List, [], ◌∷◌,
}
use polkadot_p2p_connect.AsyncStream.{arrived}
use polkadot_p2p_connect.Multistreams.{Output, OutputState, outgoing_accepted, message, output}
use polkadot_p2p_connect.Multistreams
use polkadot_p2p_connect.Multistreams.Next.{Round, stopped}
use polkadot_p2p_connect.Multistreams.Next
use polkadot_p2p_connect.Protocol.{
  Configuration, SubscriptionProtocol, default, new_request, new_subscription, request,
  subscription,
}
use polkadot_p2p_connect.Streams.{Streams, IsFresh}
use polkadot_p2p_connect.Streams.Multiplexed.{multiplexed, multiplexed-IsFresh}
use polkadot_p2p_connect.Connection.{
  Connection, awaiting_protocol_confirmation, handshake, opened, new,
}
use polkadot_p2p_connect.Connection.Calls
use polkadot_p2p_connect.Connection.Next.{on_output}
use polkadot_p2p_connect.Connection.Next as Events
use polkadot_p2p_connect.Connection.Responses.{to_come}
use polkadot_p2p_connect.Connection.Kept.{count, issue, collect}
use polkadot_p2p_connect.Connection.History.{History, Reachable, responds_once}
use polkadot_p2p_connect.Connection.History
use polkadot_p2p_connect.Connection.Subscriptions.{Honest}
use polkadot_p2p_connect.Connection.Honesty.{on_output-Honest}
use polkadot_p2p_connect.Timers.{Poll, pending}

abbrev is_utf8 : List ℕ → Bool
is_utf8 bytes = true

multiplexed-IsFresh_example : IsFresh (multiplexed is_utf8 arrived 4 4)
multiplexed-IsFresh_example = multiplexed-IsFresh is_utf8 arrived 4 4

-- The next id, and the outputs to come.
abbrev next_output : ℕ × List Output → (ℕ × List Output) × Round
next_output (id, []) = ((id, []), stopped)
next_output (id, o ∷ os) = ((id, os), Next.emit o)

abbrev scripted : Streams
scripted = record {
  State = ℕ × List Output;
  open_stream = λ names size s. ((suc s.0, s.1), Multistreams.ok s.0);
  send_data = λ id bytes s. (s, Multistreams.ok tt);
  accept_protocol = λ id size s. (s, Multistreams.ok tt);
  reject_protocol = λ id s. (s, Multistreams.ok tt);
  close_stream = λ id s. s;
  reset_stream_immediately = λ id s. s;
  next = next_output;
}

next_output_mono : (s : ℕ × List Output) → s.0 ≤ (next_output s).0.0
next_output_mono (id, []) = omega arith
next_output_mono (id, o ∷ os) = omega arith

scripted-IsFresh : IsFresh scripted
scripted-IsFresh = record {
  next_id = λ s. s.0;
  open_stream-fresh = λ names size id s e. ground arith;
  open_stream-mono = λ names size s. omega arith;
  send_data-mono = λ id bytes s. omega arith;
  accept_protocol-mono = λ id size s. omega arith;
  reject_protocol-mono = λ id s. omega arith;
  close_stream-mono = λ id s. omega arith;
  reset_stream_immediately-mono = λ id s. omega arith;
  next-mono = next_output_mono;
}

abbrev notifications : SubscriptionProtocol
notifications = new_subscription (b's' ∷ []) (1 ∷ []) (λ bytes. true)

abbrev config : Configuration
config = record default {
  protocols = (0, request (new_request (b'r' ∷ []))) ∷ (1, subscription notifications) ∷ [];
}

abbrev answers : List Output
answers = output 1 (outgoing_accepted (b'r' ∷ [])) ∷ output 1 (message (5 ∷ [])) ∷ []

abbrev started : History scripted ℕ
started = record { connection = new scripted ℕ config (1, answers); issued = []; done = [] }

-- A request, the polls of three rounds, and a cancellation that comes too late.
abbrev requested : History scripted ℕ
requested = record {
  connection = (Calls.request 0 9 (3 ∷ []) started.connection).0;
  issued = issue (Calls.request 0 9 (3 ∷ []) started.connection).1 [];
  done = [];
}

abbrev polls : List (ℕ → Poll)
polls = (λ sleep. pending false) ∷ (λ sleep. pending false) ∷ (λ sleep. pending false) ∷ []

abbrev answered : History scripted ℕ
answered = record {
  connection = (Events.next polls requested.connection).0;
  issued = requested.issued;
  done = collect (Events.next polls requested.connection).1 [];
}

answered_reached : Reachable scripted ℕ answered
answered_reached =
    History.later
      (History.later (History.start config (1, answers)) (History.requests 0 9 (3 ∷ [])))
      (History.nexts polls)

answered_once : (answered.issued ≡ 1 ∷ []) × (answered.done ≡ 1 ∷ [])
unfolding Calls.request Calls.await_response Events.next Events.next_inner Events.next_round
    Events.handle_request_timeouts Events.expired Events.on_timeouts Events.on_streams on_output
answered_once = (refl, refl)

responds_once_example :
    (count 1 answered.issued
      ≡ count 1 answered.done + to_come scripted-IsFresh 1 answered.connection)
    × (count 1 answered.issued ≤ 1)
responds_once_example = responds_once scripted-IsFresh answered_reached 1

-- A request whose protocol has not been confirmed, and a subscription with our stream open and theirs
-- in its handshake.
abbrev busy : Connection scripted ℕ
busy = record (new scripted ℕ config (5, [])) {
  inflight_requests = (1, (0, awaiting_protocol_confirmation (3 ∷ []))) ∷ [];
  subscription_details =
      record {
        protocol_id = 1;
        protocol = notifications;
        our_stream = opened 3;
        their_stream = handshake 2;
      }
      ∷ [];
}

on_output-Honest_example : Honest (on_output 2 (message (7 ∷ [])) busy)
on_output-Honest_example = on_output-Honest 2 (message (7 ∷ [])) busy (tt, tt)
