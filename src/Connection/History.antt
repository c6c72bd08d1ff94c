-- ===== src/Connection/History.antt =====
-- connection.rs: the requests that a user has made and the responses that `next` has returned.
use polkadot_p2p_connect.Prelude.{ℕ, ◌+◌, ◌≤◌, ◌≡◌, refl, arith, List, []}
use mathlib.Core.Option
use polkadot_p2p_connect.Timers.{Poll, wake}
use polkadot_p2p_connect.Protocol.{Configuration}
use polkadot_p2p_connect.Streams.{Streams, IsFresh}
use polkadot_p2p_connect.Connection.{Connection, modify, new}
use polkadot_p2p_connect.Connection.Calls.{
  Result, ok, err, panicked, request_fits, request, cancel_request, respond, subscribe,
  send_notification, cancel_subscription,
}
use polkadot_p2p_connect.Connection.Turns.{Turn}
use polkadot_p2p_connect.Connection.Next.{next}
use polkadot_p2p_connect.Connection.Responses.{to_come, answered}
use polkadot_p2p_connect.Connection.Kept.{
  count, issue, collect, cancel_request-Keeps, respond-Keeps, subscribe-Keeps, notify-Keeps,
  cancel_subscription-Keeps, request-waits, request-Fresh,
}
use polkadot_p2p_connect.Connection.Subscribed.{Keeps}
use polkadot_p2p_connect.Connection.Answers.{next-Settles}

-- The waker of the timeouts of a protocol is called.
abbrev pub wake_timeouts :
    {S : Streams} {Sleep : Type 0} → ℕ → Connection S Sleep → Connection S Sleep
wake_timeouts protocol_id c = record c {
  request_details =
      modify (request_fits protocol_id) (λ p. record p { timeouts = Option.map wake p.timeouts })
        c.request_details;
}

-- A connection, the ids that `request` has returned, and those of the responses that `next` has.
pub record History (S : Streams) (Sleep : Type 0) : Type 0 where
  pub connection : Connection S Sleep
  pub issued : List ℕ
  pub done : List ℕ

module _ (S : Streams) (Sleep : Type 0) where
  abbrev pub went_on : History S Sleep → Connection S Sleep → History S Sleep
  went_on h c = record h { connection = c }

  -- A call, or the end of a timeout.
  pub data Step (h : History S Sleep) : History S Sleep → Type 0 where
    requests :
        (protocol_id : ℕ) (sleep : Sleep) (body : List ℕ)
        → Step h (record {
          connection = (request protocol_id sleep body h.connection).0;
          issued = issue (request protocol_id sleep body h.connection).1 h.issued;
          done = h.done;
        })
    cancels : (id : ℕ) → Step h (went_on h (cancel_request id h.connection))
    responds : (id : ℕ) (bytes : List ℕ) → Step h (went_on h (respond id bytes h.connection))
    subscribes : (id : ℕ) → Step h (went_on h (subscribe id h.connection).0)
    notifies :
        (id : ℕ) (bytes : List ℕ) → Step h (went_on h (send_notification id bytes h.connection).0)
    unsubscribes : (id : ℕ) → Step h (went_on h (cancel_subscription id h.connection))
    wakes : (id : ℕ) → Step h (went_on h (wake_timeouts id h.connection))
    nexts :
        (polls : List (Sleep → Poll))
        → Step h (record {
          connection = (next polls h.connection).0;
          issued = h.issued;
          done = collect (next polls h.connection).1 h.done;
        })

  pub data Reachable : History S Sleep → Type 0 where
    start :
        (config : Configuration) (s : S.State)
        → Reachable (record { connection = new S Sleep config s; issued = []; done = [] })
    later : {h h' : History S Sleep} → Reachable h → Step h h' → Reachable h'

count-issue :
    (id : ℕ) (r : Result ℕ) (ids : List ℕ)
    → count id (issue r ids) ≡ count id (issue r []) + count id ids
count-issue id (ok j) ids = omega arith
count-issue id (err e) ids = omega arith
count-issue id panicked ids = omega arith

count-collect :
    (id : ℕ) (turn : Turn) (ids : List ℕ)
    → count id (collect turn ids) ≡ answered id turn + count id ids
count-collect id turn ids = ground arith

module _ {S : Streams} {Sleep : Type 0} (law : IsFresh S) (id : ℕ) where
  -- A request is answered, or its response is to come; an id that was issued is not issued again.
  record Once (h : History S Sleep) : Type 0 where
    balance : count id h.issued ≡ count id h.done + to_come law id h.connection
    once : count id h.issued ≤ 1
    above : law.next_id h.connection.yamux ≤ id → count id h.issued ≡ 0

  Keeps-Once :
      (h : History S Sleep) (c : Connection S Sleep)
      → Once h
      → Keeps law id h.connection c
      → Once (went_on S Sleep h c)
  Keeps-Once h c v (count, mono) = record {
    balance = omega (arith, v.balance);
    once = v.once;
    above = λ le. v.above (omega arith);
  }

  next-Once :
      (h : History S Sleep) (polls : List (Sleep → Poll))
      → Once h
      → Once (record {
        connection = (next polls h.connection).0;
        issued = h.issued;
        done = collect (next polls h.connection).1 h.done;
      })
  next-Once h polls v =
      let (count, mono) = next-Settles law id polls h.connection in
      record {
        balance = omega (arith, v.balance, count-collect id (next polls h.connection).1 h.done);
        once = v.once;
        above = λ le. v.above (omega arith);
      }

module _ {S : Streams} {Sleep : Type 0} (law : IsFresh S) where
  AllOnce : History S Sleep → Type 0
  AllOnce h = (id : ℕ) → Once law id h

  request-Once :
      (h : History S Sleep) (protocol_id : ℕ) (sleep : Sleep) (body : List ℕ)
      → AllOnce h
      → AllOnce (record {
        connection = (request protocol_id sleep body h.connection).0;
        issued = issue (request protocol_id sleep body h.connection).1 h.issued;
        done = h.done;
      })
  unfolding AllOnce
  request-Once h protocol_id sleep body v id =
      let (mono, one, fresh) = request-Fresh law id protocol_id sleep body h.connection in
      let adds =
        request-waits law id protocol_id sleep body h.connection
          (λ j le. omega (arith, (v j).balance, (v j).above le)) in
      let issued = count-issue id (request protocol_id sleep body h.connection).1 h.issued in
      record {
        balance = omega (arith, (v id).balance);
        once = ground (arith, (v id).once, (v id).above);
        above = λ le. ground (arith, (v id).above);
      }

  Step-Once : {h h' : History S Sleep} → Step S Sleep h h' → AllOnce h → AllOnce h'
  unfolding AllOnce
  Step-Once {h} (requests protocol_id sleep body) v = request-Once h protocol_id sleep body v
  Step-Once {h} (cancels j) v = λ id.
      Keeps-Once law id h (cancel_request j h.connection) (v id)
        (cancel_request-Keeps law id j h.connection)
  Step-Once {h} (responds j bytes) v = λ id.
      Keeps-Once law id h (respond j bytes h.connection) (v id)
        (respond-Keeps law id j bytes h.connection)
  Step-Once {h} (subscribes j) v = λ id.
      Keeps-Once law id h (subscribe j h.connection).0 (v id)
        (subscribe-Keeps law id j h.connection)
  Step-Once {h} (notifies j bytes) v = λ id.
      Keeps-Once law id h (send_notification j bytes h.connection).0 (v id)
        (notify-Keeps law id j bytes h.connection)
  Step-Once {h} (unsubscribes j) v = λ id.
      Keeps-Once law id h (cancel_subscription j h.connection) (v id)
        (cancel_subscription-Keeps law id j h.connection)
  Step-Once {h} (wakes j) v =
      λ id. Keeps-Once law id h (wake_timeouts j h.connection) (v id) (refl, omega arith)
  Step-Once {h} (nexts polls) v = λ id. next-Once law id h polls (v id)

  Reachable-Once : {h : History S Sleep} → Reachable S Sleep h → AllOnce h
  unfolding AllOnce
  Reachable-Once (start config s) =
      λ id. record { balance = omega arith; once = omega arith; above = λ le. refl }
  Reachable-Once (later r step) = Step-Once step (Reachable-Once r)

  -- In every history of calls of a connection, whatever the remote sends: an id that `request` returned
  -- was not returned before, and it has one response, which `next` has returned, or which is queued, or
  -- for which the request is still waiting. There is no response to any other id.
  pub responds_once :
      {h : History S Sleep}
      → Reachable S Sleep h
      → (id : ℕ)
      → (count id h.issued ≡ count id h.done + to_come law id h.connection)
        × (count id h.issued ≤ 1)
  unfolding AllOnce
  responds_once r id = let v = Reachable-Once r id in (v.balance, v.once)
