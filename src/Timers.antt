-- ===== src/Timers.antt =====
-- utils/timers.rs: a set of timers of one duration, polled in the order in which they were added.
-- The future of a sleep is the platform's: `fut` is a new one, and `poll` says what polling each of
-- them gives at the time of a call. A waker sets `poll_next`, and may do so on another thread.
pub mod Fifo
pub mod Lost
pub mod Wakeups
use polkadot_p2p_connect.Prelude.{
  ℕ, Bool, true, false, if◌then◌else◌, ◌==◌, List, [], ◌∷◌, ◌++◌, Option, none, some, length,
}

pub record Timers {ℓ κ} (T : Type ℓ) (Sleep : Type κ) : Type (ℓ ⊔ κ) where
  pub poll_next : Bool
  pub timers : List (T × Sleep)

-- What a poll gives. `woken` is that the waker is called before `try_next` stores `poll_next`: on
-- another thread, after the sleep has looked whether it is over.
pub data Poll : Type 0 where
  ready : Poll
  pending : (woken : Bool) → Poll

module _ {ℓ κ} {T : Type ℓ} {Sleep : Type κ} where
  abbrev pub new : Timers T Sleep
  new = record { poll_next = false; timers = [] }

  unfoldable pub add : T → Sleep → Timers T Sleep → Timers T Sleep
  add item fut t =
      let timers = t.timers ++ (item, fut) ∷ [] in
      record { poll_next = if length timers == 1 then true else t.poll_next; timers = timers }

  -- `PollWaker::wake`
  abbrev pub wake : Timers T Sleep → Timers T Sleep
  wake t = record t { poll_next = true }

  -- The end of `try_next` for a sleep that is not ready: `poll_next` is stored after the poll.
  unfoldable pub put_back : T → Sleep → Timers T Sleep → Timers T Sleep × Option T
  put_back item fut t = (record { poll_next = false; timers = (item, fut) ∷ t.timers }, none)

  -- A timer is taken out to be polled. A ready one is left out; one that is not comes back in front,
  -- after its waker has been called if that happens meanwhile.
  unfoldable pub poll_front :
      (Sleep → Poll) → List (T × Sleep) → Timers T Sleep → Timers T Sleep × Option T
  unfolding put_back
  poll_front poll [] t = (t, none)
  poll_front poll ((item, fut) ∷ rest) t =
      let popped = record t { timers = rest } in
      elim (poll fut) [
        | ready ↦ (popped, some item)
        | pending woken ↦ put_back item fut (if woken then wake popped else popped)
      ]

  unfoldable pub try_next : (Sleep → Poll) → Timers T Sleep → Timers T Sleep × Option T
  unfolding poll_front
  try_next poll t = if t.poll_next then poll_front poll t.timers t else (t, none)
