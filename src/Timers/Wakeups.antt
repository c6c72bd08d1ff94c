-- ===== src/Timers/Wakeups.antt =====
-- Which timers `try_next` waits for: a waker is registered with the sleep of the first one, unless its
-- call has been lost.
use polkadot_p2p_connect.Prelude.{
  ℕ, ◌≡◌, refl, subst, arith, inl, inr, Bool, true, false, Bool-cases, not, ◌&&◌, if◌then◌else◌,
  ◌==◌, ==_refl, List, [], ◌∷◌, ◌++◌, some, length,
}
use polkadot_p2p_connect.Timers.{
  Poll, ready, pending, Timers, new, add, wake, put_back, poll_front, try_next,
}

-- The platform's sleeps, by number: which are over, and with which a waker of `try_next` is registered.
pub record World : Type 0 where
  pub over : ℕ → Bool
  pub registered : ℕ → Bool

abbrev update : ℕ → (ℕ → Bool) → ℕ → Bool
update fut f n = if n == fut then true else f n

-- What polling the sleeps gives, with whether a waker is called before `try_next` stores `poll_next`.
abbrev pub polled : Bool → World → ℕ → Poll
polled woken w fut = if w.over fut then ready else pending woken

module _ {ℓ} (T : Type ℓ) where
  -- `poll` on a sleep that is not over registers the waker.
  abbrev pub watch : List (T × ℕ) → World → World
  watch [] w = w
  watch ((item, fut) ∷ rest) w =
      if w.over fut then w else record w { registered = update fut w.registered }

  abbrev pub watch_front : Timers T ℕ → World → World
  watch_front t w = if t.poll_next then watch t.timers w else w

  pub record System : Type ℓ where
    pub timers : Timers T ℕ
    pub world : World

  -- `try_next` polls the first sleep and finds it not over.
  abbrev pub polls_pending : System → Bool
  polls_pending s =
      s.timers.poll_next
      && elim s.timers.timers [ [] ↦ false | (item, fut) ∷ _ ↦ not (s.world.over fut) ]

  abbrev pub end_sleep : ℕ → World → World
  end_sleep fut w = record w { over = update fut w.over }

  -- A call of `try_next`, and one inside of which the sleep `fut` ends: behind the poll, so that the
  -- waker is called when it is registered, and before the store.
  abbrev pub tried : System → System
  tried s = record {
    timers = (try_next (polled false s.world) s.timers).0;
    world = watch_front s.timers s.world;
  }

  abbrev pub tried_while_ends : ℕ → System → System
  tried_while_ends fut s =
      let watched = watch_front s.timers s.world in
      record {
        timers = (try_next (polled (watched.registered fut) s.world) s.timers).0;
        world = end_sleep fut watched;
      }

  -- The steps: the calls, and the end of a sleep, which calls the waker that is registered with it. A
  -- sleep can end between two calls, or inside of one that polls.
  pub data Step (s : System) : System → Type ℓ where
    adds : (item : T) (fut : ℕ) → Step s (record s { timers = add item fut s.timers })
    tries : Step s (tried s)
    ends :
        (fut : ℕ)
        → Step s (record {
          timers = if s.world.registered fut then wake s.timers else s.timers;
          world = end_sleep fut s.world;
        })
    tries_while_ends : (fut : ℕ) → polls_pending s ≡ true → Step s (tried_while_ends fut s)

  pub data Reachable : System → Type ℓ where
    start : (w : World) → Reachable (record { timers = new; world = w })
    next : {s s' : System} → Reachable s → Step s s' → Reachable s'

  abbrev pub ends_inside : {s s' : System} → Step s s' → Bool
  ends_inside (adds item fut) = false
  ends_inside tries = false
  ends_inside (ends fut) = false
  ends_inside (tries_while_ends fut e) = true

  -- No sleep has ended inside of a call.
  abbrev pub undisturbed : {s : System} → Reachable s → Bool
  undisturbed (start w) = true
  undisturbed (next r st) = undisturbed r && not (ends_inside st)

  abbrev Watched : List (T × ℕ) → World → Type 0
  Watched [] w = Unit
  Watched ((item, fut) ∷ rest) w = (w.over fut ≡ false) × (w.registered fut ≡ true)

  abbrev Inv : System → Type 0
  Inv s = s.timers.poll_next ≡ false → Watched s.timers.timers s.world

  add-Inv :
      (item : T) (fut : ℕ) (t : List (T × ℕ)) (polls : Bool) (w : World)
      → (polls ≡ false → Watched t w)
      → (if length (t ++ (item, fut) ∷ []) == 1 then true else polls) ≡ false
      → Watched (t ++ (item, fut) ∷ []) w
  add-Inv item fut [] polls w v h = cc
  add-Inv item fut ((i, f) ∷ t) polls w v h = v (ground arith)

  try-Inv :
      (t : List (T × ℕ)) (s : Timers T ℕ) (w : World)
      → t ≡ s.timers
      → (poll_front (polled false w) t s).0.poll_next ≡ false
      → s.poll_next ≡ true
      → Watched (poll_front (polled false w) t s).0.timers (watch t w)
  unfolding poll_front put_back
  try-Inv [] s w e h p = ground arith
  try-Inv ((i, f) ∷ t) s w e h p = elim (Bool-cases (w.over f)) [
    | inl done ↦ absurd (ground arith)
    | inr runs ↦ rw (← e) (rw (runs, poll_front) (runs, rw (==_refl f) refl))
  ]

  end-Inv :
      (fut : ℕ) (t : List (T × ℕ)) (polls : Bool) (w : World)
      → w.registered fut ≡ false
      → Watched t w
      → Watched t (record w { over = update fut w.over })
  end-Inv fut [] polls w r v = tt
  end-Inv fut ((i, f) ∷ t) polls w r v = ground arith

  polled-Inv :
      (s : System)
      → s.timers.poll_next ≡ true
      → (try_next (polled false s.world) s.timers).0.poll_next ≡ false
      → Watched (try_next (polled false s.world) s.timers).0.timers (watch_front s.timers s.world)
  unfolding try_next
  polled-Inv s polls h = ground (arith, try-Inv s.timers.timers s.timers s.world refl)

  Step-Watched : {s s' : System} (st : Step s s') → ends_inside st ≡ false → Inv s → Inv s'
  unfolding add try_next
  Step-Watched {s} (adds item fut) o v h =
      add-Inv item fut s.timers.timers s.timers.poll_next s.world v h
  Step-Watched {s} tries o v h = elim (Bool-cases s.timers.poll_next) [
    | inl polls ↦ polled-Inv s polls h
    | inr sleeps ↦ rw sleeps (v sleeps)
  ]
  Step-Watched {s} (tries_while_ends fut e) o v h = cc
  Step-Watched {s} (ends fut) o v h = elim (Bool-cases (s.world.registered fut)) [
    | inl woken ↦ absurd (ground arith)
    | inr silent ↦
        rw silent (end-Inv fut s.timers.timers s.timers.poll_next s.world silent (v (ground arith)))
  ]

  Reachable-Watched : {s : System} (r : Reachable s) → undisturbed r ≡ true → Inv s
  Reachable-Watched (start w) u h = tt
  Reachable-Watched (next r st) u h =
      Step-Watched st (ground arith) (Reachable-Watched r (ground arith)) h

  awake :
      (item : T) (fut : ℕ) (rest : List (T × ℕ)) (w : World)
      → Watched ((item, fut) ∷ rest) w
      → ¬ (w.over fut ≡ true)
  awake item fut rest w v over = cc

  -- In every state that calls and the ends of sleeps can lead to, provided that no sleep has ended
  -- inside of a `try_next`, between its poll and its store of `poll_next`: when the sleep of the first
  -- timer is over, the next call of `try_next` returns its item.
  pub try_next-over :
      (s : System) (item : T) (fut : ℕ) (rest : List (T × ℕ)) (r : Reachable s)
      → undisturbed r ≡ true
      → s.timers.timers ≡ (item, fut) ∷ rest
      → s.world.over fut ≡ true
      → try_next (polled false s.world) s.timers
        ≡ (record { poll_next = true; timers = rest }, some item)
  unfolding try_next poll_front
  try_next-over s item fut rest r u e over = elim (Bool-cases s.timers.poll_next) [
    | inl polls ↦ rw (polls, e) (rw (over, poll_front) refl)
    | inr sleeps ↦ absurd (
        awake item fut rest s.world
          (subst (λ t. Watched t s.world) e (Reachable-Watched r u sleeps)) over)
  ]
