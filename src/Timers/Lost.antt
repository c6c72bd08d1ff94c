-- ===== src/Timers/Lost.antt =====
-- A waker that is called between the poll and the store of `poll_next` is lost.
use polkadot_p2p_connect.Prelude.{
  ℕ, ◌≡◌, refl, arith, ==_refl, ◌++◌, length-append, true, false, List, [], ◌∷◌, none,
}
use polkadot_p2p_connect.Timers.{add, put_back, poll_front, try_next}
use polkadot_p2p_connect.Timers.Wakeups.{System, tried, tried_while_ends, polled}

module _ {ℓ} {T : Type ℓ} where
  -- What additions and calls of `try_next` lead to, as long as no sleep ends.
  pub data Calls (s : System T) : System T → Type ℓ where
    none_yet : Calls s s
    adds :
        {s' : System T} (item : T) (fut : ℕ)
        → Calls s s'
        → Calls s (record s' { timers = add item fut s'.timers })
    tries : {s' : System T} → Calls s s' → Calls s (tried T s')

  -- The first timer is over, and is not polled.
  record Stuck (fut : ℕ) (s : System T) : Type ℓ where
    item : T
    rest : List (T × ℕ)
    front : s.timers.timers ≡ (item, fut) ∷ rest
    sleeps : s.timers.poll_next ≡ false
    over : s.world.over fut ≡ true

  add-Stuck :
      (fut f : ℕ) (i : T) (s : System T)
      → Stuck fut s
      → Stuck fut (record s { timers = add i f s.timers })
  unfolding add
  add-Stuck fut f i s v = record {
    item = v.item;
    rest = v.rest ++ (i, f) ∷ [];
    front = rw v.front refl;
    sleeps = rw (v.front, v.sleeps) (ground (arith, length-append v.rest ((i, f) ∷ [])));
    over = v.over;
  }

  tried-Stuck : (fut : ℕ) (s : System T) → Stuck fut s → Stuck fut (tried T s)
  unfolding try_next
  tried-Stuck fut s v = record {
    item = v.item;
    rest = v.rest;
    front = rw (v.sleeps) v.front;
    sleeps = rw (v.sleeps) refl;
    over = rw (v.sleeps) v.over;
  }

  Calls-Stuck : {s s' : System T} (fut : ℕ) → Calls s s' → Stuck fut s → Stuck fut s'
  Calls-Stuck fut none_yet v = v
  Calls-Stuck fut (adds {s'} i f c) v = add-Stuck fut f i s' (Calls-Stuck fut c v)
  Calls-Stuck fut (tries {s'} c) v = tried-Stuck fut s' (Calls-Stuck fut c v)

  tried_while_ends-Stuck :
      (item : T) (fut : ℕ) (rest : List (T × ℕ)) (s : System T)
      → s.timers.poll_next ≡ true
      → s.timers.timers ≡ (item, fut) ∷ rest
      → s.world.over fut ≡ false
      → Stuck fut (tried_while_ends T fut s)
  unfolding try_next poll_front put_back
  tried_while_ends-Stuck item fut rest s polls front runs = record {
    item = item;
    rest = rest;
    front = rw (polls, front) (rw (runs, poll_front) (rw (==_refl fut) refl));
    sleeps = rw (polls, front) (rw (runs, poll_front) refl);
    over = rw (==_refl fut) refl;
  }

  -- Let a call of `try_next` poll the first timer, and let its sleep end and call its waker before the
  -- call stores `poll_next`. Then, until another sleep ends, whatever is added and however often
  -- `try_next` is called, the sleep of the first timer is over and yet `try_next` returns nothing.
  pub try_next-lost :
      (item : T) (fut : ℕ) (rest : List (T × ℕ)) (s s' : System T)
      → s.timers.poll_next ≡ true
      → s.timers.timers ≡ (item, fut) ∷ rest
      → s.world.over fut ≡ false
      → Calls (tried_while_ends T fut s) s'
      → (s'.world.over fut ≡ true)
        × (try_next (polled false s'.world) s'.timers ≡ (s'.timers, none))
  unfolding try_next
  try_next-lost item fut rest s s' polls front runs calls =
      let v = Calls-Stuck fut calls (tried_while_ends-Stuck item fut rest s polls front runs) in
      (v.over, rw (v.sleeps, try_next) refl)
