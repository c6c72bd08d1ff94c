-- ===== src/Timers/Fifo.antt =====
-- The timers as a queue: items come out in the order in which they went in.
use polkadot_p2p_connect.Prelude.{
  ◌≡◌, refl, sym, ap, ◌∙◌, arith, List, [], ◌∷◌, ◌++◌, map, append_assoc, append-nil, Option, none,
  some,
}
use mathlib.Core.List.{map-append}
use polkadot_p2p_connect.Timers.{Poll, Timers, put_back, add, wake, poll_front, try_next}

-- What happens to a set of timers; `tries` has what a poll gives then.
pub data Event {ℓ κ} (T : Type ℓ) (Sleep : Type κ) : Type (ℓ ⊔ κ) where
  adds : T → Sleep → Event T Sleep
  wakes : Event T Sleep
  tries : (Sleep → Poll) → Event T Sleep

-- The items that a `try_next` returned.
abbrev pub returned {ℓ} : {T : Type ℓ} → Option T → List T
returned none = []
returned (some item) = item ∷ []

module _ {ℓ κ} {T : Type ℓ} {Sleep : Type κ} where
  abbrev pub items : Timers T Sleep → List T
  items t = map (λ p. p.0) t.timers

  unfoldable pub run : List (Event T Sleep) → Timers T Sleep → Timers T Sleep × List T
  run [] t = (t, [])
  run (adds item fut ∷ es) t = run es (add item fut t)
  run (wakes ∷ es) t = run es (wake t)
  run (tries poll ∷ es) t =
      let (t', out) = try_next poll t in let (t'', outs) = run es t' in (t'', returned out ++ outs)

  -- The items that were added.
  abbrev pub added : List (Event T Sleep) → List T
  added [] = []
  added (adds item fut ∷ es) = item ∷ added es
  added (wakes ∷ es) = added es
  added (tries poll ∷ es) = added es

  items-poll_front :
      (poll : Sleep → Poll) (waiting : List (T × Sleep)) (t : Timers T Sleep)
      → waiting ≡ t.timers
      → returned (poll_front poll waiting t).1 ++ items (poll_front poll waiting t).0 ≡ items t
  unfolding poll_front put_back
  items-poll_front poll [] t e = refl
  items-poll_front poll ((item, fut) ∷ rest) t e = rw (← e) (ground arith)

  items-try_next :
      (poll : Sleep → Poll) (t : Timers T Sleep)
      → returned (try_next poll t).1 ++ items (try_next poll t).0 ≡ items t
  unfolding try_next
  items-try_next poll t = ground (arith, items-poll_front poll t.timers t refl)

  -- Over any sequence of additions, wakes and calls of `try_next`, the items returned and then the
  -- items that still wait are the items that waited at first and then those that were added, in order.
  pub run_fifo :
      (es : List (Event T Sleep)) (t : Timers T Sleep)
      → (run es t).1 ++ items (run es t).0 ≡ items t ++ added es
  unfolding run add
  run_fifo [] t = sym (append-nil (items t))
  run_fifo (adds item fut ∷ es) t =
      run_fifo es (add item fut t) ∙ rw (map-append) (append_assoc (items t) (item ∷ []) (added es))
  run_fifo (wakes ∷ es) t = run_fifo es (wake t)
  run_fifo (tries poll ∷ es) t =
      let (t', out) = try_next poll t in
      append_assoc (returned out) (run es t').1 (items (run es t').0)
      ∙ ap (λ rest. returned out ++ rest) (run_fifo es t')
      ∙ sym (append_assoc (returned out) (items t') (added es))
      ∙ ap (λ front. front ++ added es) (items-try_next poll t)
