-- ===== src/Yamux/Next/Finished.antt =====
-- A session that has ended stays ended.
use polkadot_p2p_connect.Prelude.{
  ℕ, ◌≡◌, refl, sym, ap, ◌∙◌, arith, inl, inr, true, false, Bool-cases, Option, none, some,
}
use polkadot_p2p_connect.AsyncStream.{AsyncRead}
use polkadot_p2p_connect.Yamux.State.{Session, Output, Error, Result, err}
use polkadot_p2p_connect.Yamux.Read.{Round, again, emit, session_closed, failed}
use polkadot_p2p_connect.Yamux.Next.{read_next, settle, next}

settle-finished :
    (s s' : Session) (round : Round) (e : Error)
    → settle s round ≡ (s', some (err e))
    → s'.finished ≡ true
unfolding settle
settle-finished s s' again e eq = absurd (ground arith)
settle-finished s s' (emit o) e eq = absurd (ground arith)
settle-finished s s' session_closed e eq = absurd (ground arith)
settle-finished s s' (failed e') e eq =
    sym (ap (λ (r : Session × Option (Result Output)). r.0.finished) eq)

module _ (io : AsyncRead) where
  next-runs :
      (rounds : ℕ) (r : io.Reader) (s : Session)
      → s.finished ≡ false
      → (next io rounds r s).0
        ≡ settle
            (read_next io rounds r (record s { data_len = 0 })).0.0
            (read_next io rounds r (record s { data_len = 0 })).0.1
  unfolding next
  next-runs rounds r s runs = rw (runs, next) refl

  next-over :
      (rounds : ℕ) (r : io.Reader) (s : Session)
      → s.finished ≡ true
      → next io rounds r s ≡ ((record s { data_len = 0 }, none), r)
  unfolding next
  next-over rounds r s over = rw (over, next) refl

  next-finished :
      (rounds : ℕ) (r : io.Reader) (s s' : Session) (e : Error)
      → (next io rounds r s).0 ≡ (s', some (err e))
      → s'.finished ≡ true
  next-finished rounds r s s' e eq = elim (Bool-cases s.finished) [
    | inl over ↦ absurd (ground (arith, next-over rounds r s over))
    | inr runs ↦
        let read = read_next io rounds r (record s { data_len = 0 }) in
        settle-finished read.0.0 s' read.0.1 e (sym (next-runs rounds r s runs) ∙ eq)
  ]

  -- Once `next` has returned an error, every later call returns `None` at once: it reads nothing,
  -- and the session offers no data.
  pub next-after_error :
      (rounds rounds' : ℕ) (r r' : io.Reader) (s s' : Session) (e : Error)
      → (next io rounds r s).0 ≡ (s', some (err e))
      → next io rounds' r' s' ≡ ((record s' { data_len = 0 }, none), r')
  next-after_error rounds rounds' r r' s s' e eq =
      next-over rounds' r' s' (next-finished rounds r s s' e eq)
