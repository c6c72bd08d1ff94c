-- ===== src/Yamux/Queues.antt =====
-- The queue of messages of a stream: what `send_data` puts into it, and for which stream.
use polkadot_p2p_connect.Prelude.{
  ℕ, ◌≡◌, ◌≢◌, refl, sym, ap, ◌∙◌, arith, inl, inr, List, [], ◌∷◌, ◌++◌, append_assoc, append-nil,
  some, Option-cases,
}
use mathlib.Core.Option
use polkadot_p2p_connect.Prelude.Maps.{get, insert, get-insert}
use polkadot_p2p_connect.Yamux.State.{
  SharedState, StreamState, flush_writes, Result, Message, accept_it, open_it, close_it, reset_it,
  payload, window_update, ok,
}
use polkadot_p2p_connect.Yamux.Api.{put, queue_data, send_data}

-- The data of a queue, in the order of the queue. A turn that finds the peer's window used up can
-- still change that order.
unfoldable pub pending : List Message → List ℕ
pending [] = []
pending (payload bytes ∷ ms) = bytes ++ pending ms
pending (accept_it ∷ ms) = pending ms
pending (open_it ∷ ms) = pending ms
pending (close_it ∷ ms) = pending ms
pending (reset_it ∷ ms) = pending ms
pending (window_update n ∷ ms) = pending ms

pending-cons : (m : Message) (ms : List Message) → pending (m ∷ ms) ≡ pending (m ∷ []) ++ pending ms
unfolding pending
pending-cons (payload bytes) ms = rw append-nil refl
pending-cons accept_it ms = refl
pending-cons open_it ms = refl
pending-cons close_it ms = refl
pending-cons reset_it ms = refl
pending-cons (window_update n) ms = refl

-- The clauses of `queue_data` on a queue of two or more messages are one.
queue_data-more :
    (m m' : Message) (ms : List Message) (bytes : List ℕ)
    → queue_data (m ∷ m' ∷ ms) bytes ≡ Option.map (◌∷◌ m) (queue_data (m' ∷ ms) bytes)
unfolding queue_data
queue_data-more (payload old) m' ms bytes = refl
queue_data-more accept_it m' ms bytes = refl
queue_data-more open_it m' ms bytes = refl
queue_data-more close_it m' ms bytes = refl
queue_data-more reset_it m' ms bytes = refl
queue_data-more (window_update n) m' ms bytes = refl

-- The queue of one message.
queue_data-one :
    (m : Message) (q' : List Message) (bytes : List ℕ)
    → queue_data (m ∷ []) bytes ≡ some q'
    → pending q' ≡ pending (m ∷ []) ++ bytes
unfolding queue_data pending
queue_data-one (payload old) q' bytes e = ground (arith, append-nil (old ++ bytes), append-nil old)
queue_data-one accept_it q' bytes e = ground (arith, append-nil bytes)
queue_data-one open_it q' bytes e = ground (arith, append-nil bytes)
queue_data-one (window_update n) q' bytes e = ground (arith, append-nil bytes)
queue_data-one close_it q' bytes e = ground arith
queue_data-one reset_it q' bytes e = ground arith

queue_data-pending :
    (q q' : List Message) (bytes : List ℕ)
    → queue_data q bytes ≡ some q'
    → pending q' ≡ pending q ++ bytes
queue_data-pending [] q' bytes e = unfold queue_data pending in ground (arith, append-nil bytes)
queue_data-pending (m ∷ []) q' bytes e = queue_data-one m q' bytes e
queue_data-pending (m ∷ m' ∷ ms) q' bytes e = elim (Option-cases (queue_data (m' ∷ ms) bytes)) [
  | inl refused ↦ absurd (ground (arith, queue_data-more m m' ms bytes))
  | inr (q'', queued) ↦
      let e' : m ∷ q'' ≡ q' = ground (arith, queue_data-more m m' ms bytes) in
      rw
        (
          ← e',
          pending-cons m q'',
          pending-cons m (m' ∷ ms),
          queue_data-pending (m' ∷ ms) q'' bytes queued,
          append_assoc,
        )
        refl
]

pub send_data-queued :
    (id : ℕ) (bytes : List ℕ) (st : SharedState) (s : StreamState) (q : List Message)
    → get id st.streams ≡ some s
    → queue_data s.outbound_buf bytes ≡ some q
    → send_data id bytes st ≡ (flush_writes (put id (record s { outbound_buf = q }) st), ok tt)
unfolding send_data
send_data-queued id bytes st s q found queued = rw (found, queued, send_data) refl

-- `send_data` on a stream that takes it puts the bytes behind all the data in the stream's queue,
-- and leaves every other stream as it was.
pub send_data-pending :
    (id : ℕ) (bytes : List ℕ) (st st' : SharedState)
    → send_data id bytes st ≡ (st', ok tt)
    → (s : StreamState) × (s' : StreamState) × (get id st.streams ≡ some s)
      × (get id st'.streams ≡ some s')
      × (pending s'.outbound_buf ≡ pending s.outbound_buf ++ bytes)
      × ((other : ℕ) → other ≢ id → get other st'.streams ≡ get other st.streams)
unfolding send_data
send_data-pending id bytes st st' e = elim (Option-cases (get id st.streams)) [
  | inl absent ↦ absurd (ground arith)
  | inr (s, found) ↦ elim (Option-cases (queue_data s.outbound_buf bytes)) [
    | inl refused ↦ absurd (ground arith)
    | inr (q, queued) ↦
        let streams : insert id (record s { outbound_buf = q }) st.streams ≡ st'.streams =
          ap (λ (r : SharedState × Result (Unit {0})). r.0.streams)
            (sym (send_data-queued id bytes st s q found queued) ∙ e) in
        (
          s,
          record s { outbound_buf = q },
          found,
          rw (← streams)
              (ground (arith, get-insert id id (record s { outbound_buf = q }) st.streams)),
          queue_data-pending s.outbound_buf q bytes queued,
          λ other h.
              rw (← streams)
                (ground (arith, get-insert other id (record s { outbound_buf = q }) st.streams)),
        )
  ]
]
