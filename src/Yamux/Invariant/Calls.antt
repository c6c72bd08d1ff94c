-- ===== src/Yamux/Invariant/Calls.antt =====
-- The calls keep the streams sound.
use polkadot_p2p_connect.Prelude.{
  ℕ, ◌+◌, ◌^◌, ◌≤◌, ◌<◌, ◌≡◌, inl, inr, arith, List, [], ◌∷◌, none, some, Option-cases, All,
  All-append,
}
use polkadot_p2p_connect.Prelude.Maps.{Map, get, insert-Entries, get-Entries}
use polkadot_p2p_connect.Yamux.State.{
  Session, SharedState, StreamState, new_stream, OpenState, open_both, fin_by_us, fin_by_them,
  reset, Message, accept_it, open_it, close_it, reset_it, payload, window_update, set_fin_by_us,
  push_back,
}
use polkadot_p2p_connect.Yamux.Api.{
  opened, open_stream, queue_data, send_data, close_stream, close_stream_immediately,
  reset_stream_immediately, entry, put,
}
use polkadot_p2p_connect.Yamux.Invariant.{Granted, Fits, IsSound, Sound, Inv}

module _ (next : ℕ) where
  pub get-Sound :
      (id : ℕ) (st : SharedState) {s : StreamState}
      → Sound next st.streams
      → get id st.streams ≡ some s
      → IsSound next id s
  get-Sound id st {s} v e = get-Entries (IsSound next) id s st.streams v e

  pub put-Sound :
      (id : ℕ) (s : StreamState) (st : SharedState)
      → IsSound next id s
      → Sound next st.streams
      → Sound next (put id s st).streams
  put-Sound id s st h v = insert-Entries (IsSound next) id s st.streams h v

  -- A stream with another queue.
  pub requeue-IsSound :
      (id : ℕ) (s : StreamState) (queue : List Message)
      → IsSound next id s
      → All Fits queue
      → IsSound next id (record s { outbound_buf = queue })
  requeue-IsSound id s queue h f = record {
    bounded = h.bounded;
    granted = h.granted;
    sendable = h.sendable;
    updates_fit = f;
    ours_below = h.ours_below;
    no_session_id = h.no_session_id;
  }

  -- A stream in another state of openness, with another queue.
  pub reopen-IsSound :
      (id : ℕ) (s : StreamState) (o : OpenState) (queue : List Message)
      → IsSound next id s
      → Granted o s.recv_window
      → All Fits queue
      → IsSound next id (record s { open_state = o; outbound_buf = queue })
  reopen-IsSound id s o queue h g f = record {
    bounded = h.bounded;
    granted = g;
    sendable = h.sendable;
    updates_fit = f;
    ours_below = h.ours_below;
    no_session_id = h.no_session_id;
  }

pub queue_data-Fits :
    (queue queue' : List Message) (bytes : List ℕ)
    → queue_data queue bytes ≡ some queue'
    → All Fits queue
    → All Fits queue'
unfolding queue_data
queue_data-Fits [] queue' bytes e f = ground arith
queue_data-Fits (payload old ∷ []) queue' bytes e f = ground arith
queue_data-Fits (accept_it ∷ []) queue' bytes e f = ground arith
queue_data-Fits (open_it ∷ []) queue' bytes e f = ground arith
queue_data-Fits (window_update n ∷ []) queue' bytes e f = ground arith
queue_data-Fits (close_it ∷ []) queue' bytes e f = cc
queue_data-Fits (reset_it ∷ []) queue' bytes e f = cc
queue_data-Fits (m ∷ m' ∷ ms) queue' bytes e f = elim (Option-cases (queue_data (m' ∷ ms) bytes)) [
  | inl none_left ↦ ground arith
  | inr (q, some_left) ↦ ground (arith, queue_data-Fits (m' ∷ ms) q bytes some_left f.1)
]

pub set_fin_by_us-Granted : (o : OpenState) (n : ℕ) → Granted o n → Granted (set_fin_by_us o) n
set_fin_by_us-Granted open_both n g = g
set_fin_by_us-Granted fin_by_us n g = g
set_fin_by_us-Granted fin_by_them n g = tt
set_fin_by_us-Granted reset n g = tt

module _ (next id : ℕ) (st : SharedState) (v : Sound next st.streams) where
  pub send_data-Sound : (bytes : List ℕ) → Sound next (send_data id bytes st).0.streams
  unfolding send_data
  send_data-Sound bytes = elim (Option-cases (get id st.streams)) [
    | inl e ↦ rw (e, send_data) v
    | inr (s, e) ↦
        let h = get-Sound next id st v e in
        elim (Option-cases (queue_data s.outbound_buf bytes)) [
          | inl e' ↦ rw (e, e', send_data) v
          | inr (q, e') ↦
              rw (e, e', send_data)
                (put-Sound next id (record s { outbound_buf = q }) st
                  (requeue-IsSound next id s q h
                    (queue_data-Fits s.outbound_buf q bytes e' h.updates_fit))
                  v)
        ]
  ]

  pub close_stream-Sound : Sound next (close_stream id st).streams
  unfolding close_stream
  close_stream-Sound = elim (Option-cases (get id st.streams)) [
    | inl e ↦ rw (e, close_stream) v
    | inr (s, e) ↦
        let h = get-Sound next id st v e in
        rw (e, close_stream)
          (ground (
            arith,
            put-Sound next id (push_back s close_it) st
                (requeue-IsSound next id s _ h
                  (All-append Fits s.outbound_buf (close_it ∷ []) h.updates_fit (tt, tt)))
                v,
          ))
  ]

  pub close_stream_immediately-Sound : Sound next (close_stream_immediately id st).streams
  unfolding close_stream_immediately
  close_stream_immediately-Sound = elim (Option-cases (get id st.streams)) [
    | inl e ↦ rw (e, close_stream_immediately) v
    | inr (s, e) ↦
        let h = get-Sound next id st v e in
        rw (e, close_stream_immediately)
          (put-Sound next id _ st
            (reopen-IsSound next id s _ (close_it ∷ []) h
              (set_fin_by_us-Granted s.open_state s.recv_window h.granted) (tt, tt))
            v)
  ]

  pub reset_stream_immediately-Sound : Sound next (reset_stream_immediately id st).streams
  unfolding reset_stream_immediately
  reset_stream_immediately-Sound = elim (Option-cases (get id st.streams)) [
    | inl e ↦ rw (e, reset_stream_immediately) v
    | inr (s, e) ↦
        rw (e, reset_stream_immediately)
          (put-Sound next id _ st
            (reopen-IsSound next id s reset (reset_it ∷ []) (get-Sound next id st v e) tt (tt, tt))
            v)
  ]

-- Every stream stays sound when the id for the next stream grows.
Sound-mono : (next next' : ℕ) (m : Map StreamState) → next ≤ next' → Sound next m → Sound next' m
Sound-mono next next' [] h v = tt
Sound-mono next next' ((id, s) ∷ m) h v = (
  record {
    bounded = v.0.bounded;
    granted = v.0.granted;
    sendable = v.0.sendable;
    updates_fit = v.0.updates_fit;
    ours_below = λ odd. omega (arith, v.0.ours_below odd);
    no_session_id = v.0.no_session_id;
  },
  Sound-mono next next' m h v.1,
)

-- No stream has the id that the next stream of ours gets.
pub next-fresh : (s : Session) → Inv s → get s.next_stream_id s.streams ≡ none
next-fresh s v = elim (Option-cases (get s.next_stream_id s.streams)) [
  | inl e ↦ e
  | inr (x, e) ↦ absurd (
      omega (
        arith,
        (get-Sound s.next_stream_id s.next_stream_id s.shared v.streams_sound e).ours_below v.odd,
      ))
]

-- What a call of `open_stream` that does not panic returns.
pub open_stream-some :
    (s s' : Session) (id : ℕ)
    → open_stream s ≡ some (s', id)
    → (s' ≡ opened s (s.next_stream_id + 2))
      × (id ≡ s.next_stream_id)
      × (s.next_stream_id + 2 < 2 ^ 32)
unfolding open_stream
open_stream-some s s' id e = ground arith

opened-Inv : (s : Session) → Inv s → Inv (opened s (s.next_stream_id + 2))
opened-Inv s v = record {
  odd = omega (arith, v.odd);
  streams_sound =
      rw (next-fresh s v, entry)
        (put-Sound (s.next_stream_id + 2) s.next_stream_id (push_back new_stream open_it) s.shared
          (record {
            bounded = omega arith;
            granted = omega arith;
            sendable = omega arith;
            updates_fit = (tt, tt);
            ours_below = λ odd. omega arith;
            no_session_id = omega (arith, v.odd);
          })
          (Sound-mono s.next_stream_id (s.next_stream_id + 2) s.streams (omega arith)
            v.streams_sound));
}

pub open_stream-Inv : (s s' : Session) (id : ℕ) → Inv s → open_stream s ≡ some (s', id) → Inv s'
open_stream-Inv s s' id v e = rw ((open_stream-some s s' id e).0) (opened-Inv s v)
