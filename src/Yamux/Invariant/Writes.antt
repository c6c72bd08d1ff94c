-- ===== src/Yamux/Invariant/Writes.antt =====
-- The write future keeps the streams sound.
use polkadot_p2p_connect.Prelude.{
  ℕ, ◌-◌, ◌^◌, ◌≡◌, arith, List, [], ◌∷◌, ◌++◌, some, Option-cases, All, All-append, inl, inr, zero,
  suc, length, drop,
}
use polkadot_p2p_connect.Prelude.Maps.{Map, remove, remove-Entries}
use polkadot_p2p_connect.Yamux.State.{SharedState, StreamState, Message, close_it, payload}
use polkadot_p2p_connect.Yamux.Write.{
  Layout, write_payload, write_message, write_queue, write_stream, Gathered, write_pass,
  write_passes, gather, nothing_yet, remove_all, bytes_to_send,
}
use polkadot_p2p_connect.Yamux.Invariant.{Fits, IsSound, Sound}
use polkadot_p2p_connect.Yamux.Invariant.Calls.{
  set_fin_by_us-Granted, requeue-IsSound, reopen-IsSound,
}

module _ (l : Layout) (next id : ℕ) (s : StreamState) (h : IsSound next id s) where
  -- The stream with less of the peer's window, and another queue.
  spent-IsSound :
      (n : ℕ) (queue : List Message)
      → All Fits queue
      → IsSound next id (record s { send_window = s.send_window - n; outbound_buf = queue })
  spent-IsSound n queue f = record {
    bounded = h.bounded;
    granted = h.granted;
    sendable = omega (arith, h.sendable);
    updates_fit = f;
    ours_below = h.ours_below;
    no_session_id = h.no_session_id;
  }

  write_payload-IsSound :
      (outbound : List ℕ) (rest : List Message)
      → All Fits rest
      → IsSound next id (write_payload l id outbound rest s).stream
  unfolding write_payload
  write_payload-IsSound outbound rest f = ground (
    arith,
    requeue-IsSound next id s (rest ++ payload outbound ∷ []) h
        (All-append Fits rest (payload outbound ∷ []) f (tt, tt)),
    spent-IsSound (bytes_to_send outbound s) rest f,
    spent-IsSound (bytes_to_send outbound s)
        (payload (drop (bytes_to_send outbound s) outbound) ∷ rest) (tt, f),
  )

  write_message-IsSound :
      (m : Message) (rest : List Message)
      → All Fits rest
      → IsSound next id (write_message l id m rest s).stream
  unfolding write_message
  write_message-IsSound (payload outbound) rest f = write_payload-IsSound outbound rest f
  write_message-IsSound close_it rest f =
      reopen-IsSound next id s _ rest h (set_fin_by_us-Granted s.open_state s.recv_window h.granted)
        f
  write_message-IsSound _ rest f = requeue-IsSound next id s rest h f

  write_queue-IsSound :
      (queue : List Message) → All Fits queue → IsSound next id (write_queue l id queue s).stream
  unfolding write_queue
  write_queue-IsSound [] f = h
  write_queue-IsSound (m ∷ rest) f = write_message-IsSound m rest f.1

module _ (l : Layout) (next : ℕ) where
  write_pass-Sound : (m : Map StreamState) → Sound next m → Sound next (write_pass l m).streams
  unfolding write_pass write_stream
  write_pass-Sound [] v = tt
  write_pass-Sound ((id, s) ∷ m) v =
      (write_queue-IsSound l next id s v.0 s.outbound_buf v.0.updates_fit, write_pass-Sound m v.1)

  write_passes-Sound :
      (rounds old_len : ℕ) (g g' : Gathered)
      → write_passes l rounds old_len g ≡ some g'
      → Sound next g.streams
      → Sound next g'.streams
  unfolding write_passes
  write_passes-Sound zero old_len g g' e v = cc
  write_passes-Sound (suc rounds) old_len g g' e v = ground (
    arith,
    write_passes-Sound rounds (length g.bytes)
        (record {
          bytes = g.bytes ++ (write_pass l g.streams).bytes;
          streams = (write_pass l g.streams).streams;
          to_remove = g.to_remove ++ (write_pass l g.streams).to_remove;
        })
        g',
    write_pass-Sound g.streams v,
  )

remove_all-Sound :
    (next : ℕ) (ids : List ℕ) (m : Map StreamState) → Sound next m → Sound next (remove_all ids m)
unfolding remove_all
remove_all-Sound next [] m v = v
remove_all-Sound next (id ∷ ids) m v =
    remove_all-Sound next ids (remove id m) (remove-Entries (IsSound next) id m v)

pub gather-Sound :
    (l : Layout) (next rounds : ℕ) (st st' : SharedState) (bytes : List ℕ)
    → gather l rounds st ≡ some (st', bytes)
    → Sound next st.streams
    → Sound next st'.streams
unfolding gather
gather-Sound l next rounds st st' bytes e v =
    elim (Option-cases (write_passes l rounds (2 ^ 64 - 1) (nothing_yet st))) [
      | inl none_left ↦ ground arith
      | inr (g, p) ↦
          let sound =
            remove_all-Sound next g.to_remove g.streams
              (write_passes-Sound l next rounds (2 ^ 64 - 1) (nothing_yet st) g p v) in
          let streams : st'.streams ≡ remove_all g.to_remove g.streams = ground arith in
          rw streams sound
    ]
