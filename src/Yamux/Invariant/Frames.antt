-- ===== src/Yamux/Invariant/Frames.antt =====
-- The frames of the peer keep the streams sound.
use polkadot_p2p_connect.Prelude.{
  ℕ, ◌+◌, ◌-◌, ◌/◌, ◌%◌, ◌^◌, ◌≤◌, ◌<◌, ◌≡◌, ◌≢◌, refl, inl, inr, arith, Bool, Bool-cases, ltb,
  List, [], ◌∷◌, Option-cases, All, All-append,
}
use polkadot_p2p_connect.Prelude.Maps.{get, remove-Entries}
use polkadot_p2p_connect.Yamux.Header.{Header, FrameType, contains, fin, rst}
use polkadot_p2p_connect.Yamux.State.{
  SharedState, StreamState, new_stream, OpenState, open_both, fin_by_us, fin_by_them, reset,
  Message, accept_it, window_update, max_frame_size, set_fin_by_them, push_back, flush_writes,
}
use polkadot_p2p_connect.Yamux.Read.{
  Located, refused, ignored, located, negotiate_new_stream_request, locate, account_data, emit_data,
  data_on, data_found, window_found, handle_data, window_on, handle_window_update, handle_ping,
  handle_go_away, handle_frame, saturating_add,
}
use polkadot_p2p_connect.Yamux.Invariant.{Granted, Fits, IsSound, Sound}
use polkadot_p2p_connect.Yamux.Invariant.Calls.{
  get-Sound, put-Sound, reset_stream_immediately-Sound,
}

module _ (next : ℕ) where
  -- What `locate` found is a sound stream of the map that it leaves.
  abbrev LocatedSound : ℕ → SharedState × Located → Type 0
  LocatedSound id (st, refused e) = Sound next st.streams
  LocatedSound id (st, ignored) = Sound next st.streams
  LocatedSound id (st, located s is_new) = Sound next st.streams × IsSound next id s

  accepted-IsSound :
      (id : ℕ) → id % 2 ≡ 0 → id ≢ 0 → IsSound next id (push_back new_stream accept_it)
  accepted-IsSound id even ne = record {
    bounded = omega arith;
    granted = omega arith;
    sendable = omega arith;
    updates_fit = (tt, tt);
    ours_below = λ odd. absurd (omega arith);
    no_session_id = ne;
  }

  negotiate-Sound :
      (hdr : Header) (st : SharedState)
      → Sound next st.streams
      → LocatedSound hdr.stream_id (negotiate_new_stream_request hdr st)
  unfolding negotiate_new_stream_request
  negotiate-Sound hdr st v = elim (Option-cases (get hdr.stream_id st.streams)) [
    | inr (s, e) ↦ ground arith
    | inl e ↦ ground (
      arith,
      accepted-IsSound hdr.stream_id,
      put-Sound next hdr.stream_id (push_back new_stream accept_it) st,
    )
  ]

  locate-Sound :
      (hdr : Header) (st : SharedState)
      → Sound next st.streams
      → LocatedSound hdr.stream_id (locate hdr st)
  unfolding locate
  locate-Sound hdr st v = elim (Option-cases (get hdr.stream_id st.streams)) [
    | inl e ↦ ground (arith, negotiate-Sound hdr st v)
    | inr (s, e) ↦ ground (arith, negotiate-Sound hdr st v, get-Sound next hdr.stream_id st v e)
  ]

half-Granted : (o : OpenState) (n : ℕ) → max_frame_size / 2 ≤ n → Granted o n
half-Granted open_both n h = h
half-Granted fin_by_us n h = h
half-Granted fin_by_them n h = tt
half-Granted reset n h = tt

set_fin_by_them-Granted : (o : OpenState) (n : ℕ) → Granted (set_fin_by_them o) n
set_fin_by_them-Granted open_both n = tt
set_fin_by_them-Granted fin_by_us n = tt
set_fin_by_them-Granted fin_by_them n = tt
set_fin_by_them-Granted reset n = tt

module _ (next : ℕ) (hdr : Header) (st : SharedState) (s : StreamState) (v : Sound next st.streams)
    (h : IsSound next hdr.stream_id s) where
  abbrev id : ℕ
  id = hdr.stream_id

  -- The stream with other windows, another state and another queue.
  changed-IsSound :
      (send recv : ℕ) (o : OpenState) (queue : List Message)
      → send < 2 ^ 64
      → recv ≤ max_frame_size
      → Granted o recv
      → All Fits queue
      → IsSound next id
          (record { send_window = send; recv_window = recv; open_state = o; outbound_buf = queue })
  changed-IsSound send recv o queue hs hr g f = record {
    bounded = hr;
    granted = g;
    sendable = hs;
    updates_fit = f;
    ours_below = h.ours_below;
    no_session_id = h.no_session_id;
  }

  account_data-Sound : (data_len : ℕ) → Sound next (account_data hdr data_len s st).streams
  unfolding account_data
  account_data-Sound data_len = elim (Bool-cases (contains hdr.flags rst)) [
    | inl is_rst ↦ rw (is_rst, account_data) (remove-Entries (IsSound next) id st.streams v)
    | inr not_rst ↦ elim (Bool-cases (contains hdr.flags fin)) [
      | inl is_fin ↦ rw (not_rst, is_fin, account_data) (put-Sound next id _ st final v)
      | inr not_fin ↦ elim (Bool-cases (ltb left (max_frame_size / 2))) [
        | inl low ↦ rw (not_rst, not_fin, low, account_data) (put-Sound next id _ st refilled v)
        | inr high ↦
            rw (not_rst, not_fin, high, account_data)
              (put-Sound next id _ st (reduced (ground arith)) v)
      ]
    ]
  ]
    where
      left : ℕ
      left = s.recv_window - data_len

      smaller : left ≤ max_frame_size
      smaller = omega (arith, h.bounded)

      final : IsSound next id (record s { recv_window = left; open_state = fin_by_them })
      final =
          changed-IsSound s.send_window left fin_by_them s.outbound_buf h.sendable smaller tt
            h.updates_fit

      refilled : IsSound next id (
          push_back
            (record s { recv_window = left + (max_frame_size - left) })
            (window_update (max_frame_size - left)))
      refilled =
          changed-IsSound s.send_window _ s.open_state _ h.sendable (omega (arith, smaller))
            (half-Granted s.open_state _ (omega (arith, smaller)))
            (All-append Fits s.outbound_buf (window_update (max_frame_size - left) ∷ [])
              h.updates_fit (omega arith, tt))

      reduced : max_frame_size / 2 ≤ left → IsSound next id (record s { recv_window = left })
      reduced enough =
          changed-IsSound s.send_window left s.open_state s.outbound_buf h.sendable smaller
            (half-Granted s.open_state left enough) h.updates_fit

  emit_data-streams :
      (data_len : ℕ) (is_new : Bool) (st' : SharedState)
      → (emit_data id data_len is_new st').0.streams ≡ st'.streams
  unfolding emit_data
  emit_data-streams data_len is_new st' = ground arith

  data_on-Sound :
      (data_len : ℕ) (is_new : Bool) (o : OpenState)
      → Sound next (data_on hdr data_len is_new s o st).0.streams
  unfolding data_on
  data_on-Sound data_len is_new fin_by_them = v
  data_on-Sound data_len is_new reset = v
  data_on-Sound data_len is_new open_both =
      rw (emit_data-streams data_len is_new (account_data hdr data_len s st))
        (account_data-Sound data_len)
  data_on-Sound data_len is_new fin_by_us =
      rw (emit_data-streams data_len is_new (account_data hdr data_len s st))
        (account_data-Sound data_len)

  window_on-Sound :
      (is_new : Bool) (o : OpenState)
      → s.open_state ≡ o
      → Sound next (window_on hdr is_new s o st).0.streams
  unfolding window_on
  window_on-Sound is_new reset e = v
  window_on-Sound is_new o e = elim (Bool-cases (contains hdr.flags rst)) [
    | inl is_rst ↦ rw (is_rst, window_on) (remove-Entries (IsSound next) id st.streams v)
    | inr not_rst ↦ elim (Bool-cases (contains hdr.flags fin)) [
      | inl is_fin ↦
          rw (not_rst, is_fin, window_on)
            (put-Sound next id _ st
              (changed-IsSound grown s.recv_window _ s.outbound_buf small h.bounded
                (set_fin_by_them-Granted o s.recv_window) h.updates_fit)
              v)
      | inr not_fin ↦
          rw (not_rst, not_fin, window_on)
            (put-Sound next id _ st
              (changed-IsSound grown s.recv_window s.open_state s.outbound_buf small h.bounded
                h.granted h.updates_fit)
              v)
    ]
  ]
    where
      grown : ℕ
      grown = saturating_add s.send_window hdr.length

      small : grown < 2 ^ 64
      small = omega arith

data_found-Sound :
    (next : ℕ) (hdr : Header) (p : SharedState × Located)
    → LocatedSound next hdr.stream_id p
    → Sound next (data_found hdr p).0.streams
unfolding data_found
data_found-Sound next hdr (st, refused e) v = v
data_found-Sound next hdr (st, ignored) v = v
data_found-Sound next hdr (st, located s is_new) v =
    data_on-Sound next hdr st s v.0 v.1 hdr.length is_new s.open_state

window_found-Sound :
    (next : ℕ) (hdr : Header) (p : SharedState × Located)
    → LocatedSound next hdr.stream_id p
    → Sound next (window_found hdr p).0.streams
unfolding window_found
window_found-Sound next hdr (st, refused e) v = v
window_found-Sound next hdr (st, ignored) v = v
window_found-Sound next hdr (st, located s is_new) v =
    window_on-Sound next hdr st s v.0 v.1 is_new s.open_state refl

module _ (next : ℕ) (hdr : Header) (st : SharedState) (v : Sound next st.streams) where
  handle_data-Sound : Sound next (handle_data hdr st).0.streams
  unfolding handle_data
  handle_data-Sound = data_found-Sound next hdr (locate hdr st) (locate-Sound next hdr st v)

  handle_window_update-Sound : Sound next (handle_window_update hdr st).0.streams
  unfolding handle_window_update
  handle_window_update-Sound =
      window_found-Sound next hdr (locate hdr (flush_writes st))
        (locate-Sound next hdr (flush_writes st) v)

  handle_ping-Sound : Sound next (handle_ping hdr st).0.streams
  unfolding handle_ping
  handle_ping-Sound = ground (arith, reset_stream_immediately-Sound next hdr.stream_id st v)

  handle_go_away-Sound : Sound next (handle_go_away hdr st).0.streams
  unfolding handle_go_away
  handle_go_away-Sound = ground (arith, reset_stream_immediately-Sound next hdr.stream_id st v)

  pub handle_frame-Sound : (t : FrameType) → Sound next (handle_frame t hdr st).0.streams
  unfolding handle_frame
  handle_frame-Sound FrameType.payload = handle_data-Sound
  handle_frame-Sound FrameType.window_update = handle_window_update-Sound
  handle_frame-Sound FrameType.ping = handle_ping-Sound
  handle_frame-Sound FrameType.go_away = handle_go_away-Sound
