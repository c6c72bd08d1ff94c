-- ===== src/Multistreams/Agreement.antt =====
-- What the user accepts is what the remote that proposed it takes for an acceptance.
use polkadot_p2p_connect.Prelude.{
  ℕ, ◌+◌, ◌^◌, ◌<◌, ◌≡◌, refl, sym, ap, ◌∙◌, arith, Bool, true, bytes_eq_refl, map, List, [], ◌∷◌,
  ◌++◌, none, some, length, length-append,
}
use polkadot_p2p_connect.Prelude.Maps.{get, get-insert}
use polkadot_p2p_connect.FrameBuffer.{frame, empty, push}
use polkadot_p2p_connect.FrameBuffer.Frames.{Framed, drain, drain-Framed}
use polkadot_p2p_connect.Yamux.State.{StreamState, SharedState}
use polkadot_p2p_connect.Yamux.Queues.{pending}
use polkadot_p2p_connect.Multistreams.{
  Multistream, YamuxMultistream, waiting_for_accept, outgoing, open_now, outgoing_accepted, output,
  Result, ok, set_buf, after_send, accept_on, accept_protocol, send_multistream_data_with_newline,
}
use polkadot_p2p_connect.Multistreams.Next.{emit, on_frame}
use polkadot_p2p_connect.Multistreams.Negotiation.{state_of}
use polkadot_p2p_connect.Multistreams.Sending.{
  Framed-snoc, after_send-ok, send_multistream_data_with_newline-Grew,
}

on_frame-accepts :
    (is_utf8 : List ℕ → Bool) (id : ℕ) (entry : Multistream) (name : List ℕ) (rest : List (List ℕ))
    (m : YamuxMultistream)
    → on_frame is_utf8 id entry (outgoing true name rest) (name ++ b'\n' ∷ []) m ≡ (
      set_buf id (record entry { state = open_now }) m,
      emit (output id (outgoing_accepted name)),
    )
unfolding on_frame
on_frame-accepts is_utf8 id entry name rest m = rw (bytes_eq_refl (name ++ b'\n' ∷ [])) refl

accept_protocol-sent :
    (id size : ℕ) (m m' : YamuxMultistream) (entry : Multistream) (name : List ℕ)
    → get id m.bufs ≡ some entry
    → entry.state ≡ waiting_for_accept name
    → accept_protocol id size m ≡ (m', ok tt)
    → (send_multistream_data_with_newline id name m.inner.shared ≡ (m'.inner.shared, ok tt))
      × (state_of id m' ≡ some open_now)
unfolding accept_protocol accept_on
accept_protocol-sent id size m m' entry name found waiting e = (
  after_send-ok accepted m' reply (sym computed ∙ e),
  rw (← same) (
      ground (
        arith,
        get-insert id id (record entry { state = open_now; max_buffer_size = size }) m.bufs,
      )),
)
  where
    accepted : YamuxMultistream
    accepted = set_buf id (record entry { state = open_now; max_buffer_size = size }) m

    reply : SharedState × Result (Unit {0})
    reply = send_multistream_data_with_newline id name m.inner.shared

    computed : accept_protocol id size m ≡ after_send accepted reply
    computed = rw (found, waiting, accept_protocol) refl

    same : (after_send accepted reply).0 ≡ m'
    same = ap (λ (r : YamuxMultistream × Result (Unit {0})). r.0) (sym computed ∙ e)

-- Both sides agree. Let the user accept the protocol `name` that the remote proposed on a stream, and
-- let the data in the queue of the stream be, in the order of the queue, the frames of `payloads`. Then
-- the stream is open; a frame buffer that is fed the data that is in the queue right after the call, in
-- the order of the queue, returns `payloads`, then `name` with a newline, then nothing; and on that
-- frame a remote that waits for an answer to `name` opens its stream and hands out that `name` was
-- accepted.
pub accept_protocol-agrees :
    (id size : ℕ) (m m' : YamuxMultistream) (entry : Multistream) (name : List ℕ)
    (payloads : List (List ℕ)) (s : StreamState)
    → get id m.bufs ≡ some entry
    → entry.state ≡ waiting_for_accept name
    → length name + 1 < 2 ^ 64
    → get id m.inner.shared.streams ≡ some s
    → Framed payloads (pending s.outbound_buf)
    → accept_protocol id size m ≡ (m', ok tt)
    → (s' : StreamState) × (state_of id m' ≡ some open_now)
      × (get id m'.inner.shared.streams ≡ some s')
      × (drain
            (length (payloads ++ (name ++ b'\n' ∷ []) ∷ []))
            (push empty (pending s'.outbound_buf))
          ≡ map (λ p. some (frame p)) (payloads ++ (name ++ b'\n' ∷ []) ∷ []) ++ none ∷ [])
      × ((is_utf8 : List ℕ → Bool) (id' : ℕ) (entry' : Multistream) (rest : List (List ℕ))
            (remote : YamuxMultistream)
          → on_frame is_utf8 id' entry' (outgoing true name rest) (name ++ b'\n' ∷ []) remote ≡ (
            set_buf id' (record entry' { state = open_now }) remote,
            emit (output id' (outgoing_accepted name)),
          ))
accept_protocol-agrees id size m m' entry name payloads s found waiting h known framed e =
    let (sent, is_open) = accept_protocol-sent id size m m' entry name found waiting e in
    let (w, writes, g) =
      send_multistream_data_with_newline-Grew id name m.inner.shared m'.inner.shared sent in
    let same : g.before ≡ s = cc (sym g.known ∙ known) in
    let line : length (name ++ b'\n' ∷ []) ≡ length name + 1 = length-append name (b'\n' ∷ []) in
    (
      g.after,
      is_open,
      g.kept,
      rw (g.grew, same)
          (drain-Framed (payloads ++ (name ++ b'\n' ∷ []) ∷ [])
            (pending s.outbound_buf ++ (w ++ (name ++ b'\n' ∷ [])))
            (Framed-snoc payloads (pending s.outbound_buf) (name ++ b'\n' ∷ []) w (omega arith)
              (rw line writes) framed)),
      λ is_utf8 id' entry' rest remote. on_frame-accepts is_utf8 id' entry' name rest remote,
    )
