-- ===== src/Examples/Accepting.antt =====
-- A stream whose protocol the user accepts.
use polkadot_p2p_connect.Prelude.{ℕ, ◌≡◌, refl, arith, Bool, true, List, [], ◌∷◌, ◌++◌, none, some}
use polkadot_p2p_connect.Prelude.Maps.{get}
use polkadot_p2p_connect.FrameBuffer.{frame, empty, push}
use polkadot_p2p_connect.FrameBuffer.Frames.{drain}
use polkadot_p2p_connect.Yamux.State.{StreamState}
use polkadot_p2p_connect.Yamux.Api
use polkadot_p2p_connect.Yamux.Queues.{pending}
use polkadot_p2p_connect.Varint
use polkadot_p2p_connect.Multistreams.{
  YamuxMultistream, Multistream, waiting_for_accept, outgoing, open_now, outgoing_accepted, output,
  ok, set_buf, accept_protocol, codes, send_parts, send_multistream_data_with_newline,
}
use polkadot_p2p_connect.Multistreams.Next.{on_frame, emit}
use polkadot_p2p_connect.Multistreams.Negotiation.{state_of}
use polkadot_p2p_connect.Multistreams.Agreement.{accept_protocol-agrees}
use polkadot_p2p_connect.Examples.Sessions.{multistreams, stream_in, with_queue, pending_nothing}

abbrev name : List ℕ
name = codes "/a"

abbrev asked : YamuxMultistream
asked = multistreams (waiting_for_accept name)

abbrev accepted : YamuxMultistream
accepted = (accept_protocol 1 4096 asked).0

accepts : accept_protocol 1 4096 asked ≡ (accepted, ok tt)
unfolding accept_protocol send_multistream_data_with_newline Varint.encode send_parts Api.send_data
accepts = refl

accept_protocol-agrees_example :
    (s' : StreamState) × (state_of 1 accepted ≡ some open_now)
    × (get 1 accepted.inner.shared.streams ≡ some s')
    × (drain 1 (push empty (pending s'.outbound_buf))
        ≡ some (frame (name ++ b'\n' ∷ [])) ∷ none ∷ [])
    × ((is_utf8 : List ℕ → Bool) (id' : ℕ) (entry' : Multistream) (rest : List (List ℕ))
          (remote : YamuxMultistream)
        → on_frame is_utf8 id' entry' (outgoing true name rest) (name ++ b'\n' ∷ []) remote ≡ (
          set_buf id' (record entry' { state = open_now }) remote,
          emit (output id' (outgoing_accepted name)),
        ))
accept_protocol-agrees_example =
    accept_protocol-agrees 1 4096 asked accepted (stream_in (waiting_for_accept name)) name []
      (with_queue [] 100) refl refl (omega arith) refl pending_nothing accepts
