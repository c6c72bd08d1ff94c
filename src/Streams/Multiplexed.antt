-- ===== src/Streams/Multiplexed.antt =====
-- The multistreams over a reader as the streams of a connection: `n` rounds of their loop, with
-- `rounds` rounds of the session's loop in each.
use polkadot_p2p_connect.Prelude.{
  ℕ, ◌+◌, ◌≤◌, ◌<◌, ◌≡◌, ap, arith, inl, inr, Bool, List, some, Option-cases,
}
use polkadot_p2p_connect.AsyncStream.{AsyncRead}
use polkadot_p2p_connect.Yamux.State.{Session}
use polkadot_p2p_connect.Yamux.Invariant.Calls.{open_stream-some}
use polkadot_p2p_connect.Yamux.Api
use polkadot_p2p_connect.Multistreams.{
  YamuxMultistream, ok, open_stream, send_data, accept_protocol, reject_protocol, close_stream,
  reset_stream_immediately,
}
use polkadot_p2p_connect.Multistreams.Next.{next}
use polkadot_p2p_connect.Multistreams.Ids.{
  next_of, open_with-id, open_with-ok, send_data-id, accept_protocol-id, reject_protocol-id,
  close_stream-id, reset-id, next-id,
}
use polkadot_p2p_connect.Streams.{Streams, IsFresh}

-- The stream that `open_stream` opened, when it did not panic.
Opens : (names : List (List ℕ)) (size : ℕ) (m : YamuxMultistream) → Type 0
Opens names size m =
    (next_of m ≤ next_of (open_stream names size m).0)
    × ((id : ℕ)
        → (open_stream names size m).1 ≡ ok id
        → (next_of m ≤ id) × (id < next_of (open_stream names size m).0))

opened-Opens :
    (names : List (List ℕ)) (size id : ℕ) (inner : Session) (m : YamuxMultistream)
    → Api.open_stream m.inner ≡ some (inner, id)
    → Opens names size m
unfolding open_stream Opens
opened-Opens names size id inner m e =
    let m' = record m { inner = inner } in
    let (opened, same, below) = open_stream-some m.inner inner id e in
    let later : inner.next_stream_id ≡ m.inner.next_stream_id + 2 =
      ap (λ s. s.next_stream_id) opened in
    let kept = open_with-id id names size m' in
    rw (e, open_stream)
      (
        omega arith,
        λ j ok_j. let is_id = open_with-ok id names size m' j ok_j in (omega arith, omega arith),
      )

open_stream-Opens : (names : List (List ℕ)) (size : ℕ) (m : YamuxMultistream) → Opens names size m
unfolding open_stream Opens
open_stream-Opens names size m = elim (Option-cases (Api.open_stream m.inner)) [
  | inl e ↦ rw (e, open_stream) (omega arith, λ id ok_id. cc)
  | inr ((inner, id), e) ↦ opened-Opens names size id inner m e
]

module _ (is_utf8 : List ℕ → Bool) (io : AsyncRead) (n rounds : ℕ) where
  abbrev pub multiplexed : Streams
  multiplexed = record {
    State = YamuxMultistream × io.Reader;
    open_stream = λ names size s. let (m, out) = open_stream names size s.0 in ((m, s.1), out);
    send_data = λ id bytes s. let (m, out) = send_data id bytes s.0 in ((m, s.1), out);
    accept_protocol = λ id size s. let (m, out) = accept_protocol id size s.0 in ((m, s.1), out);
    reject_protocol = λ id s. let (m, out) = reject_protocol id s.0 in ((m, s.1), out);
    close_stream = λ id s. (close_stream id s.0, s.1);
    reset_stream_immediately = λ id s. (reset_stream_immediately id s.0, s.1);
    next = λ s. let ((m, round), r) = next is_utf8 io n rounds s.1 s.0 in ((m, r), round);
  }

  -- The multistreams over a yamux session have fresh ids, on any reader and for any number of
  -- rounds: the id of a stream that `open_stream` opens is not below the session's next id before
  -- it and is below the next id after it, and no call and no `next` lowers the next id.
  pub multiplexed-IsFresh : IsFresh multiplexed
  unfolding Opens
  multiplexed-IsFresh = record {
    next_id = λ s. next_of s.0;
    open_stream-fresh = λ names size id s e. (open_stream-Opens names size s.0).1 id e;
    open_stream-mono = λ names size s. (open_stream-Opens names size s.0).0;
    send_data-mono = λ id bytes s. omega (arith, send_data-id id bytes s.0);
    accept_protocol-mono = λ id size s. omega (arith, accept_protocol-id id size s.0);
    reject_protocol-mono = λ id s. omega (arith, reject_protocol-id id s.0);
    close_stream-mono = λ id s. omega (arith, close_stream-id id s.0);
    reset_stream_immediately-mono = λ id s. omega (arith, reset-id id s.0);
    next-mono = λ s. omega (arith, next-id is_utf8 io n rounds s.1 s.0);
  }
