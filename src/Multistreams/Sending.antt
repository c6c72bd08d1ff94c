-- ===== src/Multistreams/Sending.antt =====
-- The bytes that a stream's messages become in its queue, and which messages are read from them.
use polkadot_p2p_connect.Prelude.{
  ◌+◌, ℕ, map, ◌^◌, ◌<◌, ◌≡◌, ◌≢◌, refl, sym, ap, subst, ◌∙◌, arith, ◌⊎◌, inl, inr, List, [], ◌∷◌,
  ◌++◌, append_assoc, append-nil, none, some, Option-cases, length, take, replicate,
}
use polkadot_p2p_connect.Prelude.Maps.{get}
use polkadot_p2p_connect.Varint.{encode, encode_to_vec}
use polkadot_p2p_connect.Varint.RoundTrip.{encode_to_vec-encode}
use polkadot_p2p_connect.FrameBuffer.{frame, empty, push}
use polkadot_p2p_connect.FrameBuffer.Frames.{Framed, drain, drain-Framed}
use polkadot_p2p_connect.Yamux.State
use polkadot_p2p_connect.Yamux.State.{SharedState, StreamState}
use polkadot_p2p_connect.Yamux.Api
use polkadot_p2p_connect.Yamux.Queues.{pending, send_data-pending}
use polkadot_p2p_connect.Yamux.Write.Frames.{concat}
use polkadot_p2p_connect.Multistreams.{
  Multistream, YamuxMultistream, MultistreamState, new_incoming, new_incoming_protocol,
  waiting_for_accept, outgoing, closed_by_us, open_now, Result, ok, send_parts, after_send,
  send_multistream_data, send_multistream_data_with_newline, send_on, send_data, with_shared,
}

-- How the data that a stream has to send grew, with the other streams as they were.
pub record Grew (id : ℕ) (bytes : List ℕ) (st st' : SharedState) : Type 0 where
  pub before : StreamState
  pub after : StreamState
  pub known : get id st.streams ≡ some before
  pub kept : get id st'.streams ≡ some after
  pub grew : pending after.outbound_buf ≡ pending before.outbound_buf ++ bytes
  pub others : (other : ℕ) → other ≢ id → get other st'.streams ≡ get other st.streams

send_data-Grew :
    (id : ℕ) (bytes : List ℕ) (st st' : SharedState)
    → Api.send_data id bytes st ≡ (st', State.ok tt)
    → Grew id bytes st st'
send_data-Grew id bytes st st' e =
    let (s, s', known, kept, grew, others) = send_data-pending id bytes st st' e in
    record { before = s; after = s'; known = known; kept = kept; grew = grew; others = others }

Grew-trans :
    (id : ℕ) (xs ys : List ℕ) (a b c : SharedState)
    → Grew id xs a b
    → Grew id ys b c
    → Grew id (xs ++ ys) a c
Grew-trans id xs ys a b c f g = record {
  before = f.before;
  after = g.after;
  known = f.known;
  kept = g.kept;
  grew =
      let same : g.before ≡ f.after = cc (sym g.known ∙ f.kept) in
      g.grew ∙ rw (same, f.grew, append_assoc) refl;
  others = λ other h. g.others other h ∙ f.others other h;
}

Sent-cases :
    (r : SharedState × State.Result (Unit {0}))
    → ((st : SharedState) × (r ≡ (st, State.ok tt)))
      ⊎ ((st : SharedState) × (e : State.Error) × (r ≡ (st, State.err e)))
Sent-cases (st, State.ok tt) = inl (st, refl)
Sent-cases (st, State.err e) = inr (st, e, refl)

send_parts-sent :
    (id : ℕ) (part : List ℕ) (parts : List (List ℕ)) (st st' : SharedState)
    → send_parts id (part ∷ parts) st ≡ (st', ok tt)
    → (st1 : SharedState) × (Api.send_data id part st ≡ (st1, State.ok tt))
      × (send_parts id parts st1 ≡ (st', ok tt))
unfolding send_parts
send_parts-sent id part parts st st' e = elim (Sent-cases (Api.send_data id part st)) [
  | inr (st1, error, p) ↦ absurd (ground arith)
  | inl (st1, p) ↦ (st1, p, ground arith)
]

send_parts-Grew :
    (id : ℕ) (part : List ℕ) (parts : List (List ℕ)) (st st' : SharedState)
    → send_parts id (part ∷ parts) st ≡ (st', ok tt)
    → Grew id (concat (part ∷ parts)) st st'
send_parts-Grew id part [] st st' e =
    let (st1, sent, rest) = send_parts-sent id part [] st st' e in
    let same : st1 ≡ st' = unfold send_parts in cc rest in
    rw append-nil (subst (Grew id part st) same (send_data-Grew id part st st1 sent))
send_parts-Grew id part (next ∷ parts) st st' e =
    let (st1, sent, rest) = send_parts-sent id part (next ∷ parts) st st' e in
    Grew-trans id part (concat (next ∷ parts)) st st1 st' (send_data-Grew id part st st1 sent)
      (send_parts-Grew id next parts st1 st' rest)

-- A message is put behind the stream's data as a frame: the length of the message and its bytes.
send_multistream_data-Grew :
    (id : ℕ) (bytes : List ℕ) (st st' : SharedState)
    → send_multistream_data id bytes st ≡ (st', ok tt)
    → (w : List ℕ) × (encode_to_vec (length bytes) [] ≡ some w) × Grew id (w ++ bytes) st st'
unfolding send_multistream_data
send_multistream_data-Grew id bytes st st' e =
    elim (Option-cases (encode (length bytes) (replicate 10 0))) [
      | inl panics ↦ absurd (ground arith)
      | inr ((buf, n), writes) ↦ (
        take n buf,
        encode_to_vec-encode (length bytes) n buf writes,
        subst (λ b. Grew id (take n buf ++ b) st st') (append-nil bytes)
            (send_parts-Grew id (take n buf) (bytes ∷ []) st st' (ground arith)),
      )
    ]

pub send_multistream_data_with_newline-Grew :
    (id : ℕ) (bytes : List ℕ) (st st' : SharedState)
    → send_multistream_data_with_newline id bytes st ≡ (st', ok tt)
    → (w : List ℕ) × (encode_to_vec (length bytes + 1) [] ≡ some w)
      × Grew id (w ++ (bytes ++ b'\n' ∷ [])) st st'
unfolding send_multistream_data_with_newline
send_multistream_data_with_newline-Grew id bytes st st' e =
    elim (Option-cases (encode (length bytes + 1) (replicate 10 0))) [
      | inl panics ↦ absurd (ground arith)
      | inr ((buf, n), writes) ↦ (
        take n buf,
        encode_to_vec-encode (length bytes + 1) n buf writes,
        send_parts-Grew id (take n buf) (bytes ∷ (b'\n' ∷ []) ∷ []) st st' (ground arith),
      )
    ]

pub Framed-snoc :
    (payloads : List (List ℕ)) (bytes p w : List ℕ)
    → length p < 2 ^ 64
    → encode_to_vec (length p) [] ≡ some w
    → Framed payloads bytes
    → Framed (payloads ++ p ∷ []) (bytes ++ (w ++ p))
Framed-snoc [] bytes p w h e f = (h, w, [], e, rw (f, append-nil) refl, refl)
Framed-snoc (q ∷ payloads) bytes p w h e (h', w', rest, e', eq, f) = (
  h',
  w',
  rest ++ (w ++ p),
  e',
  rw (eq, append_assoc, append_assoc) refl,
  Framed-snoc payloads rest p w h e f,
)

pub after_send-ok :
    (m m' : YamuxMultistream) (r : SharedState × Result (Unit {0}))
    → after_send m r ≡ (m', ok tt)
    → r ≡ (m'.inner.shared, ok tt)
after_send-ok m m' (st, x) e =
    let same : with_shared m st ≡ m' = ap (λ (r : YamuxMultistream × Result (Unit {0})). r.0) e in
    let done : x ≡ ok tt = ap (λ (r : YamuxMultistream × Result (Unit {0})). r.1) e in
    let shared : st ≡ m'.inner.shared = ap (λ (m : YamuxMultistream). m.inner.shared) same in
    rw (shared, done) refl

send_on-open :
    (id : ℕ) (bytes : List ℕ) (state : MultistreamState) (m m' : YamuxMultistream)
    → send_on id bytes state m ≡ (m', ok tt)
    → (state ≡ open_now)
      × (send_multistream_data id bytes m.inner.shared ≡ (m'.inner.shared, ok tt))
unfolding send_on
send_on-open id bytes open_now m m' e =
    (refl, after_send-ok m m' (send_multistream_data id bytes m.inner.shared) e)
send_on-open id bytes new_incoming m m' e = ground arith
send_on-open id bytes new_incoming_protocol m m' e = ground arith
send_on-open id bytes (waiting_for_accept name) m m' e = ground arith
send_on-open id bytes (outgoing seen current rest) m m' e = ground arith
send_on-open id bytes closed_by_us m m' e = ground arith

send_data-open :
    (id : ℕ) (bytes : List ℕ) (m m' : YamuxMultistream)
    → send_data id bytes m ≡ (m', ok tt)
    → (entry : Multistream) × (get id m.bufs ≡ some entry)
      × (entry.state ≡ open_now)
      × (send_multistream_data id bytes m.inner.shared ≡ (m'.inner.shared, ok tt))
unfolding send_data
send_data-open id bytes m m' e = elim (Option-cases (get id m.bufs)) [
  | inl absent ↦ absurd (ground arith)
  | inr (entry, found) ↦
      let (is_open, sent) = send_on-open id bytes entry.state m m' (ground arith) in
      (entry, found, is_open, sent)
]

-- Let the data in the queue of a stream be, in the order of the queue, the frames of `payloads`, and let
-- `send_data` of `bytes` on it succeed. Then the negotiation of the stream is over, every other stream is
-- as it was, and a frame buffer that is fed the data that is in the queue right after the call, in the
-- order of the queue, returns each of `payloads` in order, then `bytes`, then nothing.
pub send_data-Framed :
    (id : ℕ) (bytes : List ℕ) (payloads : List (List ℕ)) (m m' : YamuxMultistream) (s : StreamState)
    → length bytes < 2 ^ 64
    → get id m.inner.shared.streams ≡ some s
    → Framed payloads (pending s.outbound_buf)
    → send_data id bytes m ≡ (m', ok tt)
    → (entry : Multistream) × (s' : StreamState) × (get id m.bufs ≡ some entry)
      × (entry.state ≡ open_now)
      × (get id m'.inner.shared.streams ≡ some s')
      × (drain (length (payloads ++ bytes ∷ [])) (push empty (pending s'.outbound_buf))
          ≡ map (λ p. some (frame p)) (payloads ++ bytes ∷ []) ++ none ∷ [])
      × ((other : ℕ)
          → other ≢ id
          → get other m'.inner.shared.streams ≡ get other m.inner.shared.streams)
send_data-Framed id bytes payloads m m' s h known framed e =
    let (entry, found, is_open, sent) = send_data-open id bytes m m' e in
    let (w, writes, g) = send_multistream_data-Grew id bytes m.inner.shared m'.inner.shared sent in
    let same : g.before ≡ s = cc (sym g.known ∙ known) in
    (
      entry,
      g.after,
      found,
      is_open,
      g.kept,
      rw (g.grew, same)
          (drain-Framed (payloads ++ bytes ∷ []) (pending s.outbound_buf ++ (w ++ bytes))
            (Framed-snoc payloads (pending s.outbound_buf) bytes w h writes framed)),
      g.others,
    )
