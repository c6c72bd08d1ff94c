-- ===== src/Multistreams/Negotiation.antt =====
-- What `next_inner` may hand out for a frame, and what the stream is then.
use polkadot_p2p_connect.Prelude.{
  ℕ, ◌≡◌, ◌≢◌, refl, sym, ap, ◌∙◌, arith, ◌⊎◌, inl, inr, Bool, true, false, Bool-cases, ◌==◌,
  ==_iff, bytes_eq, bytes_eq→eq, bytes_eq_refl, List, [], ◌∷◌, ◌++◌, Option, none, some,
  Option-cases,
}
use polkadot_p2p_connect.Prelude.Maps.{get, get-insert, get-remove}
use polkadot_p2p_connect.Yamux.State.{SharedState}
use polkadot_p2p_connect.Multistreams.{
  MultistreamState, new_incoming, new_incoming_protocol, waiting_for_accept, outgoing, open_now,
  closed_by_us, Multistream, YamuxMultistream, OutputState, incoming_protocol, outgoing_rejected,
  outgoing_accepted, message, closed, Output, output, Result, ok, err, panicked, header_line,
  set_buf, send_multistream_data, send_multistream_data_with_newline, reset_stream_immediately,
}
use polkadot_p2p_connect.Multistreams.Next.{
  Round, emit, replied, pop, on_proposal, propose_next, on_frame,
}

pub pop-some :
    (bytes front : List ℕ) (last : ℕ) → pop bytes ≡ some (front, last) → bytes ≡ front ++ last ∷ []
unfolding pop
pop-some [] front last e = ground arith
pop-some (byte ∷ []) front last e = ground arith
pop-some (byte ∷ next ∷ bytes) front last e = elim (Option-cases (pop (next ∷ bytes))) [
  | inl p ↦ ground arith
  | inr ((front', last'), p) ↦ ground (arith, pop-some (next ∷ bytes) front' last' p)
]

-- What a stream in state `state` may hand out for the frame `bytes`, and what becomes of it.
pub Emits :
    (List ℕ → Bool) → MultistreamState → List ℕ → OutputState → Option MultistreamState → Type 0
Emits is_utf8 state bytes (incoming_protocol name) after =
    (state ≡ new_incoming_protocol)
    × (bytes ≡ name ++ b'\n' ∷ [])
    × (is_utf8 name ≡ true)
    × (after ≡ some (waiting_for_accept name))
Emits is_utf8 state bytes (outgoing_accepted name) after =
    (rest : List (List ℕ)) × (state ≡ outgoing true name rest)
    × (bytes ≡ name ++ b'\n' ∷ [])
    × (after ≡ some open_now)
Emits is_utf8 state bytes outgoing_rejected after =
    (name : List ℕ) × (state ≡ outgoing true name [])
    × (bytes ≢ name ++ b'\n' ∷ [])
    × (after ≡ none)
Emits is_utf8 state bytes (message payload) after =
    ((state ≡ open_now) ⊎ (state ≡ closed_by_us)) × (payload ≡ bytes) × (after ≡ some state)
Emits is_utf8 state bytes (closed reason) after = ⊥

-- The state of stream `id`, if it is known.
abbrev pub state_of : ℕ → YamuxMultistream → Option MultistreamState
state_of id m = elim (get id m.bufs) [ none ↦ none | some entry ↦ some entry.state ]

module _ (is_utf8 : List ℕ → Bool) (id : ℕ) (entry : Multistream) where
  state_of-set_buf :
      (state : MultistreamState) (m : YamuxMultistream)
      → state_of id (set_buf id (record entry { state = state }) m) ≡ some state
  state_of-set_buf state m =
      ground (arith, get-insert id id (record entry { state = state }) m.bufs)

  state_of-reset : (m : YamuxMultistream) → state_of id (reset_stream_immediately id m) ≡ none
  unfolding reset_stream_immediately
  state_of-reset m = ground (arith, get-remove id id m.bufs)

  -- A round that sends hands out nothing.
  replied-emit :
      (m m' : YamuxMultistream) (r : SharedState × Result (Unit {0})) (o : Output)
      → replied m r ≢ (m', emit o)
  replied-emit m m' (st, ok u) o e = ground arith
  replied-emit m m' (st, err u) o e = ground arith
  replied-emit m m' (st, panicked) o e = ground arith

abbrev Good : (List ℕ → Bool) → ℕ → MultistreamState → List ℕ → Output → YamuxMultistream → Type 0
Good is_utf8 id state bytes o m =
    (o.stream_id ≡ id) × Emits is_utf8 state bytes o.state (state_of id m)

module _ (is_utf8 : List ℕ → Bool) (id : ℕ) (state : MultistreamState) (bytes : List ℕ)
    (m' : YamuxMultistream) (o : Output) where
  emitted :
      (m : YamuxMultistream) (s : OutputState)
      → Path (YamuxMultistream × Round) (m, emit (output id s)) (m', emit o)
      → Emits is_utf8 state bytes s (state_of id m)
      → Good is_utf8 id state bytes o m'
  emitted m s e good =
      let same_m : m ≡ m' = ap (λ (r : YamuxMultistream × Round). r.0) e in
      let same_o : output id s ≡ o = cc (ap (λ (r : YamuxMultistream × Round). r.1) e) in
      rw (← same_m, ← same_o) (refl, good)

module _ (is_utf8 : List ℕ → Bool) (id : ℕ) (entry : Multistream) (m m' : YamuxMultistream)
    (o : Output) (bytes : List ℕ) where
  on_proposal-Emits :
      (popped : Option (List ℕ × ℕ))
      → pop bytes ≡ popped
      → on_proposal is_utf8 id entry popped m ≡ (m', emit o)
      → Good is_utf8 id new_incoming_protocol bytes o m'
  unfolding on_proposal Emits
  on_proposal-Emits none p e = ground arith
  on_proposal-Emits (some (name, last)) p e = elim (Bool-cases (last == b'\n')) [
    | inr other ↦ ground arith
    | inl newline ↦ elim (Bool-cases (is_utf8 name)) [
      | inr other ↦ ground arith
      | inl utf8 ↦
          emitted is_utf8 id new_incoming_protocol bytes m' o
            (set_buf id (record entry { state = waiting_for_accept name }) m)
            (incoming_protocol name) (sym (rw (newline, utf8) refl) ∙ e)
            (
              refl,
              rw (pop-some bytes name last p)
                  (ap (λ (b : ℕ). name ++ b ∷ []) ((==_iff last b'\n').0 newline)),
              utf8,
              state_of-set_buf is_utf8 id entry (waiting_for_accept name) m,
            )
    ]
  ]

  propose_next-Emits :
      (current : List ℕ) (rest : List (List ℕ))
      → bytes ≢ current ++ b'\n' ∷ []
      → propose_next is_utf8 id entry rest m ≡ (m', emit o)
      → Good is_utf8 id (outgoing true current rest) bytes o m'
  unfolding propose_next Emits
  propose_next-Emits current [] h e =
      emitted is_utf8 id (outgoing true current []) bytes m' o (reset_stream_immediately id m)
        outgoing_rejected e (current, refl, h, state_of-reset is_utf8 id entry m)
  propose_next-Emits current (next ∷ rest) h e = absurd (
      replied-emit is_utf8 id entry
        (set_buf id (record entry { state = outgoing true next rest }) m) m'
        (send_multistream_data_with_newline id next m.inner.shared) o e)

-- A frame hands something out only when the negotiation has come to it, and then what the frame
-- says: a proposal is a UTF-8 name with a newline behind it on a stream that has shaken hands, and the
-- stream waits for the user; an acceptance is a frame of just the name last proposed and a newline, and
-- opens the stream; a rejection is another frame when no protocol is left, and forgets the stream; a
-- message is a frame of a stream that is open, or that only we have closed. The output names the
-- stream of the frame.
pub on_frame-Emits :
    (is_utf8 : List ℕ → Bool) (id : ℕ) (entry : Multistream) (state : MultistreamState)
    (bytes : List ℕ) (m m' : YamuxMultistream) (o : Output)
    → state_of id m ≡ some state
    → on_frame is_utf8 id entry state bytes m ≡ (m', emit o)
    → (o.stream_id ≡ id) × Emits is_utf8 state bytes o.state (state_of id m')
unfolding on_frame Emits
on_frame-Emits is_utf8 id entry new_incoming bytes m m' o h e =
    elim (Bool-cases (bytes_eq header_line bytes)) [
      | inl same ↦ absurd (
          replied-emit is_utf8 id entry
            (set_buf id (record entry { state = new_incoming_protocol }) m) m'
            (send_multistream_data id header_line m.inner.shared) o (ground arith))
      | inr other ↦ ground arith
    ]
on_frame-Emits is_utf8 id entry new_incoming_protocol bytes m m' o h e =
    on_proposal-Emits is_utf8 id entry m m' o bytes (pop bytes) refl e
on_frame-Emits is_utf8 id entry (waiting_for_accept name) bytes m m' o h e = ground arith
on_frame-Emits is_utf8 id entry (outgoing false current rest) bytes m m' o h e = ground arith
on_frame-Emits is_utf8 id entry (outgoing true current rest) bytes m m' o h e =
    elim (Bool-cases (bytes_eq (current ++ b'\n' ∷ []) bytes)) [
      | inl same ↦
          emitted is_utf8 id (outgoing true current rest) bytes m' o
            (set_buf id (record entry { state = open_now }) m) (outgoing_accepted current)
            (sym (rw same refl) ∙ e)
            (
              rest,
              refl,
              sym (bytes_eq→eq (current ++ b'\n' ∷ []) bytes same),
              state_of-set_buf is_utf8 id entry open_now m,
            )
      | inr other ↦
          propose_next-Emits is_utf8 id entry m m' o bytes current rest
            (λ same. cc (other, same, bytes_eq_refl (current ++ b'\n' ∷ [])))
            (sym (rw other refl) ∙ e)
    ]
on_frame-Emits is_utf8 id entry open_now bytes m m' o h e =
    emitted is_utf8 id open_now bytes m' o m (message bytes) e (inl refl, refl, h)
on_frame-Emits is_utf8 id entry closed_by_us bytes m m' o h e =
    emitted is_utf8 id closed_by_us bytes m' o m (message bytes) e (inr refl, refl, h)
