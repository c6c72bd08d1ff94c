-- ===== src/Yamux/Write/Rounds.antt =====
-- The passes of the write future come to an end.
use polkadot_p2p_connect.Prelude.{
  ℕ, zero, suc, ◌+◌, ◌-◌, ◌^◌, ◌≤◌, ◌<◌, ◌≡◌, refl, arith, min, Bool-cases, inl, inr, ◌==◌, List,
  [], ◌∷◌, ◌++◌, some, length, length-append, length-drop,
}
use polkadot_p2p_connect.Prelude.Maps.{Map}
use polkadot_p2p_connect.Yamux.State.{SharedState, StreamState, Message, accept_it, payload}
use polkadot_p2p_connect.Yamux.Write.{
  Layout, write_payload, write_message, write_queue, write_stream, Gathered, write_pass,
  write_passes, gather, remove_all, bytes_to_send,
}

-- What is left to send: each message counts once, and each byte of data.
abbrev pub cost : Message → ℕ
cost (payload bytes) = suc (length bytes)
cost _ = 1

abbrev pub queue_cost : List Message → ℕ
queue_cost [] = 0
queue_cost (m ∷ ms) = cost m + queue_cost ms

abbrev pub backlog : Map StreamState → ℕ
backlog [] = 0
backlog ((id, s) ∷ m) = queue_cost s.outbound_buf + backlog m

queue_cost-append : (xs ys : List Message) → queue_cost (xs ++ ys) ≡ queue_cost xs + queue_cost ys
queue_cost-append [] ys = omega arith
queue_cost-append (x ∷ xs) ys = omega (arith, queue_cost-append xs ys)

module _ (l : Layout) (id : ℕ) where
  payload_cost :
      (outbound : List ℕ) (rest : List Message) (s : StreamState)
      → let w = write_payload l id outbound rest s in
        queue_cost w.stream.outbound_buf + min 1 (length w.bytes)
        ≤ suc (length outbound) + queue_cost rest
  unfolding write_payload
  payload_cost outbound rest s = ground (
    arith,
    queue_cost-append rest (payload outbound ∷ []),
    length-drop (bytes_to_send outbound s) outbound,
  )

  message_cost :
      (m : Message) (rest : List Message) (s : StreamState)
      → let w = write_message l id m rest s in
        queue_cost w.stream.outbound_buf + min 1 (length w.bytes) ≤ cost m + queue_cost rest
  unfolding write_message
  message_cost (payload outbound) rest s = payload_cost outbound rest s
  message_cost accept_it rest s = omega arith
  message_cost _ rest s = omega arith

  stream_cost :
      (queue : List Message) (s : StreamState)
      → let w = write_queue l id queue s in
        s.outbound_buf ≡ queue
        → queue_cost w.stream.outbound_buf + min 1 (length w.bytes) ≤ queue_cost queue
  unfolding write_queue
  stream_cost [] s e = rw e (omega arith)
  stream_cost (m ∷ rest) s e = message_cost m rest s

module _ (l : Layout) where
  -- A pass that writes something shortens what is left; none makes it longer.
  pass_cost :
      (m : Map StreamState)
      → let g = write_pass l m in backlog g.streams + min 1 (length g.bytes) ≤ backlog m
  unfolding write_pass write_stream
  pass_cost [] = omega arith
  pass_cost ((id, s) ∷ m) =
      let w = write_queue l id s.outbound_buf s in
      omega (
        arith,
        stream_cost l id s.outbound_buf s refl,
        pass_cost m,
        length-append w.bytes (write_pass l m).bytes,
      )

  passes_end :
      (rounds old_len : ℕ) (g : Gathered)
      → backlog g.streams + min 1 (length g.bytes - old_len) < rounds
      → old_len ≤ length g.bytes
      → (g' : Gathered) × (write_passes l rounds old_len g ≡ some g')
  unfolding write_passes
  passes_end zero old_len g h le = absurd (omega arith)
  passes_end (suc rounds) old_len g h le = elim (Bool-cases (length g.bytes == old_len)) [
    | inl done ↦ (g, rw done)
    | inr grew ↦
        let pass = write_pass l g.streams in
        let next : Gathered = record {
          bytes = g.bytes ++ pass.bytes;
          streams = pass.streams;
          to_remove = g.to_remove ++ pass.to_remove;
        } in
        let (g', e) =
          passes_end rounds (length g.bytes) next
            (ground (arith, pass_cost g.streams, length-append g.bytes pass.bytes))
            (omega (arith, length-append g.bytes pass.bytes)) in
        (g', rw grew e)
  ]

  first_pass :
      (rounds : ℕ) (st : SharedState)
      → backlog st.streams + 1 < rounds
      → (g : Gathered) × (write_passes l rounds
            (2 ^ 64 - 1)
            (record { bytes = []; streams = st.streams; to_remove = [] })
          ≡ some g)
  unfolding write_passes
  first_pass zero st h = absurd (omega arith)
  first_pass (suc rounds) st h =
      passes_end rounds 0 (write_pass l st.streams) (omega (arith, pass_cost st.streams))
        (omega arith)

-- The loop over the streams ends: with two rounds more than there are messages and bytes of data to
-- send, it stops by its own test and gives a result.
pub gather-ends :
    (l : Layout) (rounds : ℕ) (st : SharedState)
    → backlog st.streams + 1 < rounds
    → (r : SharedState × List ℕ) × (gather l rounds st ≡ some r)
gather-ends l rounds st h =
    let (g, e) = first_pass l rounds st h in
    (
      (record st { streams = remove_all g.to_remove g.streams }, g.bytes),
      unfold gather in rw (e, gather),
    )
