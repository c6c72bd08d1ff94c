-- ===== src/Yamux/Write/Frames.antt =====
-- What a stream's turn in a pass puts on the wire.
use polkadot_p2p_connect.Prelude.{
  ℕ, zero, suc, ◌+◌, ◌-◌, ◌≤◌, ◌<◌, ◌≡◌, refl, sym, ap, ◌∙◌, arith, min, Bool-cases, inl, inr,
  if◌then◌else◌, false, ltb, ◌==◌, List, [], ◌∷◌, ◌++◌, length, length-append, length-take, take,
  drop, take-append-drop, append-nil,
}
use native.Mathlib.Nat.{min-zero, suc-min-suc, suc-sub-suc}
use polkadot_p2p_connect.Yamux.Header.{Header, encode}
use polkadot_p2p_connect.Yamux.Header
use polkadot_p2p_connect.Yamux.State.{StreamState, Message, payload, max_send_size}
use polkadot_p2p_connect.Yamux.Write.{
  Layout, write_payload, write_stream, data_frames, bytes_to_send,
}

-- The data frames of stream `id` with the given payloads, behind one another.
abbrev pub data_wire : ℕ → List (List ℕ) → List ℕ
data_wire id [] = []
data_wire id (p ∷ ps) = (encode (Header.send_data id (length p)) ++ p) ++ data_wire id ps

abbrev pub concat : List (List ℕ) → List ℕ
concat [] = []
concat (p ∷ ps) = p ++ concat ps

take-append :
    (n : ℕ) (xs ys : List ℕ)
    → take n (xs ++ ys) ≡ take (min n (length xs)) xs ++ take (n - length xs) ys
take-append zero xs ys =
    let e : min 0 (length xs) ≡ 0 = omega arith in
    let e' : 0 - length xs ≡ 0 = omega arith in rw (e, e')
take-append (suc n) [] ys = let e : suc n - 0 ≡ suc n = omega arith in rw (min-zero (suc n), e)
take-append (suc n) (x ∷ xs) ys =
    rw (suc-min-suc n (length xs), suc-sub-suc n (length xs)) (ap (◌∷◌ x) (take-append n xs ys))

-- The payloads of the frames: the parts of the two slices that are sent.
payloads : ℕ → List ℕ × List ℕ → List (List ℕ)
payloads n (a, b) =
    if ltb 0 (n - length a)
    then take (min n (length a)) a ∷ take (n - length a) b ∷ []
    else take (min n (length a)) a ∷ []

module _ (n : ℕ) (a b : List ℕ) (h : n ≤ length a + length b) where
  data_frames-wire :
      (l : Layout) (id : ℕ) → data_frames l id n (a, b) ≡ data_wire id (payloads n (a, b))
  unfolding data_frames payloads
  data_frames-wire l id = elim (Bool-cases (ltb 0 (n - length a))) [
    | inl two ↦ rw (two, length_a, length_b, append-nil)
    | inr one ↦ rw (one, length_a)
  ]
    where
      length_a : length (take (min n (length a)) a) ≡ min n (length a)
      length_a = omega (arith, length-take (min n (length a)) a)

      length_b : length (take (n - length a) b) ≡ n - length a
      length_b = omega (arith, length-take (n - length a) b)

  concat-payloads : concat (payloads n (a, b)) ≡ take n (a ++ b)
  unfolding payloads
  concat-payloads = elim (Bool-cases (ltb 0 (n - length a))) [
    | inl two ↦ rw (two, append-nil) (sym (take-append n a b))
    | inr one ↦
        let none_left : n - length a ≡ 0 = ground arith in
        rw one (sym (take-append n a b ∙ rw none_left))
  ]

-- The queue when `left` is still to be sent of the data at its head.
abbrev pub requeue : List ℕ → List Message → List Message
requeue [] rest = rest
requeue (x ∷ xs) rest = payload (x ∷ xs) ∷ rest

requeue-drop :
    (n : ℕ) (outbound : List ℕ) (rest : List Message)
    → n ≤ length outbound
    → (if n == length outbound then rest else payload (drop n outbound) ∷ rest)
      ≡ requeue (drop n outbound) rest
requeue-drop zero [] rest h = refl
requeue-drop zero (x ∷ xs) rest h = ground arith
requeue-drop (suc n) [] rest h = absurd (omega arith)
requeue-drop (suc n) (x ∷ xs) rest h = ground (arith, requeue-drop n xs rest)

module _ (l : Layout) (id : ℕ) (s : StreamState) (outbound : List ℕ) (rest : List Message)
    (n : ℕ) where
  write_payload_lem :
      n ≡ bytes_to_send outbound s
      → 0 < n
      → write_payload l id outbound rest s ≡ record {
        bytes = data_frames l id n (l.as_slices outbound);
        stream = record s {
          send_window = s.send_window - n;
          outbound_buf = requeue (drop n outbound) rest;
        };
        removed = false;
      }
  unfolding write_payload
  write_payload_lem e h = rw (← e) (ground (arith, requeue-drop n outbound rest))

-- A data message at the head of the queue, when the peer's window is open: the bytes written are
-- data frames of this stream, with a header that gives the length of each, whose payloads together
-- are the first bytes of the message; what was not sent stays at the head of the queue; the window
-- falls by as much as was sent; and at least one byte is sent, at most what the window allows and at
-- most 64 KiB. The rest of the stream's state does not change, and the stream is not removed.
pub write_stream-payload :
    (l : Layout) (id : ℕ) (s : StreamState) (outbound : List ℕ) (rest : List Message)
    → s.outbound_buf ≡ payload outbound ∷ rest
    → 0 < length outbound
    → 0 < s.send_window
    → (ps : List (List ℕ)) × (left : List ℕ) × (write_stream l id s ≡ record {
      bytes = data_wire id ps;
      stream = record s {
        send_window = s.send_window - length (concat ps);
        outbound_buf = requeue left rest;
      };
      removed = false;
    })
      × (outbound ≡ concat ps ++ left)
      × (1 ≤ length (concat ps))
      × (length (concat ps) ≤ s.send_window)
      × (length (concat ps) ≤ max_send_size)
write_stream-payload l id s outbound rest e some_data h = (
  payloads n slices,
  drop n outbound,
  written,
  sent,
  omega (arith, count),
  omega (arith, count),
  omega (arith, count),
)
  where
    n : ℕ
    n = bytes_to_send outbound s

    slices : List ℕ × List ℕ
    slices = l.as_slices outbound

    joined : slices.0 ++ slices.1 ≡ outbound
    joined = l.as_slices_lem outbound

    fits : n ≤ length slices.0 + length slices.1
    fits = omega (arith, ap length joined, length-append slices.0 slices.1)

    parts : concat (payloads n slices) ≡ take n outbound
    parts = concat-payloads n slices.0 slices.1 fits ∙ ap (take n) joined

    count : length (concat (payloads n slices)) ≡ n
    count = ap length parts ∙ omega (arith, length-take n outbound)

    sent : outbound ≡ concat (payloads n slices) ++ drop n outbound
    sent = rw parts (sym (take-append-drop n outbound))

    head_turn : write_stream l id s ≡ write_payload l id outbound rest s
    head_turn = unfold write_stream in rw e refl

    written : write_stream l id s ≡ record {
      bytes = data_wire id (payloads n slices);
      stream = record s {
        send_window = s.send_window - length (concat (payloads n slices));
        outbound_buf = requeue (drop n outbound) rest;
      };
      removed = false;
    }
    written = rw count (
        head_turn
        ∙ write_payload_lem l id s outbound rest n refl (omega arith)
        ∙ ap
            (λ bytes. record {
              bytes = bytes;
              stream = record s {
                send_window = s.send_window - n;
                outbound_buf = requeue (drop n outbound) rest;
              };
              removed = false;
            })
            (data_frames-wire n slices.0 slices.1 fits l id))
