-- ===== src/Varint/Decode.antt =====
-- What `decode` returns on every input.
use polkadot_p2p_connect.Prelude.{
  ℕ, suc, ◌+◌, ◌-◌, ◌≤◌, ◌<◌, ◌≡◌, refl, sym, ap, ◌∙◌, arith, ◌⊎◌, inl, inr, false, List, [], ◌∷◌,
  ◌++◌, append-nil, append_assoc, length, length-append, take, take-append_length, replicate,
  length-replicate, set, All, All-append, IsByte, leb,
}
use polkadot_p2p_connect.Prelude.Bits.{top_bit}
use polkadot_p2p_connect.Varint.{
  ok, err, Error, unexpected_end_of_input, Decoder, DecoderOutput, push, decode_valid_bytes, feed,
  decode_loop, decode,
}
use polkadot_p2p_connect.Varint.Groups.{IsContinuation, decoded, join_groups-value}
use native.Mathlib.Numerals.{add-one}

pub Output-cases :
    (o : DecoderOutput)
    → ((v : ℕ) × (o ≡ DecoderOutput.value v))
      ⊎ ((d : Decoder) × (o ≡ DecoderOutput.needs_more_bytes d))
      ⊎ (o ≡ DecoderOutput.out_of_range)
Output-cases (DecoderOutput.value v) = inl (v, refl)
Output-cases (DecoderOutput.needs_more_bytes d) = inr (inl (d, refl))
Output-cases DecoderOutput.out_of_range = inr (inr refl)

set-append :
    (xs : List ℕ) (k v : ℕ)
    → set (xs ++ replicate (suc k) 0) (length xs) v ≡ (xs ++ v ∷ []) ++ replicate k 0
set-append [] k v = refl
set-append (x ∷ xs) k v = ap (◌∷◌ x) (set-append xs k v)

length-snoc : (front : List ℕ) (byte : ℕ) → length (front ++ byte ∷ []) ≡ suc (length front)
length-snoc front byte = omega (arith, length-append front (byte ∷ []))

take-snoc :
    (front rest : List ℕ) (byte : ℕ)
    → take (suc (length front)) ((front ++ byte ∷ []) ++ rest) ≡ front ++ byte ∷ []
take-snoc front rest byte =
    rw (← length-snoc front byte) (take-append_length (front ++ byte ∷ []) rest)

-- The decoder after it was fed `bytes`, none of which ended the number.
pub fed : List ℕ → Decoder
fed bytes = record { buf = bytes ++ replicate (10 - length bytes) 0; len = length bytes }

module _ (front : List ℕ) (byte : ℕ) (h : length front ≤ 9) where
  fed_room : leb (length (fed front).buf) (fed front).len ≡ false
  unfolding fed
  fed_room = ground (
    arith,
    length-append front (replicate (10 - length front) 0),
    length-replicate {A = ℕ} (10 - length front) 0,
  )

  push-fed : push (fed front) byte ≡ fed (front ++ byte ∷ [])
  unfolding push fed
  push-fed =
      let room : 10 - length front ≡ suc (9 - length front) = omega arith in
      let left : 9 - length front ≡ 10 - suc (length front) = omega arith in
      rw (room, length-snoc front byte, set-append front (9 - length front) byte, add-one, left)
        refl

  fed_valid :
      All IsByte front
      → byte < 128
      → decode_valid_bytes (fed (front ++ byte ∷ [])) ≡ decoded (front ++ byte ∷ [])
  unfolding fed decode_valid_bytes
  fed_valid b lt =
      rw (take-append_length (front ++ byte ∷ []) (replicate (10 - length (front ++ byte ∷ [])) 0))
        (join_groups-value (front ++ byte ∷ []) 0 0
            (All-append IsByte front (byte ∷ []) b (omega arith, tt))
            (omega (arith, length-snoc front byte)) (omega arith) (omega arith)
          ∙ omega arith)

  feed_value :
      All IsByte front
      → byte < 128
      → feed (fed front) byte ≡ DecoderOutput.value (decoded (front ++ byte ∷ []))
  feed_value b lt = unfold feed in ground (arith, fed_room, push-fed, top_bit byte, fed_valid b lt)

  feed_more :
      IsContinuation byte
      → feed (fed front) byte ≡ DecoderOutput.needs_more_bytes (fed (front ++ byte ∷ []))
  feed_more c = unfold feed in ground (arith, fed_room, push-fed, top_bit byte)

feed_full :
    (front : List ℕ) (byte : ℕ)
    → length front ≡ 10
    → feed (fed front) byte ≡ DecoderOutput.out_of_range
unfolding feed fed
feed_full front byte h = ground (
  arith,
  length-append front (replicate (10 - length front) 0),
  length-replicate {A = ℕ} (10 - length front) 0,
)

module _ (d : Decoder) (byte : ℕ) (bytes : List ℕ) where
  loop_more :
      {d' : Decoder}
      → feed d byte ≡ DecoderOutput.needs_more_bytes d'
      → decode_loop d (byte ∷ bytes) ≡ decode_loop d' bytes
  unfolding decode_loop
  loop_more e = rw (e, decode_loop)

  loop_value :
      {v : ℕ} → feed d byte ≡ DecoderOutput.value v → decode_loop d (byte ∷ bytes) ≡ (ok v, bytes)
  unfolding decode_loop
  loop_value e = rw (e, decode_loop)

  loop_full :
      feed d byte ≡ DecoderOutput.out_of_range
      → decode_loop d (byte ∷ bytes) ≡ (err Error.out_of_range, bytes)
  unfolding decode_loop
  loop_full e = rw (e, decode_loop)

-- On bytes that all say that more follow, the loop reaches the decoder that holds them.
loop_continues :
    (front more rest : List ℕ)
    → length front + length more ≤ 10
    → All IsContinuation more
    → decode_loop (fed front) (more ++ rest) ≡ decode_loop (fed (front ++ more)) rest
loop_continues front [] rest h c = rw append-nil
loop_continues front (byte ∷ more) rest h c =
    loop_more _ byte (more ++ rest) (feed_more front byte (omega arith) c.0)
    ∙ loop_continues (front ++ byte ∷ []) more rest (omega (arith, length-snoc front byte)) c.1
    ∙ ap (λ xs. decode_loop (fed xs) rest) (append_assoc front (byte ∷ []) more)

All-IsByte : (bytes : List ℕ) → All IsContinuation bytes → All IsByte bytes
All-IsByte [] c = tt
All-IsByte (byte ∷ bytes) c = (c.0.1, All-IsByte bytes c.1)

decode-loop : (bytes : List ℕ) → decode bytes ≡ decode_loop (fed []) bytes
unfolding decode fed
decode-loop bytes = refl

module _ (front : List ℕ) (more : All IsContinuation front) where
  -- Up to nine bytes with the top bit set and one without it decode to the number that their groups
  -- of seven bits stand for, modulo 2 ^ 64, and the cursor stands behind them.
  pub decode_value :
      (byte : ℕ) (rest : List ℕ)
      → length front ≤ 9
      → byte < 128
      → decode (front ++ byte ∷ rest) ≡ (ok (decoded (front ++ byte ∷ [])), rest)
  decode_value byte rest h lt =
      decode-loop _
      ∙ loop_continues [] front (byte ∷ rest) (omega arith) more
      ∙ loop_value _ byte rest (feed_value front byte h (All-IsByte front more) lt)

  -- An eleventh byte behind ten with the top bit set is out of range; it is consumed.
  pub decode_out_of_range :
      (byte : ℕ) (rest : List ℕ)
      → length front ≡ 10
      → decode (front ++ byte ∷ rest) ≡ (err Error.out_of_range, rest)
  decode_out_of_range byte rest h =
      decode-loop _
      ∙ loop_continues [] front (byte ∷ rest) (omega arith) more
      ∙ loop_full _ byte rest (feed_full front byte h)

  -- Up to ten bytes with the top bit set, and nothing behind them, are too few.
  pub decode_truncated : length front ≤ 10 → decode front ≡ (err unexpected_end_of_input, [])
  decode_truncated h =
      ap decode (sym (append-nil front))
      ∙ decode-loop _
      ∙ loop_continues [] front [] (omega arith) more
      ∙ unfold decode_loop in refl
