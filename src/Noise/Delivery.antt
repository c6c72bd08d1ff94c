-- ===== src/Noise/Delivery.antt =====
-- layers/noise.rs: what is written to a noise stream arrives at the other end.
use polkadot_p2p_connect.Prelude.{
  ℕ, zero, suc, ◌+◌, ◌-◌, ◌*◌, ◌≤◌, ◌≡◌, refl, sym, ap, subst, ◌∙◌, arith, List, [], ◌∷◌, ◌++◌,
  append_assoc, append-nil, some, length, take, drop, min, length-append, length-take, length-drop,
  take-append-drop, All,
}
use polkadot_p2p_connect.AsyncStream.{arrived, collected, read_exact-arrived}
use polkadot_p2p_connect.Noise.Frames.{
  max_noise_msg, max_plaintext, Transport, frame, u16_to_be_bytes, u16_from_be_bytes, sent,
  send_frame, recv_frame, NoiseReadStream, chunks, got, write_chunk, write_chunks, write_all,
  refill, read_loop,
}

abbrev pub concat : List (List ℕ) → List ℕ
concat [] = []
concat (c ∷ cs) = c ++ concat cs

abbrev IsChunk : ℕ → List ℕ → Type 0
IsChunk n c = (1 ≤ length c) × (length c ≤ n)

concat-chunks :
    (k n : ℕ) (bytes : List ℕ) → 1 ≤ n → length bytes ≤ k → concat (chunks k n bytes) ≡ bytes
unfolding chunks
concat-chunks zero n [] h le = refl
concat-chunks zero n (byte ∷ bytes) h le = absurd (omega arith)
concat-chunks (suc k) n [] h le = refl
concat-chunks (suc k) n (byte ∷ bytes) h le =
    rw (concat-chunks k n (drop n (byte ∷ bytes)) h (omega (arith, length-drop n (byte ∷ bytes))))
      (take-append-drop n (byte ∷ bytes))

chunks-IsChunk : (k n : ℕ) (bytes : List ℕ) → 1 ≤ n → All (IsChunk n) (chunks k n bytes)
unfolding chunks
chunks-IsChunk zero n bytes h = tt
chunks-IsChunk (suc k) n [] h = tt
chunks-IsChunk (suc k) n (byte ∷ bytes) h = (
  (omega (arith, length-take n (byte ∷ bytes)), omega (arith, length-take n (byte ∷ bytes))),
  chunks-IsChunk k n (drop n (byte ∷ bytes)) h,
)

-- A frame that arrived is read.
recv_frame-frame :
    (bytes rest : List ℕ)
    → length bytes ≤ max_noise_msg
    → recv_frame arrived (frame bytes ++ rest) ≡ some (bytes, rest)
unfolding recv_frame
recv_frame-frame bytes rest h =
    let len_buf = u16_to_be_bytes (length bytes) in
    let len : length bytes ≡ u16_from_be_bytes len_buf = omega arith in
    rw (read_exact-arrived 2 len_buf (bytes ++ rest) refl, recv_frame)
      (read_exact-arrived (u16_from_be_bytes len_buf) bytes rest len)

-- The transport states of the two ends of a session: what one end encrypts, up to the longest message,
-- fits a frame, and the other end decrypts it, if it has decrypted all that was encrypted before.
pub record InSync (T : Transport) : Type 1 where
  pub Sync : T.State → T.State → Type 0
  pub delivers :
      (plain : List ℕ) (s r : T.State)
      → length plain ≤ max_plaintext
      → Sync s r
      → (encrypted : List ℕ) × (s' : T.State) × (r' : T.State) × (T.write_message plain s
          ≡ some (encrypted, s'))
        × (length encrypted ≤ max_noise_msg)
        × (T.read_message encrypted r ≡ some (plain, r'))
        × Sync s' r'

take_all : (xs : List ℕ) → take (length xs) xs ≡ xs
take_all [] = refl
take_all (x ∷ xs) = ap (◌∷◌ x) (take_all xs)

drop_all : (xs : List ℕ) → drop (length xs) xs ≡ []
drop_all [] = refl
drop_all (x ∷ xs) = drop_all xs

abbrev Stream : Transport → Type 0
Stream T = NoiseReadStream T (List ℕ)

module _ (T : Transport) where
  -- The bytes of a chunk that the buffer holds are read in one round.
  buffered-read :
      (rounds need k byte : ℕ) (chunk out reader : List ℕ) (r : T.State) (end : Stream T)
      → suc k ≡ length (byte ∷ chunk) + need
      → read_loop T arrived rounds need (record { reader = reader; read_buf = []; transport = r })
        ≡ got out end
      → read_loop T arrived
          (suc rounds)
          (suc k)
          (record { reader = reader; read_buf = byte ∷ chunk; transport = r })
        ≡ got (byte ∷ chunk ++ out) end
  unfolding read_loop
  buffered-read rounds need k byte chunk out reader r end total e =
      let whole : min (length (byte ∷ chunk)) (suc k) ≡ length (byte ∷ chunk) = omega arith in
      let rest : suc k - length (byte ∷ chunk) ≡ need = omega arith in
      rw (whole, rest, take_all (byte ∷ chunk), drop_all (byte ∷ chunk), e) refl

  refill-frame :
      (chunk encrypted wire : List ℕ) (r r' : T.State)
      → length encrypted ≤ max_noise_msg
      → T.read_message encrypted r ≡ some (chunk, r')
      → refill T arrived (record { reader = frame encrypted ++ wire; read_buf = []; transport = r })
        ≡ some (record { reader = wire; read_buf = chunk; transport = r' })
  unfolding refill
  refill-frame chunk encrypted wire r r' fits decrypts =
      rw (recv_frame-frame encrypted wire fits, refill) (rw decrypts refl)

  -- A frame on the wire is read in two rounds, when the buffer is empty.
  frame-read :
      (rounds need total : ℕ) (chunk out encrypted wire : List ℕ) (r r' : T.State) (end : Stream T)
      → 1 ≤ length chunk
      → total ≡ length chunk + need
      → length encrypted ≤ max_noise_msg
      → T.read_message encrypted r ≡ some (chunk, r')
      → read_loop T arrived rounds need (record { reader = wire; read_buf = []; transport = r' })
        ≡ got out end
      → read_loop T arrived
          (suc (suc rounds))
          total
          (record { reader = frame encrypted ++ wire; read_buf = []; transport = r })
        ≡ got (chunk ++ out) end
  unfolding read_loop
  frame-read rounds need total [] out encrypted wire r r' end some_byte is_total fits decrypts e =
      absurd (omega arith)
  frame-read rounds need zero (byte ∷ chunk) out encrypted wire r r' end some_byte is_total fits
        decrypts e =
      absurd (omega arith)
  frame-read rounds need (suc k) (byte ∷ chunk) out encrypted wire r r' end some_byte is_total fits
        decrypts e =
      rw (refill-frame (byte ∷ chunk) encrypted wire r r' fits decrypts, read_loop)
        (buffered-read rounds need k byte chunk out wire r' end is_total e)

-- The chunks are sent as frames behind what was sent before, and a reader of these frames, whose buffer
-- is empty, reads the chunks in two rounds each.
module _ {T : Transport} (law : InSync T) where
  abbrev Delivered : List (List ℕ) → List ℕ → T.State → T.State → Type 0
  Delivered cs w s r =
      (wire : List ℕ) × (s' : T.State) × (r' : T.State) × (write_chunks T collected cs
          (record { writer = w; transport = s })
        ≡ sent (record { writer = w ++ wire; transport = s' }))
      × ((more : List ℕ) (extra : ℕ)
          → read_loop T arrived (length cs * 2 + extra) (length (concat cs))
              (record { reader = wire ++ more; read_buf = []; transport = r })
            ≡ got (concat cs) (record { reader = more; read_buf = []; transport = r' }))
      × law.Sync s' r'

  write_chunk-frame :
      (chunk encrypted w : List ℕ) (s s' : T.State)
      → T.write_message chunk s ≡ some (encrypted, s')
      → length encrypted ≤ max_noise_msg
      → write_chunk T collected chunk (record { writer = w; transport = s })
        ≡ sent (record { writer = w ++ frame encrypted; transport = s' })
  unfolding write_chunk send_frame
  write_chunk-frame chunk encrypted w s s' encrypts fits = rw (encrypts, write_chunk) (ground arith)

  write_chunks-Delivered :
      (cs : List (List ℕ)) (w : List ℕ) (s r : T.State)
      → All (IsChunk max_plaintext) cs
      → law.Sync s r
      → Delivered cs w s r
  unfolding write_chunks read_loop
  write_chunks-Delivered [] w s r h sync = (
    [],
    s,
    r,
    ap (λ t. sent (record { writer = t; transport = s })) (sym (append-nil w)),
    λ more extra. refl,
    sync,
  )
  write_chunks-Delivered (c ∷ cs) w s r ((some_byte, small), h) sync =
      let (encrypted, s', r', encrypts, fits, decrypts, sync') = law.delivers c s r small sync in
      let (wire, s'', r'', writes, reads, sync'') =
        write_chunks-Delivered cs (w ++ frame encrypted) s' r' h sync' in
      (
        frame encrypted ++ wire,
        s'',
        r'',
        rw (write_chunk-frame c encrypted w s s' encrypts fits, write_chunks)
            (writes
              ∙ ap (λ t. sent (record { writer = t; transport = s'' }))
                  (append_assoc w (frame encrypted) wire)),
        λ more extra.
            let fuel : length (c ∷ cs) * 2 + extra ≡ suc (suc (length cs * 2 + extra)) =
              omega arith in
            rw (fuel, append_assoc (frame encrypted) wire more)
              (frame-read T (length cs * 2 + extra) (length (concat cs)) (length (c ++ concat cs)) c
                (concat cs) encrypted (wire ++ more) r r'
                (record { reader = more; read_buf = []; transport = r'' }) some_byte
                (length-append c (concat cs)) fits decrypts (reads more extra)),
        sync'',
      )

  -- Through transport states that are in sync, into a writer that takes all and out of a reader of the
  -- bytes that arrive: `write_all` of any data succeeds and sends frames behind what was sent before, and
  -- the other end, whose buffer is empty, reads the data back from them with `read_exact`, in two rounds
  -- of its loop for each chunk of 65519 bytes, and leaves what arrived behind them. The transport states
  -- are in sync again, so the next data is delivered in the same way.
  pub read_loop-write_all :
      (bytes w : List ℕ) (s r : T.State)
      → law.Sync s r
      → (wire : List ℕ) × (s' : T.State) × (r' : T.State) × (write_all T collected bytes
            (record { writer = w; transport = s })
          ≡ sent (record { writer = w ++ wire; transport = s' }))
        × ((more : List ℕ) (extra : ℕ)
            → read_loop T arrived
                (length (chunks (length bytes) max_plaintext bytes) * 2 + extra)
                (length bytes)
                (record { reader = wire ++ more; read_buf = []; transport = r })
              ≡ got bytes (record { reader = more; read_buf = []; transport = r' }))
        × law.Sync s' r'
  unfolding write_all
  read_loop-write_all bytes w s r sync =
      let cs = chunks (length bytes) max_plaintext bytes in
      let whole : concat cs ≡ bytes =
        concat-chunks (length bytes) max_plaintext bytes (omega arith) (omega arith) in
      let (wire, s', r', writes, reads, sync') =
        write_chunks-Delivered cs w s r
          (chunks-IsChunk (length bytes) max_plaintext bytes (omega arith)) sync in
      (
        wire,
        s',
        r',
        writes,
        λ more extra.
            subst
              (λ data_bytes.
                read_loop T arrived (length cs * 2 + extra) (length data_bytes)
                  (record { reader = wire ++ more; read_buf = []; transport = r })
                ≡ got data_bytes (record { reader = more; read_buf = []; transport = r' }))
              whole (reads more extra),
        sync',
      )
