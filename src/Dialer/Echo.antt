-- ===== src/Dialer/Echo.antt =====
-- What a dialer reads is what the listener wrote.
use polkadot_p2p_connect.Prelude.{
  ℕ, ◌+◌, ◌^◌, ◌<◌, ◌≡◌, ◌≢◌, ◌↔◌, refl, sym, ap, ◌∙◌, arith, inl, inr, Bool-cases, ltb, bytes_eq,
  bytes_eq_refl, bytes_eq→eq, List, [], ◌∷◌, ◌++◌, append_assoc, Option, none, some, Option-cases,
  length, replicate, take, length-append, take-append_length, drop-append_length,
}
use polkadot_p2p_connect.AsyncStream.{AsyncRead, arrived, logged}
use polkadot_p2p_connect.Varint.{encode_to_vec, decode}
use polkadot_p2p_connect.Varint
use polkadot_p2p_connect.Varint.RoundTrip.{decode-encode_to_vec}
use polkadot_p2p_connect.Varint.Stream.{decode_from_stream-ends, decode_from_stream-arrived}
use polkadot_p2p_connect.Multistreams.Next.{pop}
use polkadot_p2p_connect.Multistreams.Negotiation.{pop-some}
use polkadot_p2p_connect.Multistreams.{codes}
use polkadot_p2p_connect.Dialer.{
  multistream_header, max_msg_bytes, Result, err, varint, ok, encode_msg, strip_newline,
  read_payload, read_counted, read_msg, check_protocol, read_protocol, read_header, proposal,
  negotiate_dialer,
}

pop-snoc : (xs : List ℕ) (x : ℕ) → pop (xs ++ x ∷ []) ≡ some (xs, x)
unfolding pop
pop-snoc [] x = refl
pop-snoc (y ∷ []) x = refl
pop-snoc (y ∷ z ∷ xs) x = ground (arith, pop-snoc (z ∷ xs) x)

read_payload-line :
    (payload rest : List ℕ)
    → length payload < max_msg_bytes
    → read_payload arrived (length payload + 1) ((payload ++ b'\n' ∷ []) ++ rest)
      ≡ (ok payload, rest)
unfolding read_payload strip_newline
read_payload-line payload rest h =
    let line : length (payload ++ b'\n' ∷ []) ≡ length payload + 1 =
      length-append payload (b'\n' ∷ []) in
    rw
      (
        ← line,
        take-append_length (payload ++ b'\n' ∷ []) rest,
        drop-append_length (payload ++ b'\n' ∷ []) rest,
      )
      (ground (arith, line, length-append (payload ++ b'\n' ∷ []) rest, pop-snoc payload b'\n'))

-- A message of at most 16383 bytes and its newline is read as it was encoded, and what follows it is
-- left. Encoding appends to what the vector held.
pub read_msg-encode_msg :
    (payload out rest : List ℕ)
    → length payload < max_msg_bytes
    → (w : List ℕ) × (encode_msg payload out ≡ some (out ++ w))
      × (read_msg arrived (w ++ rest) ≡ some (ok payload, rest))
read_msg-encode_msg payload out rest h =
    let (w, writes, _, _, reads) =
      decode-encode_to_vec (length payload + 1) out ((payload ++ b'\n' ∷ []) ++ rest)
        (omega arith) in
    (
      w ++ (payload ++ b'\n' ∷ []),
      unfold encode_msg in rw (writes, append_assoc) refl,
      unfold read_msg read_counted in
          rw
            (
              append_assoc,
              decode_from_stream-arrived (w ++ ((payload ++ b'\n' ∷ []) ++ rest)),
              reads,
            )
            (ap some (read_payload-line payload rest h)),
    )

-- The encoding of a message does not depend on what the vector held.
encode_msg-append :
    (payload out : List ℕ)
    → length payload + 1 < 2 ^ 64
    → (w : List ℕ) × (encode_msg payload [] ≡ some w) × (encode_msg payload out ≡ some (out ++ w))
unfolding encode_msg encode_to_vec
encode_msg-append payload out h =
    let (w, writes, _, _, _) = decode-encode_to_vec (length payload + 1) [] [] h in
    elim (Option-cases (Varint.encode (length payload + 1) (replicate 10 0))) [
      | inl panics ↦ absurd (ground (arith, writes))
      | inr ((buf, n), e) ↦ (
        take n buf ++ (payload ++ b'\n' ∷ []),
        rw e refl,
        rw e (ap some (append_assoc out (take n buf) (payload ++ b'\n' ∷ []))),
      )
    ]

check_protocol-ok :
    (protocol answer : List ℕ)
    → (check_protocol protocol answer ≡ ok tt) ↔ ((answer ≡ protocol) × (protocol ≢ codes "na"))
unfolding check_protocol
check_protocol-ok protocol answer = (
  λ e. elim (Bool-cases (bytes_eq answer (codes "na"))) [
    | inl na ↦ absurd (ground arith)
    | inr other ↦ elim (Bool-cases (bytes_eq answer protocol)) [
      | inl same ↦
          let eq : answer ≡ protocol = bytes_eq→eq answer protocol same in
          (eq, λ is_na. cc (eq ∙ is_na, other, bytes_eq_refl (codes "na")))
      | inr different ↦ absurd (ground arith)
    ]
  ],
  λ (eq, not_na). elim (Bool-cases (bytes_eq answer (codes "na"))) [
    | inl na ↦ absurd (not_na (sym eq ∙ bytes_eq→eq answer (codes "na") na))
    | inr other ↦ rw (other, eq, bytes_eq_refl protocol) refl
  ],
)

proposal_lem :
    (protocol w1 w3 : List ℕ)
    → encode_msg multistream_header [] ≡ some w1
    → encode_msg protocol w1 ≡ some (w1 ++ w3)
    → proposal protocol ≡ some (w1 ++ w3)
unfolding proposal
proposal_lem protocol w1 w3 e e' = rw (e, e', proposal) refl

negotiate_lem :
    (protocol answer rest msgs r r1 : List ℕ) (log : List (List ℕ))
    → proposal protocol ≡ some msgs
    → read_msg arrived r ≡ some (ok multistream_header, r1)
    → read_msg arrived r1 ≡ some (ok answer, rest)
    → negotiate_dialer arrived logged r log protocol
      ≡ some (check_protocol protocol answer, rest, log ++ msgs ∷ [])
unfolding read_header read_protocol negotiate_dialer check_protocol
negotiate_lem protocol answer rest msgs r r1 log e e1 e2 = rw (e, e1, e2, negotiate_dialer) refl

-- The remote sends its header and any answer of at most 16383 bytes. The dialer makes one write, of the
-- encoded header and the encoded protocol behind it, reads just these two messages, and the result is
-- success exactly when the answer is the protocol that was proposed and is not `na`.
pub negotiate_dialer-answer :
    (protocol answer rest : List ℕ) (log : List (List ℕ))
    → length protocol + 1 < 2 ^ 64
    → length answer < max_msg_bytes
    → (w1 : List ℕ) × (w2 : List ℕ) × (w3 : List ℕ) × (result : Result (Unit {0})) × (encode_msg
          multistream_header []
        ≡ some w1)
      × (encode_msg answer [] ≡ some w2)
      × (encode_msg protocol [] ≡ some w3)
      × (negotiate_dialer arrived logged (w1 ++ (w2 ++ rest)) log protocol
          ≡ some (result, rest, log ++ (w1 ++ w3) ∷ []))
      × ((result ≡ ok tt) ↔ ((answer ≡ protocol) × (protocol ≢ codes "na")))
negotiate_dialer-answer protocol answer rest log h h' =
    let (w2, writes2, reads2) = read_msg-encode_msg answer [] rest h' in
    let (w1, writes1, reads1) =
      read_msg-encode_msg multistream_header [] (w2 ++ rest) (omega arith) in
    let (w3, writes3, behind) = encode_msg-append protocol w1 h in
    (
      w1,
      w2,
      w3,
      check_protocol protocol answer,
      writes1,
      writes2,
      writes3,
      negotiate_lem protocol answer rest (w1 ++ w3) (w1 ++ (w2 ++ rest)) (w2 ++ rest) log
          (proposal_lem protocol w1 w3 writes1 behind) reads1 reads2,
      check_protocol-ok protocol answer,
    )

strip_newline-ok :
    (o : Option (List ℕ × ℕ)) (payload : List ℕ)
    → strip_newline o ≡ ok payload
    → (last : ℕ) × (o ≡ some (payload, last))
unfolding strip_newline
strip_newline-ok none payload e = absurd (ground arith)
strip_newline-ok (some (buf, last)) payload e = (last, ground arith)

read_payload-bounded :
    (io : AsyncRead) (n : ℕ) (r : io.Reader) (payload : List ℕ)
    → (read_payload io n r).0 ≡ ok payload
    → length payload < max_msg_bytes
unfolding read_payload
read_payload-bounded io n r payload e = elim (Bool-cases (ltb max_msg_bytes n)) [
  | inl large ↦ absurd (ground arith)
  | inr small ↦ elim (Option-cases (io.read_exact n r)) [
    | inl failed ↦ absurd (ground arith)
    | inr ((buf, r'), read) ↦
        let (last, popped) = strip_newline-ok (pop buf) payload (ground arith) in
        ground (
          arith,
          io.fills n r buf r' read,
          pop-some buf payload last popped,
          length-append payload (last ∷ []),
        )
  ]
]

read_counted-bounded :
    (io : AsyncRead) (counted : Varint.Result ℕ × io.Reader)
    → (result : Result (List ℕ)) × (r' : io.Reader) × (read_counted io (some counted)
        ≡ some (result, r'))
      × ((payload : List ℕ) → result ≡ ok payload → length payload < max_msg_bytes)
unfolding read_counted
read_counted-bounded io (Varint.err e, r) =
    (err (varint e), r, refl, λ payload same. absurd (ground arith))
read_counted-bounded io (Varint.ok n, r) = (
  (read_payload io n r).0,
  (read_payload io n r).1,
  refl,
  λ payload same. read_payload-bounded io n r payload same,
)

-- Reading a message ends, whatever the reader gives, and a message that is read has at most 16383
-- bytes.
pub read_msg-bounded :
    (io : AsyncRead) (r : io.Reader)
    → (result : Result (List ℕ)) × (r' : io.Reader) × (read_msg io r ≡ some (result, r'))
      × ((payload : List ℕ) → result ≡ ok payload → length payload < max_msg_bytes)
unfolding read_msg
read_msg-bounded io r =
    let (counted, reads) = decode_from_stream-ends io r in
    let (result, r', e, bounded) = read_counted-bounded io counted in
    (result, r', rw reads e, bounded)
