-- ===== src/Examples/Dialing.antt =====
-- A dialer that reads from arrived bytes.
use polkadot_p2p_connect.Prelude.{ℕ, ◌<◌, ◌≡◌, ◌≢◌, ◌↔◌, arith, List, [], ◌∷◌, ◌++◌, some, length}
use polkadot_p2p_connect.AsyncStream.{arrived, logged}
use polkadot_p2p_connect.Varint
use polkadot_p2p_connect.Varint.Stream.{
  decode_from_stream, from_stream, decode_from_stream-ends, decode_from_stream-arrived,
}
use polkadot_p2p_connect.Multistreams.{codes}
use polkadot_p2p_connect.Dialer.{
  Result, ok, multistream_header, max_msg_bytes, encode_msg, read_msg, negotiate_dialer,
}
use polkadot_p2p_connect.Dialer.Echo.{
  read_msg-encode_msg, negotiate_dialer-answer, read_msg-bounded,
}

abbrev noise : List ℕ
noise = codes "/noise"

decode_from_stream-ends_example :
    (result : Varint.Result ℕ × List ℕ) × (decode_from_stream arrived (0xac ∷ 2 ∷ []) ≡ some result)
decode_from_stream-ends_example = decode_from_stream-ends arrived (0xac ∷ 2 ∷ [])

decode_from_stream-arrived_example :
    decode_from_stream arrived (0xac ∷ 2 ∷ []) ≡ some (from_stream (Varint.decode (0xac ∷ 2 ∷ [])))
decode_from_stream-arrived_example = decode_from_stream-arrived (0xac ∷ 2 ∷ [])

read_msg-encode_msg_example :
    (w : List ℕ) × (encode_msg noise (1 ∷ []) ≡ some (1 ∷ w))
    × (read_msg arrived (w ++ 9 ∷ []) ≡ some (ok noise, 9 ∷ []))
read_msg-encode_msg_example = read_msg-encode_msg noise (1 ∷ []) (9 ∷ []) (omega arith)

negotiate_dialer-answer_example :
    (w1 : List ℕ) × (w2 : List ℕ) × (w3 : List ℕ) × (result : Result (Unit {0})) × (encode_msg
        multistream_header []
      ≡ some w1)
    × (encode_msg noise [] ≡ some w2)
    × (encode_msg noise [] ≡ some w3)
    × (negotiate_dialer arrived logged (w1 ++ (w2 ++ 9 ∷ [])) [] noise
        ≡ some (result, 9 ∷ [], (w1 ++ w3) ∷ []))
    × ((result ≡ ok tt) ↔ ((noise ≡ noise) × (noise ≢ codes "na")))
negotiate_dialer-answer_example =
    negotiate_dialer-answer noise noise (9 ∷ []) [] (omega arith) (omega arith)

read_msg-bounded_example :
    (result : Result (List ℕ)) × (r' : List ℕ) × (read_msg arrived (2 ∷ 97 ∷ 10 ∷ [])
      ≡ some (result, r'))
    × ((payload : List ℕ) → result ≡ ok payload → length payload < max_msg_bytes)
read_msg-bounded_example = read_msg-bounded arrived (2 ∷ 97 ∷ 10 ∷ [])
