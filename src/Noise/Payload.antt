-- ===== src/Noise/Payload.antt =====
-- layers/noise.rs: `NoiseHandshakePayload`. The borrowed slices of the visitors are lists; the bytes
-- that the errors carry for their messages are left out.
use polkadot_p2p_connect.Prelude.{
  ℕ, if◌then◌else◌, ◌==◌, ◌>>=◌, List, ◌++◌, Option, none, some, length, take, replicate,
}
use polkadot_p2p_connect.Protobuf.{Encoder, encode, num_encoded, encode_varint, encode_data}
use polkadot_p2p_connect.Protobuf.Decode.{Error, Visitor, Status, finished, more, failed, decode}

pub record NoiseHandshakePayload : Type 0 where
  pub key : List ℕ
  pub signature : List ℕ

pub data PayloadError : Type 0 where
  protobuf : Error → PayloadError
  invalid_noise_payload invalid_key : PayloadError
  invalid_key_length invalid_signature_length : ℕ → PayloadError

pub data Result {ℓ} (A : Type ℓ) : Type ℓ where
  ok : A → Result A
  err : PayloadError → Result A

-- The bytes of the slice that were encoded: `buf[..num_encoded]`.
abbrev pub encoded : Encoder → List ℕ
encoded e = take (num_encoded e) (e.written ++ e.out)

unfoldable pub encode_key : List ℕ → List ℕ → Option Encoder
encode_key key buf = do e ← encode_varint 1 1 (encode buf); encode_data 2 key e

unfoldable pub encode_payload : List ℕ → List ℕ → List ℕ → Option Encoder
encode_payload encoded_key signature out = do
  e ← encode_data 1 encoded_key (encode out)
  encode_data 2 signature e

-- The encoder at the end of `to_protobuf`, whose result is its `num_encoded`. A panic is `none`.
unfoldable pub to_protobuf : NoiseHandshakePayload → List ℕ → Option Encoder
unfolding encode_key encode_payload
to_protobuf p out = do
  k ← encode_key p.key (replicate 128 0)
  encode_payload (encoded k) p.signature out

pub record NoiseFields : Type 0 where
  pub identity_key : Option (List ℕ)
  pub identity_sig : Option (List ℕ)

abbrev pub noise_visitor : Visitor
noise_visitor = record {
  State = NoiseFields;
  varint = λ id n st. st;
  i64 = λ id bytes st. st;
  i32 = λ id bytes st. st;
  bytes = λ id bytes st.
      if id == 1
      then record st { identity_key = some bytes }
      else (if id == 2 then record st { identity_sig = some bytes } else st);
}

abbrev no_key : List ℕ → Option (List ℕ) → Result (List ℕ × List ℕ)
no_key signature none = err invalid_noise_payload
no_key signature (some key) = ok (key, signature)

unfoldable pub check_payload : NoiseFields → Result (List ℕ × List ℕ)
check_payload st = elim st.identity_sig [
  | none ↦ err invalid_noise_payload
  | some signature ↦
      if length signature == 64
      then no_key signature st.identity_key
      else err (invalid_signature_length (length signature))
]

-- `decode` ends, with an error or without.
abbrev pub after_decode {ℓ κ} :
    {A : Type ℓ} {State : Type κ} → (State → Result A) → (State × List ℕ) × Status → Result A
after_decode check ((st, rest), failed e) = err (protobuf e)
after_decode check ((st, rest), finished) = check st
after_decode check ((st, rest), more) = check st

unfoldable pub decode_outer_noise_payload_protobuf : List ℕ → Result (List ℕ × List ℕ)
unfolding check_payload
decode_outer_noise_payload_protobuf data_bytes =
    after_decode check_payload
      (decode noise_visitor data_bytes (record { identity_key = none; identity_sig = none }))

pub record KeyFields : Type 0 where
  pub ty : Option ℕ
  pub value : Option (List ℕ)

abbrev pub key_visitor : Visitor
key_visitor = record {
  State = KeyFields;
  varint = λ id n st. if id == 1 then record st { ty = some n } else st;
  i64 = λ id bytes st. st;
  i32 = λ id bytes st. st;
  bytes = λ id bytes st. if id == 2 then record st { value = some bytes } else st;
}

abbrev check_type : Option ℕ → Option (List ℕ) → Result (List ℕ)
check_type none _ = err invalid_key
check_type (some ty) none = err invalid_key
check_type (some ty) (some key_data) =
    if ty == 1
    then (if length key_data == 32 then ok key_data else err (invalid_key_length (length key_data)))
    else err invalid_key

unfoldable pub check_key : KeyFields → Result (List ℕ)
check_key st = check_type st.ty st.value

unfoldable pub decode_ed25519_public_key_protobuf : List ℕ → Result (List ℕ)
unfolding check_key
decode_ed25519_public_key_protobuf data_bytes =
    after_decode check_key (decode key_visitor data_bytes (record { ty = none; value = none }))

abbrev with_signature : List ℕ → Result (List ℕ) → Result NoiseHandshakePayload
with_signature signature (err e) = err e
with_signature signature (ok key) = ok (record { key = key; signature = signature })

abbrev with_key : Result (List ℕ × List ℕ) → Result NoiseHandshakePayload
with_key (err e) = err e
with_key (ok (key, signature)) = with_signature signature (decode_ed25519_public_key_protobuf key)

unfoldable pub from_protobuf : List ℕ → Result NoiseHandshakePayload
unfolding decode_outer_noise_payload_protobuf
from_protobuf bytes = with_key (decode_outer_noise_payload_protobuf bytes)
