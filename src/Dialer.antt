-- ===== src/Dialer.antt =====
-- layers/multistream.rs: the negotiation of a dialer. A string is the list of its bytes; those in an
-- error are as they were received (`from_utf8_lossy` only changes how they are shown).
pub mod Echo
use Prim.Native.Char.{code}
use polkadot_p2p_connect.Prelude.{
  ℕ, ◌+◌, Bool, true, false, if◌then◌else◌, ltb, ◌==◌, bytes_eq, List, [], ◌∷◌, ◌++◌, Option, none,
  some, length,
}
use mathlib.Core.Option
use polkadot_p2p_connect.AsyncStream.{AsyncRead, AsyncWrite}
use polkadot_p2p_connect.Varint
use polkadot_p2p_connect.Varint.{encode_to_vec}
use polkadot_p2p_connect.Varint.Stream.{decode_from_stream}
use polkadot_p2p_connect.Multistreams.{codes}
use polkadot_p2p_connect.Multistreams.Next.{pop}

-- `MULTISTREAM_HEADER`
abbrev pub multistream_header : List ℕ
multistream_header = codes "/multistream/1.0.0"

-- `MULTISTREAM_MAX_MSG_BYTES`
abbrev pub max_msg_bytes : ℕ
max_msg_bytes = 16384

pub data Error : Type 0 where
  async_read async_write : Error
  varint : Varint.Error → Error
  message_too_large : ℕ → Error
  message_must_end_in_newline : List ℕ → Error
  bad_multistream_header : List ℕ → Error
  multistream_not_supported : Error
  unexpected_response proposed_protocol_is_not_utf8 protocol_not_supported : List ℕ → Error

pub data Result {ℓ} (A : Type ℓ) : Type ℓ where
  ok : A → Result A
  err : Error → Result A

-- `none` is a panic of `encode_to_vec`.
unfoldable pub encode_msg : List ℕ → List ℕ → Option (List ℕ)
encode_msg payload out =
    Option.map (λ buf. buf ++ (payload ++ b'\n' ∷ [])) (encode_to_vec (length payload + 1) out)

-- The message without its newline.
unfoldable pub strip_newline : Option (List ℕ × ℕ) → Result (List ℕ)
strip_newline none = err (message_must_end_in_newline [])
strip_newline (some (buf, last_byte)) =
    if last_byte == b'\n' then ok buf else err (message_must_end_in_newline buf)

module _ (io : AsyncRead) where
  open io use {Reader, read_exact}

  unfoldable pub read_payload : ℕ → Reader → Result (List ℕ) × Reader
  read_payload n r =
      if ltb max_msg_bytes n then (err (message_too_large n), r) else elim (read_exact n r) [
        | none ↦ (err async_read, r)
        | some (buf, r') ↦ (strip_newline (pop buf), r')
      ]

  unfoldable pub read_counted :
      Option (Varint.Result ℕ × Reader) → Option (Result (List ℕ) × Reader)
  read_counted none = none
  read_counted (some (Varint.err e, r)) = some (err (varint e), r)
  read_counted (some (Varint.ok n, r)) = some (read_payload n r)

  -- `none` is that the rounds of `decode_from_stream` are not enough.
  unfoldable pub read_msg : Reader → Option (Result (List ℕ) × Reader)
  read_msg r = read_counted (decode_from_stream io r)

-- What the echo of the protocol says.
unfoldable pub check_protocol : List ℕ → List ℕ → Result (Unit {0})
check_protocol protocol resp =
    if bytes_eq resp (codes "na")
    then err multistream_not_supported
    else if bytes_eq resp protocol
    then ok tt
    else err (unexpected_response resp)

module _ (io : AsyncRead) where
  open io use {Reader}

  unfoldable pub read_protocol :
      List ℕ → Option (Result (List ℕ) × Reader) → Option (Result (Unit {0}) × Reader)
  read_protocol protocol none = none
  read_protocol protocol (some (err e, r)) = some (err e, r)
  read_protocol protocol (some (ok resp, r)) = some (check_protocol protocol resp, r)

  unfoldable pub read_header :
      List ℕ → Option (Result (List ℕ) × Reader) → Option (Result (Unit {0}) × Reader)
  read_header protocol none = none
  read_header protocol (some (err e, r)) = some (err e, r)
  read_header protocol (some (ok resp, r)) =
      if bytes_eq resp multistream_header
      then read_protocol protocol (read_msg io r)
      else some (err (bad_multistream_header resp), r)

-- The header and the proposal, in one write.
unfoldable pub proposal : List ℕ → Option (List ℕ)
proposal protocol = elim (encode_msg multistream_header []) [
  | none ↦ none
  | some msgs ↦ encode_msg protocol msgs
]

-- The result with what is left of the reader and the writer; `none` is a panic of `encode_to_vec`.
unfoldable pub negotiate_dialer :
    (io : AsyncRead) (out : AsyncWrite)
    → io.Reader
    → out.Writer
    → List ℕ
    → Option (Result (Unit {0}) × io.Reader × out.Writer)
negotiate_dialer io out r w protocol = elim (proposal protocol) [
  | none ↦ none
  | some msgs ↦ elim (out.write_all msgs w) [
    | none ↦ some (err async_write, r, w)
    | some w' ↦ elim (read_header io protocol (read_msg io r)) [
      | none ↦ none
      | some (result, r') ↦ some (result, r', w')
    ]
  ]
]
