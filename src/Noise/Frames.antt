-- ===== src/Noise/Frames.antt =====
-- layers/noise.rs: frames with a length of two bytes, big-endian, and the two streams of the encrypted
-- session over them. `Transport` is `snow::TransportState`, of which each end has one.

use polkadot_p2p_connect.Prelude.{
  ℕ, zero, suc, ◌+◌, ◌-◌, ◌*◌, ◌/◌, ◌%◌, ◌^◌, if◌then◌else◌, leb, ◌>>=◌, List, [], ◌∷◌, ◌++◌,
  Option, none, some, length, take, drop, min, get_or,
}
use polkadot_p2p_connect.AsyncStream.{AsyncRead, AsyncWrite}

abbrev pub max_noise_msg : ℕ
max_noise_msg = 65535

abbrev pub max_plaintext : ℕ
max_plaintext = 65519

-- What is used of a transport state; `none` is an error, as of a message that is too long.
pub record Transport : Type 1 where
  pub State : Type 0
  pub write_message : List ℕ → State → Option (List ℕ × State)
  pub read_message : List ℕ → State → Option (List ℕ × State)

-- `(len as u16).to_be_bytes()`
abbrev pub u16_to_be_bytes : ℕ → List ℕ
u16_to_be_bytes len = (len % 2 ^ 16 / 256) ∷ (len % 256) ∷ []

abbrev pub u16_from_be_bytes : List ℕ → ℕ
u16_from_be_bytes bytes = get_or bytes 0 0 * 256 + get_or bytes 1 0

-- The bytes that `send_frame` writes, from its own buffer; a frame that does not fit is a panic.
abbrev pub frame : List ℕ → List ℕ
frame bytes = u16_to_be_bytes (length bytes) ++ bytes

pub data Sent {ℓ} (W : Type ℓ) : Type ℓ where
  sent : W → Sent W
  write_failed panicked : Sent W

module _ (io : AsyncWrite) where
  open io use {Writer, write_all}

  abbrev written : Option Writer → Sent Writer
  written none = write_failed
  written (some w) = sent w

  unfoldable pub send_frame : List ℕ → Writer → Sent Writer
  send_frame bytes w =
      if leb (length bytes) max_noise_msg then written (write_all (frame bytes) w) else panicked

module _ (io : AsyncRead) where
  open io use {Reader, read_exact}

  -- The content of a frame. Its length is below 2 ^ 16, so it fits the buffer.
  unfoldable pub recv_frame : Reader → Option (List ℕ × Reader)
  recv_frame r = do (len_buf, r') ← read_exact 2 r; read_exact (u16_from_be_bytes len_buf) r'

module _ (T : Transport) where
  pub record NoiseWriteStream (W : Type 0) : Type 0 where
    pub writer : W
    pub transport : T.State

  pub record NoiseReadStream (R : Type 0) : Type 0 where
    pub reader : R
    pub read_buf : List ℕ
    pub transport : T.State

-- `data.chunks(n)`, of which there are at most as many as bytes.
unfoldable pub chunks : ℕ → ℕ → List ℕ → List (List ℕ)
chunks zero n bytes = []
chunks (suc k) n [] = []
chunks (suc k) n (byte ∷ bytes) = take n (byte ∷ bytes) ∷ chunks k n (drop n (byte ∷ bytes))

-- The end of `read_exact`; `waiting` is that the rounds were not enough. After a failure the stream is
-- not used again.
pub data Read {ℓ} (R : Type ℓ) : Type ℓ where
  got : List ℕ → R → Read R
  read_failed waiting : Read R

abbrev pub prepend {ℓ} : {R : Type ℓ} → List ℕ → Read R → Read R
prepend bytes (got more r) = got (bytes ++ more) r
prepend bytes read_failed = read_failed
prepend bytes waiting = waiting

module _ (T : Transport) (io : AsyncWrite) where
  unfoldable pub write_chunk :
      List ℕ → NoiseWriteStream T io.Writer → Sent (NoiseWriteStream T io.Writer)
  unfolding send_frame
  write_chunk chunk s = elim (T.write_message chunk s.transport) [
    | none ↦ write_failed
    | some (encrypted, transport) ↦ elim (send_frame io encrypted s.writer) [
      | sent w ↦ sent (record { writer = w; transport = transport })
      | write_failed ↦ write_failed
      | panicked ↦ panicked
    ]
  ]

  unfoldable pub write_chunks :
      List (List ℕ) → NoiseWriteStream T io.Writer → Sent (NoiseWriteStream T io.Writer)
  unfolding write_chunk
  write_chunks [] s = sent s
  write_chunks (chunk ∷ rest) s = elim (write_chunk chunk s) [
    | sent s' ↦ write_chunks rest s'
    | write_failed ↦ write_failed
    | panicked ↦ panicked
  ]

  unfoldable pub write_all :
      List ℕ → NoiseWriteStream T io.Writer → Sent (NoiseWriteStream T io.Writer)
  unfolding write_chunks chunks
  write_all bytes s = write_chunks (chunks (length bytes) max_plaintext bytes) s

module _ (T : Transport) (io : AsyncRead) where
  -- Another frame of the wire, when the buffer is empty.
  unfoldable pub refill : NoiseReadStream T io.Reader → Option (NoiseReadStream T io.Reader)
  unfolding recv_frame
  refill s = do
    (encrypted, r) ← recv_frame io s.reader
    (plain, transport) ← T.read_message encrypted s.transport
    some (record { reader = r; read_buf = plain; transport = transport })

  -- The loop of `read_exact`, with `need` bytes missing, on a number of rounds.
  unfoldable pub read_loop :
      ℕ → ℕ → NoiseReadStream T io.Reader → Read (NoiseReadStream T io.Reader)
  unfolding refill
  read_loop rounds zero s = got [] s
  read_loop zero (suc need) s = waiting
  read_loop (suc rounds) (suc need) s = elim s.read_buf [
    | byte ∷ buf ↦
        let n = min (length (byte ∷ buf)) (suc need) in
        prepend (take n (byte ∷ buf))
          (read_loop rounds (suc need - n) (record s { read_buf = drop n (byte ∷ buf) }))
    | [] ↦ elim (refill s) [ none ↦ read_failed | some s' ↦ read_loop rounds (suc need) s' ]
  ]
