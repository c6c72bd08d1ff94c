-- ===== src/AsyncStream.antt =====
-- utils/async_stream.rs: what a transport gives. The traits are implemented outside of the library
-- (or by its noise layer), so a reader is a parameter, with what `read_exact` documents: it fills the
-- whole buffer or fails. The content of an error is of no consequence and is left out.
use polkadot_p2p_connect.Prelude.{
  ◌++◌, ℕ, ◌≡◌, arith, if◌then◌else◌, leb, List, [], ◌∷◌, Option, none, some, length, take, drop,
  length-take, length-append, take-append_length, drop-append_length,
}

pub record AsyncRead : Type 1 where
  pub Reader : Type 0
  pub read_exact : ℕ → Reader → Option (List ℕ × Reader)
  pub fills :
      (n : ℕ) (r : Reader) (bytes : List ℕ) (r' : Reader)
      → read_exact n r ≡ some (bytes, r')
      → length bytes ≡ n

-- `write_all` succeeds or fails as a whole.
pub record AsyncWrite : Type 1 where
  pub Writer : Type 0
  pub write_all : List ℕ → Writer → Option Writer

-- A reader over bytes that have arrived, which fails behind the last one.
abbrev read_bytes : ℕ → List ℕ → Option (List ℕ × List ℕ)
read_bytes n bytes = if leb n (length bytes) then some (take n bytes, drop n bytes) else none

pub read_bytes-fills :
    (n : ℕ) (r bytes r' : List ℕ) → read_bytes n r ≡ some (bytes, r') → length bytes ≡ n
read_bytes-fills n r bytes r' e = ground (arith, length-take n r)

abbrev pub arrived : AsyncRead
arrived = record { Reader = List ℕ; read_exact = read_bytes; fills = read_bytes-fills }

-- A writer that keeps all that was written to it.
abbrev pub collected : AsyncWrite
collected = record { Writer = List ℕ; write_all = λ bytes sent. some (sent ++ bytes) }

-- A writer that keeps each write.
abbrev pub logged : AsyncWrite
logged = record { Writer = List (List ℕ); write_all = λ bytes log. some (log ++ bytes ∷ []) }

-- The bytes in front of those that have arrived are read, and the rest is left.
pub read_exact-arrived :
    (n : ℕ) (bytes rest : List ℕ)
    → length bytes ≡ n
    → arrived.read_exact n (bytes ++ rest) ≡ some (bytes, rest)
read_exact-arrived n bytes rest e = rw (← e) (
    ground (
      arith,
      length-append bytes rest,
      take-append_length bytes rest,
      drop-append_length bytes rest,
    ))
