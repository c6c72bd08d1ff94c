-- ===== src/Varint/RoundTrip.antt =====
-- `encode` and `encode_to_vec`: what they write, when they panic, and that `decode` reads it back.
use polkadot_p2p_connect.Prelude.{
  take, ℕ, zero, suc, ◌+◌, ◌*◌, ◌/◌, ◌%◌, ◌^◌, ◌≤◌, ◌<◌, ◌≡◌, ◌↔◌, refl, sym, ap, ◌∙◌, arith, inl,
  inr, List, [], ◌∷◌, ◌++◌, append_assoc, length, length-append, drop, take-append_length,
  replicate, All, none, some, Bool-cases, ◌==◌, if◌then◌else◌,
}
use native.Mathlib.Nat.{pow-succ'}
use polkadot_p2p_connect.Prelude.Bits.{set_top_bit}
use polkadot_p2p_connect.Varint.{ok, encode, encode_to_vec, decode}
use polkadot_p2p_connect.Varint.Groups.{IsContinuation, decoded, groups_value}
use polkadot_p2p_connect.Varint.Decode.{decode_value}

-- The bytes of an encoding of up to `k + 1` bytes: those that say that more follow, and the last one.
pub front : ℕ → ℕ → List ℕ
front zero value = []
front (suc k) value =
    let rest = front k (value / 128) in if value / 128 == 0 then [] else (value % 128 + 128) ∷ rest

pub last : ℕ → ℕ → ℕ
last zero value = value
last (suc k) value = let rest = last k (value / 128) in if value / 128 == 0 then value else rest

abbrev pub encoding : ℕ → ℕ → List ℕ
encoding k value = front k value ++ last k value ∷ []

pub length-front : (k value : ℕ) → length (front k value) ≤ k
unfolding front
length-front zero value = omega arith
length-front (suc k) value = ground (arith, length-front k (value / 128))

front-continues : (k value : ℕ) → All IsContinuation (front k value)
unfolding front
front-continues zero value = tt
front-continues (suc k) value = ground (arith, front-continues k (value / 128))

pow_step : (k value : ℕ) → value < 128 ^ suc (suc k) → value / 128 < 128 ^ suc k
pow_step k value h = omega (arith, pow-succ' 128 (suc k))

last-lt : (k value : ℕ) → value < 128 ^ suc k → last k value < 128
unfolding last
last-lt zero value h = omega arith
last-lt (suc k) value h = ground (arith, last-lt k (value / 128) (pow_step k value h))

encoding-value : (k value : ℕ) → value < 128 ^ suc k → groups_value (encoding k value) ≡ value
unfolding front last
encoding-value zero value h = omega arith
encoding-value (suc k) value h = ground (arith, encoding-value k (value / 128) (pow_step k value h))

pub encode-encoding :
    (k value : ℕ) (out : List ℕ)
    → value < 128 ^ suc k
    → k < length out
    → encode value out
      ≡ some (encoding k value ++ drop (length (encoding k value)) out, length (encoding k value))
unfolding encode front last
encode-encoding k value [] h room = absurd (omega arith)
encode-encoding zero value (old ∷ out) h room = ground arith
encode-encoding (suc k) value (old ∷ out) h room = ground (
  arith,
  set_top_bit (value % 128),
  encode-encoding k (value / 128) out (pow_step k value h) (omega arith),
)

pub decode-encoding :
    (k value : ℕ) (rest : List ℕ)
    → k ≤ 9
    → value < 128 ^ suc k
    → value < 2 ^ 64
    → decode (encoding k value ++ rest) ≡ (ok value, rest)
decode-encoding k value rest hk h small = rw append_assoc (
    decode_value (front k value) (front-continues k value) (last k value) rest
      (omega (arith, length-front k value)) (last-lt k value h)
    ∙ rw (encoding-value k value h) (let e : value % 2 ^ 64 ≡ value = omega arith in rw e))

-- For every `u64`, `encode_to_vec` does not panic, keeps what the vector held and appends 1 to 10
-- bytes, and `decode` reads the number back from them and leaves what follows.
pub decode-encode_to_vec :
    (value : ℕ) (out rest : List ℕ)
    → value < 2 ^ 64
    → (w : List ℕ) × (encode_to_vec value out ≡ some (out ++ w))
      × (1 ≤ length w)
      × (length w ≤ 10)
      × (decode (w ++ rest) ≡ (ok value, rest))
decode-encode_to_vec value out rest h = (
  encoding 9 value,
  writes,
  omega (arith, length-append (front 9 value) (last 9 value ∷ [])),
  omega (arith, length-append (front 9 value) (last 9 value ∷ []), length-front 9 value),
  decode-encoding 9 value rest (omega arith) (omega arith) h,
)
  where
    writes : encode_to_vec value out ≡ some (out ++ encoding 9 value)
    writes =
        unfold encode_to_vec in
        rw (encode-encoding 9 value (replicate 10 0) (omega arith) (omega arith)) (
          rw (
            take-append_length (encoding 9 value)
              (drop (length (encoding 9 value)) (replicate 10 0))))

pub encode_to_vec-encode :
    (value n : ℕ) (buf : List ℕ)
    → encode value (replicate 10 0) ≡ some (buf, n)
    → encode_to_vec value [] ≡ some (take n buf)
encode_to_vec-encode value n buf e = unfold encode_to_vec in rw e refl

pow_pos : (n : ℕ) → 128 ≤ 128 ^ suc n
pow_pos zero = omega arith
pow_pos (suc n) = omega (arith, pow_pos n, pow-succ' 128 (suc n))

panics→too_large :
    (value old : ℕ) (out : List ℕ)
    → encode value (old ∷ out) ≡ none
    → 128 ^ suc (length out) ≤ value
unfolding encode
panics→too_large value old [] e = ground arith
panics→too_large value old (x ∷ out) e =
    ground (arith, panics→too_large (value / 128) x out, pow-succ' 128 (suc (length out)))

too_large→panics :
    (value old : ℕ) (out : List ℕ)
    → 128 ^ suc (length out) ≤ value
    → encode value (old ∷ out) ≡ none
unfolding encode
too_large→panics value old [] h = ground arith
too_large→panics value old (x ∷ out) h = elim (Bool-cases (value / 128 == 0)) [
  | inl small ↦ absurd (ground (arith, pow_pos (suc (length out))))
  | inr large ↦
      rw
        (
          large,
          too_large→panics (value / 128) x out (omega (arith, pow-succ' 128 (suc (length out)))),
        )
        refl
]

-- `encode` panics on a slice of `n + 1` bytes exactly when the value needs more groups of seven bits
-- than that.
pub encode_panics :
    (value old : ℕ) (out : List ℕ)
    → (encode value (old ∷ out) ≡ none) ↔ (128 ^ suc (length out) ≤ value)
encode_panics value old out = (panics→too_large value old out, too_large→panics value old out)

groups_value-snoc :
    (xs : List ℕ) (byte : ℕ)
    → groups_value (xs ++ byte ∷ []) ≡ groups_value xs + byte % 128 * 128 ^ length xs
groups_value-snoc [] byte = omega arith
groups_value-snoc (x ∷ xs) byte =
    omega
      (arith, groups_value-snoc xs byte, ap (λ (t : ℕ). byte % 128 * t) (pow-succ' 128 (length xs)))

-- The tenth byte of a number counts by its lowest bit alone: a value of 2 ^ 64 or more is no error,
-- its upper bits are dropped.
pub decode_wraps :
    (xs : List ℕ) (byte : ℕ) (rest : List ℕ)
    → All IsContinuation xs
    → length xs ≡ 9
    → byte < 128
    → decode (xs ++ byte ∷ rest) ≡ decode (xs ++ (byte % 2) ∷ rest)
decode_wraps xs byte rest more h lt =
    decode_value xs more byte rest (omega arith) lt
    ∙ ap (λ (v : ℕ). (ok v, rest)) same
    ∙ sym (decode_value xs more (byte % 2) rest (omega arith) (omega arith))
  where
    same : decoded (xs ++ byte ∷ []) ≡ decoded (xs ++ (byte % 2) ∷ [])
    same = rw (groups_value-snoc xs byte, groups_value-snoc xs (byte % 2), h) (omega arith)
