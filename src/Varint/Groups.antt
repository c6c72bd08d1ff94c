-- ===== src/Varint/Groups.antt =====
-- The arithmetic of `decode_valid_bytes`: groups of seven bits, joined modulo 2 ^ 64.
use polkadot_p2p_connect.Prelude.{
  ℕ, suc, ◌+◌, ◌*◌, ◌%◌, ◌^◌, ◌≤◌, ◌<◌, bit_and, bit_or, ◌≡◌, ap, ◌∙◌, arith, List, [], ◌∷◌, length,
  All, IsByte,
}
use polkadot_p2p_connect.Prelude.Bits.{low_bits, bit_or_above, pow-suc_two}
use native.Mathlib.Nat.{mul-le-mul, mul-le-mul_right, pow-le-pow_right}
use native.Mathlib.Decide.{dec_lt}
use native.Mathlib.Numerals.{towards_suc}
use polkadot_p2p_connect.Varint.{join_groups}

-- The number that the groups of seven bits stand for, the lowest first.
abbrev pub groups_value : List ℕ → ℕ
groups_value [] = 0
groups_value (byte ∷ bytes) = byte % 128 + 128 * groups_value bytes

-- A byte whose top bit says that more bytes follow.
abbrev pub IsContinuation : ℕ → Type 0
IsContinuation byte = (128 ≤ byte) × (byte < 256)

shift_seven : (k : ℕ) → 2 ^ (suc k * 7) ≡ 128 * 2 ^ (k * 7)
shift_seven k =
    let e : suc k * 7 ≡ k * 7 + 7 = omega arith in
    rw e (simp towards_suc (simp pow-suc_two (omega arith)))

group_fits : (idx g : ℕ) → idx ≤ 8 → g < 128 → g * 2 ^ (idx * 7) < 2 ^ 64
group_fits idx g h k =
    let below : g * 2 ^ (idx * 7) ≤ 127 * 2 ^ 56 =
      mul-le-mul {n₁ = g} {n₂ = 127} (omega arith)
        (pow-le-pow_right {n = 2} (omega arith) {i = idx * 7} {j = 56} (omega arith)) in
    omega arith

-- One round below index 9.
join_step :
    (idx val byte : ℕ)
    → idx ≤ 8
    → byte < 256
    → val < 2 ^ (idx * 7)
    → bit_or val (bit_and byte 0x7f * 2 ^ (idx * 7) % 2 ^ 64) ≡ val + byte % 128 * 2 ^ (idx * 7)
join_step idx val byte h k lt = rw (low_bits byte k) (
    let fits : byte % 128 * 2 ^ (idx * 7) % 2 ^ 64 ≡ byte % 128 * 2 ^ (idx * 7) =
      omega (arith, group_fits idx (byte % 128) h (omega arith)) in
    rw fits (bit_or_above (idx * 7) val (byte % 128) lt))

-- The round at index 9, where the shift drops six of the seven bits.
join_last :
    (val byte : ℕ)
    → byte < 256
    → val < 2 ^ 63
    → bit_or val (bit_and byte 0x7f * 2 ^ 63 % 2 ^ 64) ≡ (val + byte % 128 * 2 ^ 63) % 2 ^ 64
join_last val byte k lt = rw (low_bits byte k) (
    let one_bit : byte % 128 * 2 ^ 63 % 2 ^ 64 ≡ byte % 2 * 2 ^ 63 = omega arith in
    rw one_bit (bit_or_above 63 val (byte % 2) lt ∙ omega arith))

next_bound :
    (idx val g : ℕ) → g < 128 → val < 2 ^ (idx * 7) → val + g * 2 ^ (idx * 7) < 2 ^ (suc idx * 7)
next_bound idx val g h lt =
    let top : suc g * 2 ^ (idx * 7) ≤ 128 * 2 ^ (idx * 7) = mul-le-mul_right (2 ^ (idx * 7)) h in
    omega (arith, shift_seven idx)

next_small :
    (idx val g : ℕ) → idx ≤ 8 → g < 128 → val < 2 ^ (idx * 7) → val + g * 2 ^ (idx * 7) < 2 ^ 64
next_small idx val g k h lt =
    let top : 2 ^ (suc idx * 7) ≤ 2 ^ 63 =
      pow-le-pow_right {n = 2} (omega arith) {j = 63} (omega arith) in
    omega (arith, next_bound idx val g h lt)

regroup :
    (idx val g v : ℕ)
    → val + g * 2 ^ (idx * 7) + v * 2 ^ (suc idx * 7) ≡ val + (g + 128 * v) * 2 ^ (idx * 7)
regroup idx val g v = omega (arith, ap (λ (t : ℕ). v * t) (shift_seven idx))

join_one :
    (idx val byte : ℕ)
    → idx ≤ 9
    → byte < 256
    → val < 2 ^ (idx * 7)
    → bit_or val (bit_and byte 0x7f * 2 ^ (idx * 7) % 2 ^ 64)
      ≡ (val + byte % 128 * 2 ^ (idx * 7)) % 2 ^ 64
join_one idx val byte h k lt = elim (dec_lt idx 9) [
  | yes p ↦
      rw (join_step idx val byte (omega arith) k lt)
        (omega (arith, next_small idx val (byte % 128) (omega arith) (omega arith) lt))
  | no p ↦ let e : idx ≡ 9 = omega arith in rw e (join_last val byte k (rw e at lt))
]

pub join_groups-value :
    (bytes : List ℕ) (idx val : ℕ)
    → All IsByte bytes
    → idx + length bytes ≤ 10
    → val < 2 ^ (idx * 7)
    → val < 2 ^ 64
    → join_groups idx val bytes ≡ (val + groups_value bytes * 2 ^ (idx * 7)) % 2 ^ 64
unfolding join_groups
join_groups-value [] idx val b h lt small = omega arith
join_groups-value (byte ∷ []) idx val b h lt small =
    join_one idx val byte (omega arith) b.0 lt ∙ omega arith
join_groups-value (byte ∷ byte' ∷ bytes) idx val b h lt small =
    let g = byte % 128 in
    rw (join_step idx val byte (omega arith) b.0 lt) (
      join_groups-value (byte' ∷ bytes) (suc idx) (val + g * 2 ^ (idx * 7)) b.1 (omega arith)
        (next_bound idx val g (omega arith) lt)
        (next_small idx val g (omega arith) (omega arith) lt)
      ∙ ap (λ (t : ℕ). t % 2 ^ 64) (regroup idx val g (groups_value (byte' ∷ bytes))))

abbrev pub decoded : List ℕ → ℕ
decoded bytes = groups_value bytes % 2 ^ 64
