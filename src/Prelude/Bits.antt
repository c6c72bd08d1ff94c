-- ===== src/Prelude/Bits.antt =====
-- Masks and bits of one byte as arithmetic, checked over all values.
use Prim.Native.Nat.{
  ℕ, zero, suc, ◌+◌, ◌*◌, ◌/◌, ◌%◌, ◌^◌, ◌≤◌, ◌<◌, max, bit_and, bit_or, digits, bit_or-bitwise,
}
use mathlib.Core.Path.{◌≡◌, refl, ap, ◌∙◌}
use mathlib.Core.Bool.{Bool, true, ◌&&◌}
use native.Mathlib.Nat.{pow-succ'}
use native.Mathlib.Omega.{arith}
use polkadot_p2p_connect.Prelude.Tests.{◌==◌}

module _ (f g : ℕ → ℕ) where
  agree_below : ℕ → Bool
  agree_below zero = true
  agree_below (suc n) = f n == g n && agree_below n

  agree_below→eq : (n : ℕ) → agree_below n ≡ true → (x : ℕ) → x < n → f x ≡ g x
  unfolding agree_below
  agree_below→eq zero h x lt = absurd (omega arith)
  agree_below→eq (suc n) h x lt = ground (arith, agree_below→eq n (ground arith) x)

pub low_bits : (b : ℕ) → b < 256 → bit_and b 0x7f ≡ b % 128
unfolding agree_below
low_bits = agree_below→eq _ _ 256 refl

pub top_bit : (b : ℕ) → b < 256 → bit_and b 0x80 ≡ b / 128 * 128
unfolding agree_below
top_bit = agree_below→eq _ _ 256 refl

pub set_top_bit : (b : ℕ) → b < 128 → bit_or b 0x80 ≡ b + 128
unfolding agree_below
set_top_bit = agree_below→eq _ _ 128 refl

-- The law of the lowest digit for `bit_or`.
abbrev or_digits : ℕ → ℕ → ℕ → ℕ
or_digits n a b = digits (λ b. b) max n a b

or_digits_fuel : (n m a b : ℕ) → a ≤ n → a ≤ m → or_digits n a b ≡ or_digits m a b
or_digits_fuel zero zero a b p q = refl
or_digits_fuel zero (suc m) zero b p q = refl
or_digits_fuel zero (suc m) (suc a) b p q = absurd (omega arith)
or_digits_fuel (suc n) zero zero b p q = refl
or_digits_fuel (suc n) zero (suc a) b p q = absurd (omega arith)
or_digits_fuel (suc n) (suc m) zero b p q = refl
or_digits_fuel (suc n) (suc m) (suc a) b p q =
    omega (arith, or_digits_fuel n m (suc a / 2) (b / 2) (omega arith) (omega arith))

bit_or_zero : (b : ℕ) → bit_or 0 b ≡ b
bit_or_zero b = bit_or-bitwise 0 b

bit_or_step : (a b : ℕ) → bit_or a b ≡ bit_or (a / 2) (b / 2) * 2 + max (a % 2) (b % 2)
bit_or_step zero b = omega (arith, bit_or_zero b, bit_or_zero (b / 2))
bit_or_step (suc a) b = omega (
  arith,
  bit_or-bitwise (suc a) b,
  bit_or-bitwise (suc a / 2) (b / 2),
  or_digits_fuel a (suc a / 2) (suc a / 2) (b / 2) (omega arith) (omega arith),
)

pub pow-suc_two : (k : ℕ) → 2 ^ suc k ≡ 2 * 2 ^ k
pow-suc_two k = pow-succ' 2 k

-- Joining bits above position `k` to a number below `2 ^ k` is addition.
pub bit_or_above : (k v w : ℕ) → v < 2 ^ k → bit_or v (w * 2 ^ k) ≡ v + w * 2 ^ k
bit_or_above zero v w h = let e : v ≡ 0 = omega arith in rw e (bit_or_zero (w * 1) ∙ omega arith)
bit_or_above (suc k) v w h =
    let e : w * 2 ^ suc k ≡ 2 * (w * 2 ^ k) = rw pow-suc_two (omega arith) in
    rw e (
      omega (
        arith,
        pow-suc_two k,
        bit_or_step v (2 * (w * 2 ^ k)),
        ap (λ (t : ℕ). bit_or (v / 2) t) (halve (w * 2 ^ k)),
        bit_or_above k (v / 2) w (omega (arith, pow-suc_two k)),
      ))
  where
    halve : (n : ℕ) → 2 * n / 2 ≡ n
    halve n = omega arith

or_comm_below : (n a b : ℕ) → a ≤ n → b ≤ n → bit_or a b ≡ bit_or b a
or_comm_below zero a b p q =
    let e : a ≡ 0 = omega arith in let e' : b ≡ 0 = omega arith in rw (e, e') refl
or_comm_below (suc n) a b p q = omega (
  arith,
  bit_or_step a b,
  bit_or_step b a,
  or_comm_below n (a / 2) (b / 2) (omega arith) (omega arith),
)

-- Joining a number below `2 ^ k` to bits above position `k` is addition.
pub bit_or_below : (k v w : ℕ) → v < 2 ^ k → bit_or (w * 2 ^ k) v ≡ v + w * 2 ^ k
bit_or_below k v w h =
    or_comm_below (v + w * 2 ^ k) (w * 2 ^ k) v (omega arith) (omega arith) ∙ bit_or_above k v w h
