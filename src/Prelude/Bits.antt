-- ===== src/Prelude/Bits.antt =====
-- `bit_or` of a low part and a shifted high part, at every width.
use Prim.Native.Nat.{
  ℕ, zero, suc, ◌+◌, ◌*◌, ◌/◌, ◌%◌, ◌^◌, ◌≤◌, ◌<◌, max, bit_or, digits, bit_or-bitwise,
}
use mathlib.Core.Path.{◌≡◌, refl, ap}
use native.Mathlib.Nat.{pow-suc}
use native.Mathlib.Omega.{arith}

abbrev or_upto : ℕ → ℕ → ℕ → ℕ
or_upto fuel a b = digits (λ b. b) max fuel a b

or_upto-eq : (m n a b : ℕ) → a ≤ m → a ≤ n → or_upto m a b ≡ or_upto n a b
or_upto-eq zero zero a b h k = refl
or_upto-eq zero (suc n) zero b h k = refl
or_upto-eq zero (suc n) (suc a) b h k = absurd (omega arith)
or_upto-eq (suc m) zero zero b h k = refl
or_upto-eq (suc m) zero (suc a) b h k = absurd (omega arith)
or_upto-eq (suc m) (suc n) zero b h k = refl
or_upto-eq (suc m) (suc n) (suc a) b h k =
    omega (arith, or_upto-eq m n (suc a / 2) (b / 2) (omega arith) (omega arith))

zero-bit_or : (b : ℕ) → bit_or 0 b ≡ b
zero-bit_or b = bit_or-bitwise 0 b

bit_or_step : (a b : ℕ) → bit_or a b ≡ bit_or (a / 2) (b / 2) * 2 + max (a % 2) (b % 2)
bit_or_step zero b = omega (arith, zero-bit_or b, zero-bit_or (b / 2))
bit_or_step (suc a) b = omega (
  arith,
  bit_or-bitwise (suc a) b,
  bit_or-bitwise (suc a / 2) (b / 2),
  or_upto-eq a (suc a / 2) (suc a / 2) (b / 2) (omega arith) (omega arith),
)

bit_or-double : (low q : ℕ) → bit_or (low / 2) q ≡ low / 2 + q → bit_or low (q * 2) ≡ low + q * 2
bit_or-double low q h =
    let half : q * 2 / 2 ≡ q = omega arith in ground (arith, bit_or_step low (q * 2), half)

-- Parts that share no bit are added.
pub bit_or-shifted : (k low high : ℕ) → low < 2 ^ k → bit_or low (high * 2 ^ k) ≡ low + high * 2 ^ k
bit_or-shifted zero low high h =
    let nothing : low ≡ 0 = omega arith in rw nothing (omega (arith, zero-bit_or (high * 1)))
bit_or-shifted (suc k) low high h =
    let twice : high * 2 ^ suc k ≡ high * 2 ^ k * 2 =
      omega (arith, ap (λ (t : ℕ). high * t) (pow-suc 2 k)) in
    rw twice (
      bit_or-double low (high * 2 ^ k)
        (bit_or-shifted k (low / 2) high (omega (arith, pow-suc 2 k))))
