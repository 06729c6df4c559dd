-- ===== src/Common/Bits.antt =====
-- The bit operations of the address code at variable widths: `x & (2^k - 1)` is `x % 2^k`.
use Prim.Native.Nat.{
  ℕ, zero, suc, ◌+◌, ◌-◌, ◌*◌, ◌/◌, ◌%◌, ◌^◌, ◌≤◌, ◌<◌, min, bit_and, digits, bit_and-bitwise,
}
use mathlib.Core.Path.{◌≡◌, ◌∙◌}
use native.Mathlib.Nat.{pow-suc}
use native.Mathlib.Omega.{arith}

pub pow_pos : (k : ℕ) → 0 < 2 ^ k
pow_pos zero = omega arith
pow_pos (suc k) = rw pow-suc (omega (arith, pow_pos k))

zero-mod : (p : ℕ) → 0 < p → 0 ≡ 0 % p
zero-mod p h = grind arith

split_low : (a p : ℕ) → 0 < p → a / 2 % p * 2 + a % 2 ≡ a % (p * 2)
split_low a p h = grind arith

-- The digits of a number and of a mask, on enough fuel: `m` is the mask of `k` ones.
digits-mask : (k n a m : ℕ) → a ≤ n → m + 1 ≡ 2 ^ k → digits (λ b. zero) min n a m ≡ a % 2 ^ k
digits-mask k zero a m h e = omega (arith, zero-mod (2 ^ k) (pow_pos k))
digits-mask k (suc n) zero m h e = zero-mod (2 ^ k) (pow_pos k)
digits-mask zero (suc n) (suc a) m h e =
    omega (arith, digits-mask zero n (suc a / 2) (m / 2) (omega arith) (omega arith))
digits-mask (suc k) (suc n) (suc a) m h e =
    let p = pow-suc 2 k in
    let rest = digits-mask k n (suc a / 2) (m / 2) (omega arith) (omega (arith, p)) in
    rw p (omega (arith, p, rest, split_low (suc a) (2 ^ k) (pow_pos k)))

-- A mask of `k` ones keeps the `k` low bits.
pub bit_and-mask : (k a : ℕ) → bit_and a (2 ^ k - 1) ≡ a % 2 ^ k
bit_and-mask k a =
    bit_and-bitwise a (2 ^ k - 1)
    ∙ digits-mask k a a (2 ^ k - 1) (omega arith) (omega (arith, pow_pos k))
