-- ===== src/Base/Xor.antt =====
-- Laws of `^` at variables.
use Prim.Native.Nat.{
  ℕ, zero, suc, ◌+◌, ◌*◌, ◌/◌, ◌%◌, ◌^◌, ◌≤◌, ◌<◌, bit_xor, differ, bit_xor-bitwise,
}
use mathlib.Core.Path.{◌≡◌, refl, ap, ap₂, ◌∙◌}
use git_internal.Base.Digits.{lowest_digit}
use native.Mathlib.Omega.{arith}
use git_internal.Base.Bits.{two_pow_suc}

pub zero-bit_xor : (b : ℕ) → bit_xor 0 b ≡ b
zero-bit_xor b = bit_xor-bitwise 0 b

differ-bits : (x y : ℕ) → x < 2 → y < 2 → differ x y ≡ (x + y) % 2
differ-bits zero y hx hy = omega arith
differ-bits (suc x) zero hx hy = omega arith
differ-bits (suc x) (suc y) hx hy = ground arith

-- The digit where one number is even and the other odd is 1, any other is 0.
pub bit_xor_step : (a b : ℕ) → bit_xor a b ≡ bit_xor (a / 2) (b / 2) * 2 + (a % 2 + b % 2) % 2
bit_xor_step a b =
    let step : bit_xor a b ≡ bit_xor (a / 2) (b / 2) * 2 + differ (a % 2) (b % 2) =
      rw (bit_xor-bitwise a b, bit_xor-bitwise (a / 2) (b / 2))
        (lowest_digit (λ y. y) differ (λ y. omega arith) a b) in
    omega (arith, step, differ-bits (a % 2) (b % 2) (omega arith) (omega arith))

pub bit_xor-lt : (k a b : ℕ) → a < 2 ^ k → b < 2 ^ k → bit_xor a b < 2 ^ k
bit_xor-lt zero zero b ha hb = omega (arith, zero-bit_xor b)
bit_xor-lt zero (suc a) b ha hb = absurd (omega arith)
bit_xor-lt (suc k) a b ha hb = omega (
  arith,
  two_pow_suc k,
  bit_xor_step a b,
  bit_xor-lt k (a / 2) (b / 2) (omega (arith, two_pow_suc k)) (omega (arith, two_pow_suc k)),
)

-- Low and high parts do not mix.
pub bit_xor_parts :
    (k a b c d : ℕ)
    → a < 2 ^ k
    → b < 2 ^ k
    → bit_xor (a + c * 2 ^ k) (b + d * 2 ^ k) ≡ bit_xor a b + bit_xor c d * 2 ^ k
bit_xor_parts zero zero zero c d ha hb =
    ap₂ bit_xor {x = 0 + c * 1} {y = c} {u = 0 + d * 1} {v = d} (omega arith) (omega arith)
    ∙ omega arith
bit_xor_parts zero zero (suc b) c d ha hb = absurd (omega arith)
bit_xor_parts zero (suc a) b c d ha hb = absurd (omega arith)
bit_xor_parts (suc k) a b c d ha hb =
    let double : (e : ℕ) → e * 2 ^ suc k ≡ e * 2 ^ k * 2 =
      λ e. omega (arith, ap (λ (t : ℕ). e * t) (two_pow_suc k)) in
    let halves : bit_xor ((a + c * 2 ^ suc k) / 2) ((b + d * 2 ^ suc k) / 2)
        ≡ bit_xor (a / 2 + c * 2 ^ k) (b / 2 + d * 2 ^ k) =
      ap₂ bit_xor (omega (arith, double c)) (omega (arith, double d)) in
    omega (
      arith,
      bit_xor_step (a + c * 2 ^ suc k) (b + d * 2 ^ suc k),
      bit_xor_step a b,
      halves,
      double c,
      double d,
      double (bit_xor c d),
      bit_xor_parts k (a / 2) (b / 2) c d (omega (arith, two_pow_suc k))
          (omega (arith, two_pow_suc k)),
    )

bit_xor_zero_fuel : (n a b : ℕ) → a + b ≤ n → bit_xor a b ≡ 0 → a ≡ b
bit_xor_zero_fuel zero a b h e = omega arith
bit_xor_zero_fuel (suc n) zero zero h e = refl
bit_xor_zero_fuel (suc n) zero (suc b) h e = omega (arith, zero-bit_xor (suc b))
bit_xor_zero_fuel (suc n) (suc a) b h e = omega (
  arith,
  bit_xor_step (suc a) b,
  bit_xor_zero_fuel n (suc a / 2) (b / 2) (omega arith) (omega (arith, bit_xor_step (suc a) b)),
)

pub eq_of_bit_xor_zero : (a b : ℕ) → bit_xor a b ≡ 0 → a ≡ b
eq_of_bit_xor_zero a b e = bit_xor_zero_fuel (a + b) a b (omega arith) e

bit_xor_self_fuel : (n a : ℕ) → a ≤ n → bit_xor a a ≡ 0
bit_xor_self_fuel n zero h = refl
bit_xor_self_fuel zero (suc a) h = absurd (omega arith)
bit_xor_self_fuel (suc n) (suc a) h =
    omega (arith, bit_xor_step (suc a) (suc a), bit_xor_self_fuel n (suc a / 2) (omega arith))

pub bit_xor_self : (a : ℕ) → bit_xor a a ≡ 0
bit_xor_self a = bit_xor_self_fuel a a (omega arith)
