-- ===== src/Base/Bits.antt =====
-- Laws of `|` and `&` at variables, from the digit recursion that the native operations stand for.
use Prim.Native.Nat.{
  ℕ, zero, suc, ◌+◌, ◌*◌, ◌/◌, ◌%◌, ◌^◌, ◌≤◌, ◌<◌, min, max, bit_and, bit_or, bit_and-bitwise,
  bit_or-bitwise,
}
use mathlib.Core.Path.{◌≡◌, ap, ap₂, ◌∙◌}
use git_internal.Base.Digits.{lowest_digit}
use native.Mathlib.Omega.{arith}
use native.Mathlib.Numerals.{towards_suc}
use native.Mathlib.Nat.{pow-suc, mul_comm}

pub zero-bit_or : (b : ℕ) → bit_or 0 b ≡ b
zero-bit_or b = bit_or-bitwise 0 b

pub bit_or_step : (a b : ℕ) → bit_or a b ≡ bit_or (a / 2) (b / 2) * 2 + max (a % 2) (b % 2)
bit_or_step a b =
    rw (bit_or-bitwise a b, bit_or-bitwise (a / 2) (b / 2))
      (lowest_digit (λ y. y) max (λ y. omega arith) a b)

pub two_pow_suc : (k : ℕ) → 2 ^ suc k ≡ 2 * 2 ^ k
two_pow_suc k = pow-suc 2 k ∙ mul_comm (2 ^ k) 2

pub two_pow_pos : (k : ℕ) → 0 < 2 ^ k
two_pow_pos zero = omega arith
two_pow_pos (suc k) = omega (arith, two_pow_suc k, two_pow_pos k)

pub two_pow_add_one : (s : ℕ) → 2 ^ (s + 1) ≡ 2 * 2 ^ s
two_pow_add_one s = simp (towards_suc, two_pow_suc)

pub two_pow_add_seven : (s : ℕ) → 2 ^ (s + 7) ≡ 128 * 2 ^ s
two_pow_add_seven s = simp (towards_suc, two_pow_suc) (omega arith)

pub two_pow_add_eight : (s : ℕ) → 2 ^ (s + 8) ≡ 256 * 2 ^ s
two_pow_add_eight s = simp (towards_suc, two_pow_suc) (omega arith)

-- Where the bits of `b` start above those of `a`, `|` adds.
pub bit_or_disjoint : (k a b : ℕ) → a < 2 ^ k → bit_or a (b * 2 ^ k) ≡ a + b * 2 ^ k
bit_or_disjoint zero zero b h = omega (arith, zero-bit_or (b * 1))
bit_or_disjoint zero (suc a) b h = absurd (omega arith)
bit_or_disjoint (suc k) a b h =
    let shifted : b * 2 ^ suc k ≡ b * 2 ^ k * 2 =
      omega (arith, ap (λ (t : ℕ). b * t) (two_pow_suc k)) in
    let high : b * 2 ^ suc k / 2 ≡ b * 2 ^ k = omega arith in
    let low : bit_or (a / 2) (b * 2 ^ suc k / 2) ≡ a / 2 + b * 2 ^ k =
      rw high (bit_or_disjoint k (a / 2) b (omega (arith, two_pow_suc k))) in
    omega (arith, bit_or_step a (b * 2 ^ suc k))

pub bit_and_step : (a b : ℕ) → bit_and a b ≡ bit_and (a / 2) (b / 2) * 2 + min (a % 2) (b % 2)
bit_and_step a b =
    rw (bit_and-bitwise a b, bit_and-bitwise (a / 2) (b / 2))
      (lowest_digit (λ y. 0) min (λ y. omega arith) a b)

-- `&` clears bits of its second argument.
bit_and-le_rounds : (n a b : ℕ) → a ≤ n → bit_and a b ≤ b
bit_and-le_rounds n zero b h = omega (arith, bit_and-bitwise 0 b)
bit_and-le_rounds zero (suc a) b h = absurd (omega arith)
bit_and-le_rounds (suc n) (suc a) b h =
    let inner : bit_and (suc a / 2) (b / 2) ≤ b / 2 =
      bit_and-le_rounds n (suc a / 2) (b / 2) (omega arith) in
    omega (arith, inner, bit_and_step (suc a) b)

pub bit_and-le : (a b : ℕ) → bit_and a b ≤ b
bit_and-le a b = bit_and-le_rounds a a b (omega arith)

-- A mask of ones keeps the low bits: one step for each one of the mask.
pub mask_one : (a : ℕ) → bit_and a 1 ≡ a % 2
mask_one a = omega (arith, bit_and_step a 1, bit_and-le (a / 2) 0)

mask_two : (a : ℕ) → bit_and a 3 ≡ a % 4
mask_two a = omega (arith, bit_and_step a 3, mask_one (a / 2))

mask_three : (a : ℕ) → bit_and a 7 ≡ a % 8
mask_three a = omega (arith, bit_and_step a 7, mask_two (a / 2))

pub mask_four : (a : ℕ) → bit_and a 0xf ≡ a % 16
mask_four a = omega (arith, bit_and_step a 0xf, mask_three (a / 2))

mask_five : (a : ℕ) → bit_and a 0x1f ≡ a % 32
mask_five a = omega (arith, bit_and_step a 0x1f, mask_four (a / 2))

mask_six : (a : ℕ) → bit_and a 0x3f ≡ a % 64
mask_six a = omega (arith, bit_and_step a 0x3f, mask_five (a / 2))

pub mask_seven : (a : ℕ) → bit_and a 0x7f ≡ a % 128
mask_seven a = omega (arith, bit_and_step a 0x7f, mask_six (a / 2))

pub mask_eight : (a : ℕ) → bit_and a 0xff ≡ a % 256
mask_eight a = omega (arith, bit_and_step a 0xff, mask_seven (a / 2))

bit_or-zero_rounds : (n a : ℕ) → a ≤ n → bit_or a 0 ≡ a
bit_or-zero_rounds n zero h = bit_or-bitwise 0 0
bit_or-zero_rounds zero (suc a) h = absurd (omega arith)
bit_or-zero_rounds (suc n) (suc a) h =
    let inner : bit_or (suc a / 2) 0 ≡ suc a / 2 = bit_or-zero_rounds n (suc a / 2) (omega arith) in
    omega (arith, inner, bit_or_step (suc a) 0)

-- The same with the high part first.
pub bit_or_disjoint_left : (k a b : ℕ) → a < 2 ^ k → bit_or (b * 2 ^ k) a ≡ a + b * 2 ^ k
bit_or_disjoint_left zero zero b h = omega (arith, bit_or-zero_rounds (b * 1) (b * 1) (omega arith))
bit_or_disjoint_left zero (suc a) b h = absurd (omega arith)
bit_or_disjoint_left (suc k) a b h =
    let shifted : b * 2 ^ suc k ≡ b * 2 ^ k * 2 =
      omega (arith, ap (λ (t : ℕ). b * t) (two_pow_suc k)) in
    let high : b * 2 ^ suc k / 2 ≡ b * 2 ^ k = omega arith in
    let low : bit_or (b * 2 ^ suc k / 2) (a / 2) ≡ a / 2 + b * 2 ^ k =
      rw high (bit_or_disjoint_left k (a / 2) b (omega (arith, two_pow_suc k))) in
    omega (arith, bit_or_step (b * 2 ^ suc k) a)

-- The lowest bits of a number with the bit `k` set: one step for each bit.
or_bit_zero : (m : ℕ) → bit_or 1 m % 2 ≡ 1
or_bit_zero m = omega (arith, bit_or_step 1 m)

or_bit_one : (m : ℕ) → bit_or 2 m % 4 ≡ m % 2 + 2
or_bit_one m = omega (arith, bit_or_step 2 m, or_bit_zero (m / 2))

or_bit_two : (m : ℕ) → bit_or 4 m % 8 ≡ m % 4 + 4
or_bit_two m = omega (arith, bit_or_step 4 m, or_bit_one (m / 2))

or_bit_three : (m : ℕ) → bit_or 8 m % 16 ≡ m % 8 + 8
or_bit_three m = omega (arith, bit_or_step 8 m, or_bit_two (m / 2))

or_bit_four : (m : ℕ) → bit_or 16 m % 32 ≡ m % 16 + 16
or_bit_four m = omega (arith, bit_or_step 16 m, or_bit_three (m / 2))

or_bit_five : (m : ℕ) → bit_or 32 m % 64 ≡ m % 32 + 32
or_bit_five m = omega (arith, bit_or_step 32 m, or_bit_four (m / 2))

or_bit_six : (m : ℕ) → bit_or 64 m % 128 ≡ m % 64 + 64
or_bit_six m = omega (arith, bit_or_step 64 m, or_bit_five (m / 2))

-- `(0x80 | m) as u8`
pub bit_or_top : (m : ℕ) → bit_or 0x80 m % 256 ≡ m % 128 + 128
bit_or_top m = omega (arith, bit_or_step 0x80 m, or_bit_six (m / 2))

mask_nine : (a : ℕ) → bit_and a 0x1ff ≡ a % 512
mask_nine a = omega (arith, bit_and_step a 0x1ff, mask_eight (a / 2))

mask_ten : (a : ℕ) → bit_and a 0x3ff ≡ a % 1024
mask_ten a = omega (arith, bit_and_step a 0x3ff, mask_nine (a / 2))

mask_eleven : (a : ℕ) → bit_and a 0x7ff ≡ a % 2048
mask_eleven a = omega (arith, bit_and_step a 0x7ff, mask_ten (a / 2))

pub mask_twelve : (a : ℕ) → bit_and a 0xfff ≡ a % 4096
mask_twelve a = omega (arith, bit_and_step a 0xfff, mask_eleven (a / 2))

-- Low and high parts do not mix.
pub bit_and_parts :
    (k a b c d : ℕ)
    → a < 2 ^ k
    → b < 2 ^ k
    → bit_and (a + c * 2 ^ k) (b + d * 2 ^ k) ≡ bit_and a b + bit_and c d * 2 ^ k
bit_and_parts zero zero zero c d ha hb =
    ap₂ bit_and {x = 0 + c * 1} {y = c} {u = 0 + d * 1} {v = d} (omega arith) (omega arith)
    ∙ omega (arith, bit_and-le 0 0)
bit_and_parts zero zero (suc b) c d ha hb = absurd (omega arith)
bit_and_parts zero (suc a) b c d ha hb = absurd (omega arith)
bit_and_parts (suc k) a b c d ha hb =
    let double : (e : ℕ) → e * 2 ^ suc k ≡ e * 2 ^ k * 2 =
      λ e. omega (arith, ap (λ (t : ℕ). e * t) (two_pow_suc k)) in
    let halves : bit_and ((a + c * 2 ^ suc k) / 2) ((b + d * 2 ^ suc k) / 2)
        ≡ bit_and (a / 2 + c * 2 ^ k) (b / 2 + d * 2 ^ k) =
      ap₂ bit_and (omega (arith, double c)) (omega (arith, double d)) in
    omega (
      arith,
      bit_and_step (a + c * 2 ^ suc k) (b + d * 2 ^ suc k),
      bit_and_step a b,
      halves,
      double c,
      double d,
      double (bit_and c d),
      bit_and_parts k (a / 2) (b / 2) c d (omega (arith, two_pow_suc k))
          (omega (arith, two_pow_suc k)),
    )

pub bit_or_parts :
    (k a b c d : ℕ)
    → a < 2 ^ k
    → b < 2 ^ k
    → bit_or (a + c * 2 ^ k) (b + d * 2 ^ k) ≡ bit_or a b + bit_or c d * 2 ^ k
bit_or_parts zero zero zero c d ha hb =
    ap₂ bit_or {x = 0 + c * 1} {y = c} {u = 0 + d * 1} {v = d} (omega arith) (omega arith)
    ∙ omega (arith, zero-bit_or 0)
bit_or_parts zero zero (suc b) c d ha hb = absurd (omega arith)
bit_or_parts zero (suc a) b c d ha hb = absurd (omega arith)
bit_or_parts (suc k) a b c d ha hb =
    let double : (e : ℕ) → e * 2 ^ suc k ≡ e * 2 ^ k * 2 =
      λ e. omega (arith, ap (λ (t : ℕ). e * t) (two_pow_suc k)) in
    let halves : bit_or ((a + c * 2 ^ suc k) / 2) ((b + d * 2 ^ suc k) / 2)
        ≡ bit_or (a / 2 + c * 2 ^ k) (b / 2 + d * 2 ^ k) =
      ap₂ bit_or (omega (arith, double c)) (omega (arith, double d)) in
    omega (
      arith,
      bit_or_step (a + c * 2 ^ suc k) (b + d * 2 ^ suc k),
      bit_or_step a b,
      halves,
      double c,
      double d,
      double (bit_or c d),
      bit_or_parts k (a / 2) (b / 2) c d (omega (arith, two_pow_suc k))
          (omega (arith, two_pow_suc k)),
    )

pub bit_or-zero : (a : ℕ) → bit_or a 0 ≡ a
bit_or-zero a = bit_or-zero_rounds a a (omega arith)

-- `|` of two numbers of some bits has no more bits.
pub bit_or-lt : (k a b : ℕ) → a < 2 ^ k → b < 2 ^ k → bit_or a b < 2 ^ k
bit_or-lt zero a b ha hb =
    let none_set : a ≡ 0 = omega arith in
    let nothing : b ≡ 0 = omega arith in omega (arith, ap₂ bit_or none_set nothing ∙ zero-bit_or 0)
bit_or-lt (suc k) a b ha hb =
    let power = two_pow_suc k in
    omega (
      arith,
      bit_or_step a b,
      power,
      bit_or-lt k (a / 2) (b / 2) (omega (arith, ha, power)) (omega (arith, hb, power)),
    )
