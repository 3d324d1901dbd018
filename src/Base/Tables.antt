-- ===== src/Base/Tables.antt =====
-- Facts about all values of a small range, checked by evaluation; the masks on one byte.
use Prim.Native.Nat.{ℕ, zero, suc, ◌+◌, ◌*◌, ◌/◌, ◌%◌, ◌^◌, ◌<◌, ◌≤◌, bit_and, bit_or}
use mathlib.Core.Path.{◌≡◌, refl}
use mathlib.Core.Bool.{Bool, true, ◌&&◌}
use native.Mathlib.Nat.{mul-le-mul_right}
use native.Mathlib.Omega.{arith}
use git_internal.Base.Tests.{◌==◌, ==_iff, leb, leb→le}

unfoldable pub all_below : ℕ → (ℕ → Bool) → Bool
all_below zero p = true
all_below (suc n) p = p n && all_below n p

-- A check that passes below `bound` passes at each value below it.
pub all_below_sound :
    (bound : ℕ) (check : ℕ → Bool) (k : ℕ)
    → all_below bound check ≡ true
    → k < bound
    → check k ≡ true
unfolding all_below
all_below_sound (suc bound) check k passed below = ground (arith, all_below_sound bound check k)
all_below_sound zero check k passed below = absurd (omega arith)

agree_below :
    (n : ℕ) (f g : ℕ → ℕ) → all_below n (λ x. f x == g x) ≡ true → (x : ℕ) → x < n → f x ≡ g x
agree_below n f g e x h = (==_iff (f x) (g x)).0 (all_below_sound n (λ x. f x == g x) x e h)

pub low_seven : (b : ℕ) → b < 256 → bit_and b 0x7f ≡ b % 128
unfolding all_below
low_seven = agree_below 256 (λ b. bit_and b 0x7f) (λ b. b % 128) refl

pub top_bit : (b : ℕ) → b < 256 → bit_and b 0x80 ≡ b / 128 * 128
unfolding all_below
top_bit = agree_below 256 (λ b. bit_and b 0x80) (λ b. b / 128 * 128) refl

pub set_top_bit_any : (b : ℕ) → b < 256 → bit_or b 0x80 ≡ b % 128 + 128
unfolding all_below
set_top_bit_any = agree_below 256 (λ b. bit_or b 0x80) (λ b. b % 128 + 128) refl

pub set_top_bit : (b : ℕ) → b < 128 → bit_or b 0x80 ≡ b + 128
unfolding all_below
set_top_bit = agree_below 128 (λ b. bit_or b 0x80) (λ b. b + 128) refl

-- Setting bit `i` of a command byte `0x80 + c` that has no bit there yet.
pub set_flag : (i c : ℕ) → i < 7 → c < 2 ^ i → bit_or (128 + c) (2 ^ i % 256) ≡ 128 + (c + 2 ^ i)
unfolding all_below
set_flag i c hi hc = (==_iff (bit_or (128 + c) (2 ^ i % 256)) (128 + (c + 2 ^ i))).0 (
    all_below_sound (2 ^ i) (λ c. bit_or (128 + c) (2 ^ i % 256) == 128 + (c + 2 ^ i)) c
      (all_below_sound 7
        (λ i. all_below (2 ^ i) (λ c. bit_or (128 + c) (2 ^ i % 256) == 128 + (c + 2 ^ i))) i refl
        hi)
      hc)

-- A byte shifted to one of the eight places of a word stays in the word.
place_le : (i : ℕ) → i < 8 → 2 ^ (i * 8) ≤ 2 ^ 56
unfolding all_below
place_le i h =
    leb→le (2 ^ (i * 8)) (2 ^ 56) (all_below_sound 8 (λ i. leb (2 ^ (i * 8)) (2 ^ 56)) i refl h)

pub byte_fits : (i b : ℕ) → i < 8 → b < 256 → b * 2 ^ (i * 8) < 2 ^ 64
byte_fits i b hi hb = grind (arith, place_le i hi, mul-le-mul_right {m = b} {n = 255} (2 ^ (i * 8)))

-- The type of a pack entry in the bits 4 to 6 of its first byte.
pub entry_type : (t : ℕ) → t < 8 → bit_or 0x80 (t * 2 ^ 4 % 256) ≡ 128 + t * 16
unfolding all_below
entry_type = agree_below 8 (λ t. bit_or 0x80 (t * 2 ^ 4 % 256)) (λ t. 128 + t * 16) refl

pub type_bits : (b : ℕ) → b < 128 → bit_and b 0x70 / 2 ^ 4 ≡ b / 16
unfolding all_below
type_bits = agree_below 128 (λ b. bit_and b 0x70 / 2 ^ 4) (λ b. b / 16) refl
