-- ===== src/Delta/Rabin/Match/Words.antt =====
-- Where two words differ: the trailing zeros of their exclusive or.
use git_internal.Base.{
  ℕ, zero, suc, ◌+◌, ◌*◌, ◌/◌, ◌^◌, ◌<◌, bit_xor, [], ◌∷◌, Bytes, IsByte, All, ◌==◌, if◌then◌else◌,
  length, ◌≡◌, ◌≢◌, refl, arith, ap, ap₂, ◌∙◌, ◌⊎◌, dec_lt, inl, inr,
}
use git_internal.Base.Bits.{two_pow_suc}
use git_internal.Base.Xor.{bit_xor_parts, bit_xor-lt, eq_of_bit_xor_zero, bit_xor_self}
use git_internal.Delta.Rabin.Match.{trailing_zeros, from_ne_bytes}

-- The length of the longest common prefix.
unfoldable pub common_prefix : Bytes → Bytes → ℕ
common_prefix (x ∷ xs) (y ∷ ys) = if x == y then suc (common_prefix xs ys) else 0
common_prefix _ _ = 0

-- Zeros at the low end are counted one by one.
pub trailing_zeros_scaled :
    (k f g x : ℕ) → g ≡ k + f → trailing_zeros g (x * 2 ^ k) ≡ k + trailing_zeros f x
unfolding trailing_zeros
trailing_zeros_scaled zero f g x e =
    ap₂ trailing_zeros {x = g} {y = f} {u = x * 1} {v = x} (omega arith) (omega arith) ∙ omega arith
trailing_zeros_scaled (suc k) f zero x e = absurd (omega arith)
trailing_zeros_scaled (suc k) f (suc g) x e =
    let double : x * 2 ^ suc k ≡ x * 2 ^ k * 2 =
      omega (arith, ap (λ (t : ℕ). x * t) (two_pow_suc k)) in
    let half : x * 2 ^ suc k / 2 ≡ x * 2 ^ k = omega arith in
    rw half (ground (arith, trailing_zeros_scaled k f g x (omega arith)))

-- A one among the lowest `k` digits is met there.
pub trailing_zeros-lt :
    (k f g c x : ℕ) → g ≡ k + f → 0 < c → c < 2 ^ k → trailing_zeros g (c + x * 2 ^ k) < k
unfolding trailing_zeros
trailing_zeros-lt zero f g c x e lo hi = absurd (omega arith)
trailing_zeros-lt (suc k) f zero c x e lo hi = absurd (omega arith)
trailing_zeros-lt (suc k) f (suc g) c x e lo hi =
    let double : x * 2 ^ suc k ≡ x * 2 ^ k * 2 =
      omega (arith, ap (λ (t : ℕ). x * t) (two_pow_suc k)) in
    let half : (c + x * 2 ^ suc k) / 2 ≡ c / 2 + x * 2 ^ k = omega arith in
    rw half (ground (arith, two_pow_suc k, trailing_zeros-lt k f g (c / 2) x (omega arith)))

-- Words of equal bytes are equal; else the lowest set bit of the difference lies in the first
-- byte that differs.
pub from_ne_bytes-xor :
    (xs ys : Bytes) (bits : ℕ)
    → length xs ≡ length ys
    → bits ≡ 8 * length xs
    → All IsByte xs
    → All IsByte ys
    → ((bit_xor (from_ne_bytes xs) (from_ne_bytes ys) ≡ 0) × (xs ≡ ys))
      ⊎ ((bit_xor (from_ne_bytes xs) (from_ne_bytes ys) ≢ 0)
          × (trailing_zeros bits (bit_xor (from_ne_bytes xs) (from_ne_bytes ys)) / 8
              ≡ common_prefix xs ys)
          × (common_prefix xs ys < length xs))
unfolding from_ne_bytes common_prefix
from_ne_bytes-xor [] [] bits l e hx hy = inl (refl, refl)
from_ne_bytes-xor [] (y ∷ ys) bits l e hx hy = absurd (omega arith)
from_ne_bytes-xor (x ∷ xs) [] bits l e hx hy = absurd (omega arith)
from_ne_bytes-xor (x ∷ xs) (y ∷ ys) bits l e (hx, hxs) (hy, hys) =
    let high : ℕ = bit_xor (from_ne_bytes xs) (from_ne_bytes ys) in
    let parts : bit_xor (x + from_ne_bytes xs * 256) (y + from_ne_bytes ys * 256)
        ≡ bit_xor x y + high * 256 =
      bit_xor_parts 8 x y (from_ne_bytes xs) (from_ne_bytes ys) hx hy in
    elim (dec_lt 0 (bit_xor x y)) [
      | yes differs ↦
          let ne : x ≢ y = λ p. omega (arith, bit_xor_self x, ap (bit_xor x) p) in
          let found : trailing_zeros bits (bit_xor x y + high * 256) < 8 =
            trailing_zeros-lt 8 (8 * length xs) bits (bit_xor x y) high (omega arith) differs
              (bit_xor-lt 8 x y hx hy) in
          let first : common_prefix (x ∷ xs) (y ∷ ys) ≡ 0 = ground arith in
          rw parts (inr (omega arith, omega arith, omega arith))
      | no same ↦
          let zero_low : bit_xor x y ≡ 0 = omega arith in
          let eq : x ≡ y = eq_of_bit_xor_zero x y zero_low in
          let whole : bit_xor x y + high * 256 ≡ high * 256 = omega arith in
          let scaled : trailing_zeros bits (high * 256) ≡ 8 + trailing_zeros (8 * length xs) high =
            trailing_zeros_scaled 8 (8 * length xs) bits high (omega arith) in
          rw (parts, whole, scaled)
            (ground (arith, from_ne_bytes-xor xs ys (8 * length xs) (omega arith) refl hxs hys))
    ]
