-- ===== src/Base/Digits.antt =====
-- The recursion on binary digits behind the native bit operations, one digit at a time.
use Prim.Native.Nat.{ℕ, zero, suc, ◌+◌, ◌-◌, ◌*◌, ◌/◌, ◌%◌, ◌≤◌, digits}
use mathlib.Core.Path.{◌≡◌, refl, ap, ◌∙◌}
use native.Mathlib.Omega.{arith}

-- `rest b` is the result once the first number has run out, `on_digits` works on two digits.
module _ (rest : ℕ → ℕ) (on_digits : ℕ → ℕ → ℕ) where
  abbrev rounds : ℕ → ℕ → ℕ → ℕ
  rounds = digits rest on_digits

  one_more_round : (n x y : ℕ) → x ≤ n → rounds (suc n) x y ≡ rounds n x y
  one_more_round n zero y h = ends n
    where
      ends : (k : ℕ) → rounds (suc k) 0 y ≡ rounds k 0 y
      ends zero = refl
      ends (suc k) = refl
  one_more_round zero (suc x) y h = absurd (omega arith)
  one_more_round (suc n) (suc x) y h =
      ap (λ k. k * 2 + on_digits (suc x % 2) (y % 2))
        (one_more_round n (suc x / 2) (y / 2) (omega arith))

  more_rounds : (spare n x y : ℕ) → x ≤ n → rounds (spare + n) x y ≡ rounds n x y
  more_rounds zero n x y h = ap (λ k. rounds k x y) {x = 0 + n} {y = n} (omega arith)
  more_rounds (suc spare) n x y h =
      ap (λ k. rounds k x y) {x = suc spare + n} {y = suc (spare + n)} (omega arith)
      ∙ one_more_round (spare + n) x y (omega arith)
      ∙ more_rounds spare n x y h

  -- The law of the lowest digit, where `rest` obeys it too.
  pub lowest_digit :
      ((y : ℕ) → rest y ≡ rest (y / 2) * 2 + on_digits 0 (y % 2))
      → (x y : ℕ) → rounds x x y ≡ rounds (x / 2) (x / 2) (y / 2) * 2 + on_digits (x % 2) (y % 2)
  lowest_digit split zero y = split y
  lowest_digit split (suc x) y =
      let half : ℕ = suc x / 2 in
      ap (λ k. k * 2 + on_digits (suc x % 2) (y % 2))
        (ap (λ k. rounds k half (y / 2)) {x = x} {y = (x - half) + half} (omega arith)
          ∙ more_rounds (x - half) half half (y / 2) (omega arith))
