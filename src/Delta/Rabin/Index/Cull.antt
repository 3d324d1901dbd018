-- ===== src/Delta/Rabin/Index/Cull.antt =====
-- `cull_bucket`: how many entries of an overfull bucket are kept.
use native.Mathlib.Nat.{div-eq_of_lt-le, div-mul-le_self, mul-le-mul_right}
use git_internal.Base.{
  ℕ, suc, ◌+◌, ◌*◌, ◌/◌, ◌≤◌, ◌<◌, false, ◌&&◌, List, [], ◌∷◌, ◌++◌, ltb, ◌==◌, length, ◌≡◌, arith,
  sym, subst, ltb→lt, ltb→le, if_elim, length-append, Bool-cases, inl, inr,
}
use git_internal.Delta.Rabin.Index.{IndexEntry, cull_loop, cull_bucket}

-- Between the rounds `count` entries are kept of the first `idx`: one for each value of
-- `idx * 64 / total` so far.
record Kept (total idx count : ℕ) : Type 0 where
  pub above : count * total + 64 ≤ idx * 64 + total
  pub below : idx * 64 < count * total + 64

module _ (total : ℕ) (big : 64 < total) where
  Kept-take :
      (idx count : ℕ)
      → count * total ≤ idx * 64
      → Kept total idx count
      → Kept total (idx + 1) (suc count)
  Kept-take idx count h k = record {
    above = omega (arith, k.above);
    below = omega (arith, k.below);
  }

  Kept-skip :
      (idx count : ℕ) → idx * 64 < count * total → Kept total idx count → Kept total (idx + 1) count
  Kept-skip idx count h k = record {
    above = omega (arith, k.above);
    below = omega (arith, k.below);
  }

  Kept-final : (count : ℕ) → Kept total total count → count ≡ 64
  Kept-final count k = elim (Bool-cases (ltb count 64)) [
    | inl few ↦
        let bound : count * total ≤ 63 * total =
          mul-le-mul_right {m = count} {n = 63} total (omega (arith, ltb→lt count 64 few)) in
        absurd (omega (arith, k.below, bound))
    | inr many ↦ elim (Bool-cases (ltb 64 count)) [
      | inl lots ↦
          let bound : 65 * total ≤ count * total =
            mul-le-mul_right {m = 65} {n = count} total (omega (arith, ltb→lt 64 count lots)) in
          absurd (omega (arith, k.above, bound))
      | inr le ↦ omega (arith, ltb→le count 64 many, ltb→le 64 count le)
    ]
  ]

  -- The test of the loop, where the invariant holds.
  at_count :
      (idx count : ℕ) → Kept total idx count → count * total ≤ idx * 64 → idx * 64 / total ≡ count
  at_count idx count k h = div-eq_of_lt-le total h (omega (arith, k.below))

  not_at_count : (idx count : ℕ) → idx * 64 / total ≡ count → count * total ≤ idx * 64
  not_at_count idx count e = subst (λ c. c * total ≤ idx * 64) e (div-mul-le_self (idx * 64) total)

  not_yet :
      (idx count : ℕ)
      → idx < total
      → Kept total idx count
      → (ltb count 64 && idx * 64 / total == count) ≡ false
      → idx * 64 < count * total
  not_yet idx count h k skipped = elim (Bool-cases (ltb (idx * 64) (count * total))) [
    | inl less ↦ ltb→lt (idx * 64) (count * total) less
    | inr at_least ↦
        let at_place : idx * 64 / total ≡ count =
          at_count idx count k (ltb→le (idx * 64) (count * total) at_least) in
        let many : 64 ≤ count = ground arith in
        let bound : 64 * total ≤ count * total = mul-le-mul_right {m = 64} {n = count} total many in
        omega arith
  ]

  length-cull_loop :
      (idx : ℕ) (bucket kept : List IndexEntry)
      → idx + length bucket ≡ total
      → Kept total idx (length kept)
      → length (cull_loop total idx bucket kept) ≡ 64
  unfolding cull_loop
  length-cull_loop idx [] kept e k =
      Kept-final (length kept)
        (subst (λ i. Kept total i (length kept)) {x = idx} {y = total} (omega arith) k)
  length-cull_loop idx (entry ∷ bucket) kept e k =
      length-cull_loop (idx + 1) bucket _ (omega arith) (
        if_elim (λ (l : List IndexEntry). Kept total (idx + 1) (length l))
          (ltb (length kept) 64 && idx * 64 / total == length kept)
          (λ taken.
            let at_place : idx * 64 / total ≡ length kept = ground arith in
            let longer : length (kept ++ entry ∷ []) ≡ suc (length kept) =
              omega (arith, length-append kept (entry ∷ [])) in
            subst (Kept total (idx + 1)) (sym longer)
              (Kept-take idx (length kept) (not_at_count idx (length kept) at_place) k))
          (λ skipped.
            Kept-skip idx (length kept) (not_yet idx (length kept) (omega arith) k skipped) k))

-- A bucket of more than 64 entries is culled to 64 entries exactly.
pub length-cull_bucket :
    (bucket : List IndexEntry) → 64 < length bucket → length (cull_bucket bucket) ≡ 64
unfolding cull_bucket
length-cull_bucket bucket big =
    length-cull_loop (length bucket) big 0 bucket [] (omega arith)
      (record { above = omega arith; below = omega arith })
