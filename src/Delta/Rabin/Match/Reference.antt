-- ===== src/Delta/Rabin/Match/Reference.antt =====
-- `extend_match` of src/delta/encode/rabin/extend_match.rs against a bytewise comparison.
use git_internal.Base.{
  ℕ, zero, suc, ◌+◌, ◌-◌, ◌≤◌, ◌<◌, min, bit_xor, not, [], ◌∷◌, Bytes, IsByte, All, leb, ltb, ◌==◌,
  if◌then◌else◌, length, take, drop, ◌≡◌, refl, arith, ap, ap₂, sym, ◌∙◌, Bool-cases, inl, inr,
  ◌++◌, ltb→lt, drop_all, take-nil, leb→le, drop-get_or, take-add, drop-add, All-take, All-drop,
  length-take, length-drop,
}
use git_internal.Delta.Rabin.Match.{
  first_different_byte, word_at, byte_loop, word_loop, extend_match,
}
use git_internal.Delta.Rabin.Match.Words.{common_prefix, from_ne_bytes-xor}

common_prefix-append_lt :
    (xs ys us bs : Bytes)
    → length xs ≡ length ys
    → common_prefix xs ys < length xs
    → common_prefix (xs ++ us) (ys ++ bs) ≡ common_prefix xs ys
unfolding common_prefix
common_prefix-append_lt [] ys us bs l h = absurd (omega arith)
common_prefix-append_lt (x ∷ xs) [] us bs l h = absurd (omega arith)
common_prefix-append_lt (x ∷ xs) (y ∷ ys) us bs l h =
    ground (arith, common_prefix-append_lt xs ys us bs (omega arith))

common_prefix-append_self :
    (xs us bs : Bytes) → common_prefix (xs ++ us) (xs ++ bs) ≡ length xs + common_prefix us bs
unfolding common_prefix
common_prefix-append_self [] us bs = omega arith
common_prefix-append_self (x ∷ xs) us bs = ground (arith, common_prefix-append_self xs us bs)

module _ (a b : Bytes) where
  byte_loop-common_prefix :
      (fuel i : ℕ)
      → i + fuel ≤ length a
      → i + fuel ≤ length b
      → byte_loop fuel a b i ≡ i + common_prefix (take fuel (drop i a)) (take fuel (drop i b))
  unfolding byte_loop common_prefix
  byte_loop-common_prefix zero i ha hb = omega arith
  byte_loop-common_prefix (suc fuel) i ha hb =
      rw
        (drop-get_or i (i + 1) 0 a refl (omega arith), drop-get_or i (i + 1) 0 b refl (omega arith))
        (ground (arith, byte_loop-common_prefix fuel (i + 1) (omega arith) (omega arith)))

  -- One word of the fast path, given what the rest of the loop does.
  word_step :
      (fuel max i : ℕ)
      → All IsByte a
      → All IsByte b
      → i + 8 ≤ max
      → max ≤ length a
      → max ≤ length b
      → word_loop fuel a b max (i + 8)
        ≡ i
          + 8
          + common_prefix
              (take (max - (i + 8)) (drop (i + 8) a))
              (take (max - (i + 8)) (drop (i + 8) b))
      → (if not (bit_xor (word_at a i) (word_at b i) == 0)
          then i + first_different_byte (bit_xor (word_at a i) (word_at b i))
          else word_loop fuel a b max (i + 8))
        ≡ i + common_prefix (take (max - i) (drop i a)) (take (max - i) (drop i b))
  unfolding word_at first_different_byte
  word_step fuel max i ba bb hi ha hb rest =
      let split : (xs : Bytes)
          → take (max - i) (drop i xs)
            ≡ take 8 (drop i xs) ++ take (max - (i + 8)) (drop (i + 8) xs) =
        λ xs.
          take-add 8 (max - (i + 8)) (max - i) (drop i xs) (omega arith)
          ∙ ap (λ t. take 8 (drop i xs) ++ take (max - (i + 8)) t)
              (sym (drop-add i 8 (i + 8) xs refl)) in
      let xs : Bytes = take 8 (drop i a) in
      let ys : Bytes = take 8 (drop i b) in
      let eight : length xs ≡ 8 = omega (arith, length-take 8 (drop i a), length-drop i a) in
      let eight' : length ys ≡ 8 = omega (arith, length-take 8 (drop i b), length-drop i b) in
      rw (split a, split b)
        (elim (from_ne_bytes-xor xs ys 64 (omega arith) (omega arith)
          (All-take IsByte 8 (drop i a) (All-drop IsByte i a ba))
          (All-take IsByte 8 (drop i b) (All-drop IsByte i b bb))) [
            | inl (zero_diff, same) ↦
                let joined : common_prefix (xs ++ take (max - (i + 8)) (drop (i + 8) a))
                      (ys ++ take (max - (i + 8)) (drop (i + 8) b))
                    ≡ length xs
                      + common_prefix (take (max - (i + 8)) (drop (i + 8) a))
                          (take (max - (i + 8)) (drop (i + 8) b)) =
                  rw (← same) (common_prefix-append_self xs _ _) in
                ground (arith, joined, rest, zero_diff)
            | inr (diff, first, lt) ↦
                let joined : common_prefix (xs ++ take (max - (i + 8)) (drop (i + 8) a))
                      (ys ++ take (max - (i + 8)) (drop (i + 8) b))
                    ≡ common_prefix xs ys =
                  common_prefix-append_lt xs ys _ _ (omega arith) lt in
                ground (arith, joined, diff, first)
          ])

  -- Whatever the fuel, since the slow path takes over where it ends.
  word_loop-common_prefix :
      (fuel max i : ℕ)
      → All IsByte a
      → All IsByte b
      → i ≤ max
      → max ≤ length a
      → max ≤ length b
      → word_loop fuel a b max i
        ≡ i + common_prefix (take (max - i) (drop i a)) (take (max - i) (drop i b))
  unfolding word_loop
  word_loop-common_prefix zero max i ba bb hi ha hb =
      byte_loop-common_prefix (max - i) i (omega arith) (omega arith)
  word_loop-common_prefix (suc fuel) max i ba bb hi ha hb = elim (Bool-cases (leb (i + 8) max)) [
    | inr short ↦ rw short (byte_loop-common_prefix (max - i) i (omega arith) (omega arith))
    | inl long ↦ rw long (
        word_step fuel max i ba bb (leb→le (i + 8) max long) ha hb
          (word_loop-common_prefix fuel max (i + 8) ba bb (leb→le (i + 8) max long) ha hb))
  ]

common_prefix-nil : (xs : Bytes) → common_prefix xs [] ≡ 0
unfolding common_prefix
common_prefix-nil [] = refl
common_prefix-nil (x ∷ xs) = refl

-- Bytes behind the end of the shorter list do not count.
common_prefix-take :
    (m n : ℕ) (a b : Bytes)
    → n ≡ min (min m (length a)) (length b)
    → common_prefix (take n a) (take n b) ≡ common_prefix (take m a) (take m b)
unfolding common_prefix
common_prefix-take zero zero a b e = refl
common_prefix-take zero (suc n) a b e = absurd (omega arith)
common_prefix-take (suc m) n [] b e = ap (λ t. common_prefix t (take n b)) (take-nil ℕ n)
common_prefix-take (suc m) n (x ∷ a) [] e =
    ap₂ common_prefix {x = take n (x ∷ a)} {y = take n (x ∷ a)} refl (take-nil ℕ n)
    ∙ common_prefix-nil (take n (x ∷ a))
common_prefix-take (suc m) zero (x ∷ a) (y ∷ b) e = absurd (omega arith)
common_prefix-take (suc m) (suc n) (x ∷ a) (y ∷ b) e =
    ground (arith, common_prefix-take m n a b (omega arith))

-- The length that `extend_match` returns is that of the longest common prefix of the two buffers
-- from the given positions on, up to `max_match` bytes; 0 where a position is out of range.
pub extend_match-common_prefix :
    (src_data target : Bytes) (ref_start data_pos max_match : ℕ)
    → All IsByte src_data
    → All IsByte target
    → extend_match src_data target ref_start data_pos max_match
      ≡ common_prefix
          (take max_match (drop ref_start src_data))
          (take max_match (drop data_pos target))
unfolding extend_match
extend_match-common_prefix src_data target ref_start data_pos max_match hs ht =
    elim (Bool-cases (ltb (length src_data) ref_start)) [
      | inl out ↦
          rw
            (
              out,
              drop_all ref_start src_data (omega (arith, ltb→lt (length src_data) ref_start out)),
              take-nil ℕ max_match,
            )
            (unfold common_prefix in refl)
      | inr src_ok ↦ elim (Bool-cases (ltb (length target) data_pos)) [
        | inl out ↦
            rw
              (
                src_ok,
                out,
                drop_all data_pos target (omega (arith, ltb→lt (length target) data_pos out)),
                take-nil ℕ max_match,
              )
              (sym (common_prefix-nil (take max_match (drop ref_start src_data))))
        | inr ok' ↦
            rw (src_ok, ok')
              (let a : Bytes = drop ref_start src_data in
                let b : Bytes = drop data_pos target in
                let cap : ℕ = min (min max_match (length a)) (length b) in
                let trimmed : common_prefix (take (cap - 0) a) (take (cap - 0) b)
                    ≡ common_prefix (take max_match a) (take max_match b) =
                  ap (λ n. common_prefix (take n a) (take n b)) {x = cap - 0} {y = cap}
                    (omega arith)
                  ∙ common_prefix-take max_match cap a b refl in
                omega (
                  arith,
                  trimmed,
                  word_loop-common_prefix a b cap cap 0 (All-drop IsByte ref_start src_data hs)
                      (All-drop IsByte data_pos target ht) (omega arith) (omega arith)
                      (omega arith),
                ))
      ]
    ]
