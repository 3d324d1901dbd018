-- ===== src/Delta/Rabin/Hash/Range.antt =====
-- The range of the rolling hash of src/delta/encode/rabin, whose top bits index the table `T`.
use git_internal.Base.{
  ℕ, ◌+◌, ◌*◌, ◌/◌, ◌%◌, ◌^◌, ◌<◌, bit_or, bit_xor, [], ◌∷◌, Bytes, IsByte, All, get_or, length,
  ltb, ltb→lt, ◌==◌, ==_iff, ◌≡◌, refl, arith, ap, ap₂, ◌∙◌,
}
use git_internal.Base.Bits.{bit_or_disjoint_left}
use git_internal.Base.Xor.{bit_xor_parts, bit_xor-lt, bit_xor_self}
use git_internal.Base.Tables.{all_below, all_below_sound}
use git_internal.Delta.Rabin.Tables.{table_t, table_u, rabin_shift}
use git_internal.Delta.Rabin.Hash.{u32, push_hash, hash_bytes}

-- Bit 31 of each entry is the lowest bit of its index.
table_t_top :
    (i : ℕ) → i < 256 → (get_or table_t i 0 < 2 ^ 32) × (get_or table_t i 0 / 2 ^ 31 ≡ i % 2)
unfolding table_t all_below
table_t_top i h = (
  ltb→lt _ _ (all_below_sound 256 (λ i. ltb (get_or table_t i 0) (2 ^ 32)) i refl h),
  (==_iff _ _).0 (all_below_sound 256 (λ i. get_or table_t i 0 / 2 ^ 31 == i % 2) i refl h),
)

table_u_top : (i : ℕ) → i < 256 → get_or table_u i 0 < 2 ^ 31
unfolding table_u all_below
table_u_top i h = ltb→lt _ _ (all_below_sound 256 (λ i. ltb (get_or table_u i 0) (2 ^ 31)) i refl h)

-- A byte shifted in leaves a hash below 2 ^ 31, and the index into the table was in range.
pub push_hash-lt :
    (val b : ℕ)
    → val < 2 ^ 31
    → IsByte b
    → (push_hash val b < 2 ^ 31) × (val / 2 ^ rabin_shift < length table_t)
unfolding push_hash table_t
push_hash-lt val b hv hb = (
  let low : ℕ = val % 2 ^ 23 in
      let i : ℕ = val / 2 ^ 23 in
      let t : ℕ = get_or table_t i 0 in
      let (t_word, t_top) = table_t_top i (omega arith) in
      let shifted : bit_or (u32 (val * 2 ^ 8)) b ≡ (low * 256 + b) + i % 2 * 2 ^ 31 =
        ap (λ n. bit_or n b) {x = u32 (val * 2 ^ 8)} {y = val % 2 ^ 24 * 2 ^ 8} (omega arith)
        ∙ bit_or_disjoint_left 8 b (val % 2 ^ 24) hb
        ∙ omega arith in
      let entry : t ≡ t % 2 ^ 31 + i % 2 * 2 ^ 31 = omega arith in
      let apart : bit_xor (bit_or (u32 (val * 2 ^ 8)) b) t ≡ bit_xor (low * 256 + b) (t % 2 ^ 31) =
        ap₂ bit_xor shifted entry
        ∙ bit_xor_parts 31 (low * 256 + b) (t % 2 ^ 31) (i % 2) (i % 2) (omega arith) (omega arith)
        ∙ omega (arith, bit_xor_self (i % 2)) in
      omega (arith, apart, bit_xor-lt 31 (low * 256 + b) (t % 2 ^ 31) (omega arith) (omega arith)),
  omega arith,
)

-- So no hash of a byte string, from any hash below 2 ^ 31 on, indexes outside the table.
pub hash_bytes-lt :
    (val : ℕ) (bs : Bytes) → val < 2 ^ 31 → All IsByte bs → hash_bytes val bs < 2 ^ 31
unfolding hash_bytes
hash_bytes-lt val [] hv h = hv
hash_bytes-lt val (b ∷ bs) hv (hb, h) =
    hash_bytes-lt (push_hash val b) bs (push_hash-lt val b hv hb).0 h

-- Taking a byte out of the window keeps the bound.
pub pop_hash-lt : (val b : ℕ) → val < 2 ^ 31 → IsByte b → bit_xor val (get_or table_u b 0) < 2 ^ 31
pop_hash-lt val b hv hb = bit_xor-lt 31 val (get_or table_u b 0) hv (table_u_top b hb)
