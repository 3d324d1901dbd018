-- ===== src/Delta/Size/RoundTrip.antt =====
-- The size varints of src/delta, written and read.
use native.Mathlib.Nat.{le-div_iff_mul-le, div-add-mod}
use git_internal.Base.{
  Bool-cases, ltb→lt, lt→ltb, true, inl, inr, false, ℕ, zero, suc, ◌+◌, ◌*◌, ◌/◌, ◌%◌, ◌^◌, ◌≤◌,
  ◌<◌, bit_or, true, false, ◌++◌, [], ◌∷◌, Bytes, ok, ltb, if◌then◌else◌, ◌≡◌, refl, arith, ◌∙◌, ap,
  sym,
}
use git_internal.Base.Bits.{mask_seven, bit_or_disjoint, two_pow_pos, two_pow_add_seven}
use git_internal.Base.Tables.{top_bit, set_top_bit, set_top_bit_any}
use git_internal.Delta.Size.{
  usize_max, var_int_byte, exceeds_usize, read_size_loop, read_size_encoding, write_size_loop,
  write_size_encoding, write_varint_loop, write_varint,
}

-- What both writers put out: groups of seven bits, lowest first.
unfoldable pub groups : ℕ → ℕ → Bytes
groups zero n = []
groups (suc f) n =
    let rest = groups f (n / 128) in if ltb n 128 then n ∷ [] else (n % 128 + 128) ∷ rest

pub groups_last : (f n : ℕ) → ltb n 128 ≡ true → groups (suc f) n ≡ n ∷ []
unfolding groups
groups_last f n h = rw h

pub groups_more :
    (f n : ℕ) → ltb n 128 ≡ false → groups (suc f) n ≡ (n % 128 + 128) ∷ groups f (n / 128)
unfolding groups
groups_more f n h = rw h

pub write_size_loop-groups : (f n : ℕ) → write_size_loop f n ≡ groups f n
unfolding write_size_loop groups
write_size_loop-groups zero n = refl
write_size_loop-groups (suc f) n =
    ground (arith, mask_seven n, set_top_bit (n % 128), write_size_loop-groups f (n / 128))

set_top_bit_byte : (n : ℕ) → bit_or (n % 256) 0x80 ≡ n % 128 + 128
set_top_bit_byte n = set_top_bit_any (n % 256) (omega arith) ∙ omega arith

write_varint_loop-groups : (f n : ℕ) → write_varint_loop f n ≡ groups f n
unfolding write_varint_loop groups
write_varint_loop-groups zero n = refl
write_varint_loop-groups (suc f) n =
    ground (arith, set_top_bit_byte n, write_varint_loop-groups f (n / 128))

-- The patience and the Rabin encoder write the same bytes for every size.
pub write_varint-eq-write_size_encoding : (n : ℕ) → write_varint n ≡ write_size_encoding n
unfolding write_varint write_size_encoding
write_varint-eq-write_size_encoding n =
    write_varint_loop-groups 10 n ∙ sym (write_size_loop-groups 10 n)

-- The guard passes a group that fits at its place.
exceeds_usize-false : (l b : ℕ) → l < 64 → b * 2 ^ l < 2 ^ 64 → exceeds_usize l b ≡ false
unfolding exceeds_usize
exceeds_usize-false l b hl h =
    ground (arith, (le-div_iff_mul-le {x = b} {y = usize_max} (two_pow_pos l)).1 (omega arith))

-- One round on a byte whose group `g` fits above `value`: the loop ends, or goes on behind it.
module _ (g value l : ℕ) (rest : Bytes) (hg : g < 128) (hl : l < 64) (hv : value < 2 ^ l)
    (fits : value + g * 2 ^ l < 2 ^ 64) where
  pub merge_group : bit_or value (g * 2 ^ l % 2 ^ 64) ≡ value + g * 2 ^ l
  merge_group =
      let whole : g * 2 ^ l % 2 ^ 64 ≡ g * 2 ^ l = omega arith in
      rw whole (bit_or_disjoint l value g hv)

  last_group : read_size_loop (g ∷ rest) value l ≡ ok (value + g * 2 ^ l, rest)
  unfolding read_size_loop var_int_byte
  last_group = ground (arith, mask_seven g, top_bit g, exceeds_usize-false l g, merge_group)

  inner_group :
      read_size_loop ((g + 128) ∷ rest) value l ≡ read_size_loop rest (value + g * 2 ^ l) (l + 7)
  unfolding read_size_loop var_int_byte
  inner_group =
      ground (arith, mask_seven (g + 128), top_bit (g + 128), exceeds_usize-false l g, merge_group)

-- The lowest group of `n` and the rest, both shifted by `s`.
pub split_group : (n s : ℕ) → n * 2 ^ s ≡ n % 128 * 2 ^ s + n / 128 * 2 ^ (s + 7)
split_group n s = omega (
  arith,
  ap (λ (t : ℕ). t * 2 ^ s) (div-add-mod n 128),
  ap (λ (t : ℕ). n / 128 * t) (two_pow_add_seven s),
)

read_size_loop-groups :
    (f n value l : ℕ) (rest : Bytes)
    → n < 128 ^ suc f
    → l + 7 * f ≤ 63
    → value < 2 ^ l
    → value + n * 2 ^ l < 2 ^ 64
    → read_size_loop (groups (suc f) n ++ rest) value l ≡ ok (value + n * 2 ^ l, rest)
read_size_loop-groups zero n value l rest hn hl hv fits =
    rw (groups_last 0 n (lt→ltb n 128 (omega arith)))
      (last_group n value l rest (omega arith) (omega arith) hv fits)
read_size_loop-groups (suc f) n value l rest hn hl hv fits = elim (Bool-cases (ltb n 128)) [
  | inl small ↦
      rw (groups_last (suc f) n small)
        (last_group n value l rest (ltb→lt n 128 small) (omega arith) hv fits)
  | inr large ↦ rw (groups_more (suc f) n large) (
      inner_group (n % 128) value l (groups (suc f) (n / 128) ++ rest) (omega arith) (omega arith)
        hv (omega (arith, split_group n l))
      ∙ read_size_loop-groups f (n / 128) (value + n % 128 * 2 ^ l) (l + 7) rest (omega arith)
          (omega arith) (grind (arith, two_pow_add_seven l)) (omega (arith, split_group n l))
      ∙ ap (λ k. ok (k, rest)) (omega (arith, split_group n l)))
]

-- `read_size_encoding` gives back every usize that `write_size_encoding` wrote, whatever follows it.
pub read_size_encoding-write_size_encoding :
    (n : ℕ) (rest : Bytes)
    → n < 2 ^ 64
    → read_size_encoding (write_size_encoding n ++ rest) ≡ ok (n, rest)
unfolding read_size_encoding write_size_encoding
read_size_encoding-write_size_encoding n rest h = rw write_size_loop-groups (
    read_size_loop-groups 9 n 0 0 rest (omega arith) (omega arith) (omega arith) (omega arith)
    ∙ ap (λ k. ok (k, rest)) (omega arith))
