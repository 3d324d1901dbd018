-- ===== src/Pack/Varint/Size.antt =====
-- The sizes of pack entries and of deltas, written and read.
use git_internal.Base.{
  ℕ, zero, suc, ◌+◌, ◌*◌, ◌/◌, ◌%◌, ◌^◌, ◌≤◌, ◌<◌, bit_and, bit_or, true, false, [], ◌∷◌, ◌++◌,
  Bytes, Result, ok, ltb, leb, ◌==◌, length, ltb→lt, lt→ltb, ◌≡◌, refl, arith, ap, ap₂, sym, ◌∙◌,
  Bool-cases, inl, inr,
}
use git_internal.Base.Bits.{mask_seven, mask_four, two_pow_add_seven, bit_or_top}
use git_internal.Base.Tables.{top_bit, entry_type, type_bits}
use git_internal.Delta.Size.{IoError, write_size_encoding}
use git_internal.Delta.Size.RoundTrip.{
  groups, groups_last, groups_more, write_size_loop-groups, merge_group, split_group,
}
use git_internal.Pack.Varint.{
  continuation, size_loop, read_type_and_varint_size, varint_loop, read_varint_le,
  read_delta_object_size, header_size_loop, header_size, object_header,
}

-- A byte of the last group, or of one before it, at the place `l`: both readers add the group.
module _ (g value l off : ℕ) (rest : Bytes) (hg : g < 128) (hl : l < 64) (hv : value < 2 ^ l)
    (fits : value + g * 2 ^ l < 2 ^ 64) where
  size_loop-last : size_loop (g ∷ rest) value l off ≡ ok ((value + g * 2 ^ l, off + 1), rest)
  unfolding size_loop continuation
  size_loop-last =
      let place : l % 64 ≡ l = omega arith in
      let low : bit_and g 0x7f ≡ g = omega (arith, mask_seven g) in
      let flag : leb 128 g ≡ false = ground arith in
      rw (place, low, flag, merge_group g value l rest hg hl hv fits) refl

  size_loop-more :
      size_loop ((g + 128) ∷ rest) value l off
      ≡ size_loop rest (value + g * 2 ^ l) (l + 7) (off + 1)
  unfolding size_loop continuation
  size_loop-more =
      let place : l % 64 ≡ l = omega arith in
      let low : bit_and (g + 128) 0x7f ≡ g = omega (arith, mask_seven (g + 128)) in
      let flag : leb 128 (g + 128) ≡ true = ground arith in
      rw (place, low, flag, merge_group g value l rest hg hl hv fits) refl

  varint_loop-last : varint_loop (g ∷ rest) value l off ≡ ok ((value + g * 2 ^ l, off + 1), rest)
  unfolding varint_loop
  varint_loop-last =
      let low : bit_and g 0x7f ≡ g = omega (arith, mask_seven g) in
      let short : ltb 63 l ≡ false = ground arith in
      let flag : (bit_and g 0x80 == 0) ≡ true = ground (arith, top_bit g) in
      rw (low, short, flag, merge_group g value l rest hg hl hv fits) refl

  varint_loop-more :
      varint_loop ((g + 128) ∷ rest) value l off
      ≡ varint_loop rest (value + g * 2 ^ l) (l + 7) (off + 1)
  unfolding varint_loop
  varint_loop-more =
      let low : bit_and (g + 128) 0x7f ≡ g = omega (arith, mask_seven (g + 128)) in
      let short : ltb 63 l ≡ false = ground arith in
      let flag : (bit_and (g + 128) 0x80 == 0) ≡ false = ground (arith, top_bit (g + 128)) in
      rw (low, short, flag, merge_group g value l rest hg hl hv fits) refl

-- A loop that reads groups as these two do reads a whole number.
abbrev Loop : Type 0
Loop = Bytes → ℕ → ℕ → ℕ → Result IoError ((ℕ × ℕ) × Bytes)

module _ (loop : Loop)
    (on_last : (g value l off : ℕ) (rest : Bytes)
      → g < 128
      → l < 64
      → value < 2 ^ l
      → value + g * 2 ^ l < 2 ^ 64
      → loop (g ∷ rest) value l off ≡ ok ((value + g * 2 ^ l, off + 1), rest))
    (on_more : (g value l off : ℕ) (rest : Bytes)
      → g < 128
      → l < 64
      → value < 2 ^ l
      → value + g * 2 ^ l < 2 ^ 64
      → loop ((g + 128) ∷ rest) value l off ≡ loop rest (value + g * 2 ^ l) (l + 7) (off + 1)) where
  loop-groups :
      (f n value l off : ℕ) (rest : Bytes)
      → n < 128 ^ suc f
      → l + 7 * f ≤ 63
      → value < 2 ^ l
      → value + n * 2 ^ l < 2 ^ 64
      → loop (groups (suc f) n ++ rest) value l off
        ≡ ok ((value + n * 2 ^ l, off + length (groups (suc f) n)), rest)
  loop-groups zero n value l off rest hn hl hv fits =
      rw (groups_last 0 n (lt→ltb n 128 (omega arith)))
        (on_last n value l off rest (omega arith) (omega arith) hv fits)
  loop-groups (suc f) n value l off rest hn hl hv fits = elim (Bool-cases (ltb n 128)) [
    | inl small ↦
        rw (groups_last (suc f) n small)
          (on_last n value l off rest (ltb→lt n 128 small) (omega arith) hv fits)
    | inr large ↦
        let m : ℕ = n / 128 in
        let split = split_group n l in
        rw (groups_more (suc f) n large) (
          on_more (n % 128) value l off (groups (suc f) m ++ rest) (omega arith) (omega arith) hv
            (omega (arith, split))
          ∙ loop-groups f m (value + n % 128 * 2 ^ l) (l + 7) (off + 1) rest (omega arith)
              (omega arith) (grind (arith, two_pow_add_seven l)) (omega (arith, split))
          ∙ ap₂ (λ (a b : ℕ). ok ((a, b), rest)) (omega (arith, split)) (omega arith))
  ]

-- `read_varint_le` gives back the size that `write_size_encoding` wrote, and the count of its bytes.
read_varint_le-groups :
    (n : ℕ) (rest : Bytes)
    → n < 2 ^ 64
    → read_varint_le (groups 10 n ++ rest) ≡ ok ((n, length (groups 10 n)), rest)
unfolding read_varint_le
read_varint_le-groups n rest h =
    loop-groups varint_loop varint_loop-last varint_loop-more 9 n 0 0 0 rest (omega arith)
      (omega arith) (omega arith) (omega arith)
    ∙ ap₂ (λ (a b : ℕ). ok ((a, b), rest)) (omega arith) (omega arith)

-- `read_delta_object_size` reads from the start of a delta the two sizes that the delta encoders
-- write there, for any sizes below 2 ^ 64.
pub read_delta_object_size-write_size_encoding :
    (base_size result_size : ℕ) (rest : Bytes)
    → base_size < 2 ^ 64
    → result_size < 2 ^ 64
    → read_delta_object_size
        (write_size_encoding base_size ++ (write_size_encoding result_size ++ rest))
      ≡ ok ((base_size, result_size), rest)
unfolding read_delta_object_size write_size_encoding
read_delta_object_size-write_size_encoding base_size result_size rest hb hr =
    rw
      (
        write_size_loop-groups 10 base_size,
        write_size_loop-groups 10 result_size,
        read_varint_le-groups base_size (groups 10 result_size ++ rest) hb,
        read_varint_le-groups result_size rest hr,
      )
      refl

-- The loop of the header writes the groups of a size that is not 0.
header_size_loop-groups : (f n : ℕ) → 0 < n → header_size_loop f n ≡ groups f n
unfolding header_size_loop groups
header_size_loop-groups zero n h = refl
header_size_loop-groups (suc f) n h =
    let more : ltb 0 n ≡ true = ground arith in
    rw more (elim (Bool-cases (ltb n 128)) [
      | inl small ↦
          let last : ltb 0 (n / 128) ≡ false = ground arith in
          let byte : n % 256 ≡ n = ground arith in rw (small, last, byte) refl
      | inr large ↦
          let further : ltb 0 (n / 128) ≡ true = ground arith in
          rw (large, further, bit_or_top n)
            (ap (λ t. (n % 128 + 128) ∷ t) (header_size_loop-groups f (n / 128) (ground arith)))
    ])

header_size-groups : (n : ℕ) → header_size n ≡ groups 9 n
unfolding header_size
header_size-groups n = elim (Bool-cases (ltb 0 n)) [
  | inl some_left ↦ rw some_left (header_size_loop-groups 9 n (ltb→lt 0 n some_left))
  | inr none_left ↦
      let empty : n ≡ 0 = ground arith in
      rw none_left
        (ap (λ k. k ∷ []) {x = 0} {y = n} (sym empty) ∙ sym (groups_last 8 n (ground arith)))
]

-- The header of a pack entry reads back as its type and its size, with the count of its bytes, for
-- a type of three bits and any size below 2 ^ 64.
pub read_type_and_varint_size-object_header :
    (obj_type_number obj_data_len offset : ℕ) (stream : Bytes)
    → obj_type_number < 8
    → obj_data_len < 2 ^ 64
    → read_type_and_varint_size (object_header obj_type_number obj_data_len ++ stream) offset
      ≡ ok (
        obj_type_number,
        (obj_data_len, offset + length (object_header obj_type_number obj_data_len)),
        stream,
      )
unfolding read_type_and_varint_size object_header continuation
read_type_and_varint_size-object_header obj_type_number obj_data_len offset stream ht hn =
    let low : ℕ = obj_data_len % 16 in
    let high : ℕ = obj_data_len / 16 in
    let first : ℕ = obj_type_number * 16 + low in
    let byte : (bit_or 0x80 (obj_type_number * 2 ^ 4 % 256) + bit_and obj_data_len 0x0f % 256) % 256
        ≡ first + 128 =
      omega (arith, entry_type obj_type_number ht, mask_four obj_data_len) in
    let seven : bit_and (first + 128) 0x7f ≡ first = omega (arith, mask_seven (first + 128)) in
    let flag : leb 128 (first + 128) ≡ true = ground arith in
    let kind : bit_and first 0x70 / 2 ^ 4 ≡ obj_type_number =
      omega (arith, type_bits first (omega arith)) in
    let four : bit_and first 0x0f ≡ low = omega (arith, mask_four first) in
    let sized : size_loop (groups 9 high ++ stream) low 4 (offset + 1)
        ≡ ok ((low + high * 2 ^ 4, (offset + 1) + length (groups 9 high)), stream) =
      loop-groups size_loop size_loop-last size_loop-more 8 high low 4 (offset + 1) stream
        (omega arith) (omega arith) (omega arith) (omega arith) in
    rw (byte, header_size-groups high, seven, flag, kind, four, sized)
      (ap₂ (λ (a b : ℕ). ok (obj_type_number, (a, b), stream)) (omega arith) (omega arith))
