-- ===== src/Pack/Varint/Offset.antt =====
-- The distance to a delta's base, `encode_offset` and `read_offset_encoding`.
use git_internal.Base.{
  ℕ, zero, suc, ◌+◌, ◌-◌, ◌*◌, ◌/◌, ◌%◌, ◌^◌, ◌<◌, bit_and, bit_or, [], ◌∷◌, ◌++◌, Bytes, none,
  some, ok, ◌==◌, if◌then◌else◌, length, ◌≡◌, arith, ◌≢◌, ap, ap₂, sym, ◌∙◌, Bool-cases, inl, inr,
  ==→eq, subst,
}
use git_internal.Base.Bits.{mask_seven, bit_or_disjoint_left, two_pow_add_seven}
use git_internal.Base.Tables.{set_top_bit}
use git_internal.Pack.Varint.{
  continuation, offset_loop, read_offset_encoding, encode_offset_loop, encode_offset,
}

-- One byte read: the groups so far move up by seven bits.
module _ (g value k : ℕ) (stream : Bytes) (hg : g < 128) (hv : value < 2 ^ 57) where
  joined : bit_or (value * 2 ^ 7 % 2 ^ 64) g ≡ value * 128 + g
  joined =
      let whole : value * 2 ^ 7 % 2 ^ 64 ≡ value * 2 ^ 7 = omega arith in
      rw whole (bit_or_disjoint_left 7 g value hg ∙ omega arith)

  offset_loop-last : offset_loop (g ∷ stream) value k ≡ ok ((value * 128 + g, k + 1), stream)
  unfolding offset_loop continuation
  offset_loop-last = ground (arith, mask_seven g, joined)

  offset_loop-more :
      value * 128 + g + 1 < 2 ^ 64
      → offset_loop ((g + 128) ∷ stream) value k ≡ offset_loop stream (value * 128 + g + 1) (k + 1)
  unfolding offset_loop continuation
  offset_loop-more fits = ground (arith, mask_seven (g + 128), joined)

-- How many groups stand in front of the last one.
groups_before : ℕ → ℕ → ℕ
groups_before zero v = 0
groups_before (suc f) v =
    let rest = groups_before f ((v - 1) / 128) in if v == 0 then 0 else suc rest

encode_offset_loop-length :
    (f v : ℕ) (bytes : Bytes)
    → length (encode_offset_loop f v bytes) ≡ groups_before f v + length bytes
unfolding encode_offset_loop groups_before
encode_offset_loop-length zero v bytes = omega arith
encode_offset_loop-length (suc f) v bytes = ground (
  arith,
  encode_offset_loop-length f ((v - 1) / 128) (bit_or (bit_and (v - 1) 0x7f % 256) 0x80 ∷ bytes),
)

-- The bytes in front of the last ones bring the reader to `v`.
offset_loop-encode_offset_loop :
    (f v : ℕ) (bytes stream : Bytes)
    → v < 2 ^ (7 * f)
    → v < 2 ^ 57
    → offset_loop (encode_offset_loop f v bytes ++ stream) 0 0
      ≡ offset_loop (bytes ++ stream) v (groups_before f v)
unfolding encode_offset_loop groups_before
offset_loop-encode_offset_loop zero v bytes stream h hv =
    ap (λ k. offset_loop (bytes ++ stream) k 0) {x = 0} {y = v} (omega arith)
offset_loop-encode_offset_loop (suc f) v bytes stream h hv = elim (Bool-cases (v == 0)) [
  | inl none_left ↦
      rw none_left
        (ap (λ k. offset_loop (bytes ++ stream) k 0) {x = 0} {y = v} (sym (==→eq v 0 none_left)))
  | inr some_left ↦
      let lo : v ≢ 0 = ground arith in
      let w : ℕ = (v - 1) / 128 in
      let g : ℕ = (v - 1) % 128 in
      let byte : bit_or (bit_and (v - 1) 0x7f % 256) 0x80 ≡ g + 128 =
        ap (λ (b : ℕ). bit_or b 0x80) {x = bit_and (v - 1) 0x7f % 256} {y = g}
          (omega (arith, mask_seven (v - 1)))
        ∙ set_top_bit g (omega arith) in
      let room : 2 ^ (7 * suc f) ≡ 128 * 2 ^ (7 * f) =
        ap (λ k. 2 ^ k) (omega arith) ∙ two_pow_add_seven (7 * f) in
      rw (some_left, byte)
        (offset_loop-encode_offset_loop f w ((g + 128) ∷ bytes) stream (omega (arith, room))
            (omega arith)
          ∙ offset_loop-more g w (groups_before f w) (bytes ++ stream) (omega arith) (omega arith)
              (omega arith)
          ∙ ap₂ (λ (a b : ℕ). offset_loop (bytes ++ stream) a b) {x = w * 128 + g + 1} {y = v}
              {u = groups_before f w + 1} {v = suc (groups_before f w)} (omega arith) (omega arith))
]

-- `read_offset_encoding` gives back the distance that `encode_offset` wrote, and the count of its bytes.
pub read_offset_encoding-encode_offset :
    (n : ℕ) (bytes stream : Bytes)
    → n < 2 ^ 64
    → encode_offset n ≡ some bytes
    → read_offset_encoding (bytes ++ stream) ≡ ok ((n, length bytes), stream)
unfolding encode_offset read_offset_encoding
read_offset_encoding-encode_offset n bytes stream h e =
    let low : ℕ = n % 128 in
    let last : bit_and n 0x7f % 256 ≡ low = omega (arith, mask_seven n) in
    elim (Bool-cases (n == 0)) [
      | inl zero_distance ↦ let nothing : none ≡ some bytes = rw zero_distance at e in cc
      | inr distance ↦
          let written : some (encode_offset_loop 9 (n / 128) (low ∷ [])) ≡ some bytes =
            rw (distance, last) at e in
          let is : encode_offset_loop 9 (n / 128) (low ∷ []) ≡ bytes = cc in
          subst (λ b. offset_loop (b ++ stream) 0 0 ≡ ok ((n, length b), stream)) is
            (offset_loop-encode_offset_loop 9 (n / 128) (low ∷ []) stream (omega arith)
                (omega arith)
              ∙ offset_loop-last low (n / 128) (groups_before 9 (n / 128)) stream (omega arith)
                  (omega arith)
              ∙ ap₂ (λ (a b : ℕ). ok ((a, b), stream)) (omega arith)
                  (omega (arith, encode_offset_loop-length 9 (n / 128) (low ∷ []))))
    ]
