-- ===== src/Delta/Copy/Shrink.antt =====
-- The stream behind a copy instruction's operands, src/delta/utils.rs.
use git_internal.Base.{
  ℕ, zero, suc, ◌+◌, ◌/◌, ◌≤◌, bit_and, [], ◌∷◌, Bytes, ok, ◌==◌, length, ◌≡◌, arith, ap, if_elim,
  >>=-eq-ok,
}
use git_internal.Delta.Copy.{
  read_byte, take_operand_byte, read_partial_loop, read_partial_int, copy_operands,
}

read_byte-shrinks :
    (stream : Bytes) (byte : ℕ) (rest : Bytes)
    → read_byte stream ≡ ok (byte, rest)
    → length rest ≤ length stream
unfolding read_byte
read_byte-shrinks [] byte rest e = cc
read_byte-shrinks (b ∷ stream) byte rest e =
    let same : stream ≡ rest = cc in omega (arith, ap length same)

take_operand_byte-shrinks :
    (byte_index present_bytes value : ℕ) (stream : Bytes) (value' : ℕ) (rest : Bytes)
    → take_operand_byte byte_index present_bytes value stream ≡ ok (value', rest)
    → length rest ≤ length stream
unfolding take_operand_byte
take_operand_byte-shrinks byte_index present_bytes value stream value' rest =
    if_elim (λ r. r ≡ ok (value', rest) → length rest ≤ length stream)
      (bit_and present_bytes 1 == 0)
      (λ _ e. let same : stream ≡ rest = cc in omega (arith, ap length same))
      (λ _ e.
        let ((byte, stream'), read, last) = >>=-eq-ok (read_byte stream) _ e in
        let same : stream' ≡ rest = cc in
        omega (arith, read_byte-shrinks stream byte stream' read, ap length same))

read_partial_loop-shrinks :
    (rounds byte_index present_bytes value : ℕ) (stream : Bytes) (value' flags : ℕ) (rest : Bytes)
    → read_partial_loop rounds byte_index present_bytes value stream ≡ ok (value', flags, rest)
    → length rest ≤ length stream
unfolding read_partial_loop
read_partial_loop-shrinks zero byte_index present_bytes value stream value' flags rest e =
    let same : stream ≡ rest = cc in omega (arith, ap length same)
read_partial_loop-shrinks (suc rounds) byte_index present_bytes value stream value' flags rest e =
    let ((v, stream'), first, e') =
      >>=-eq-ok (take_operand_byte byte_index present_bytes value stream) _ e in
    omega (
      arith,
      take_operand_byte-shrinks byte_index present_bytes value stream v stream' first,
      read_partial_loop-shrinks rounds (byte_index + 1) (present_bytes / 2) v stream' value' flags
          rest e',
    )

pub copy_operands-shrinks :
    (instruction : ℕ) (stream : Bytes) (offset size : ℕ) (rest : Bytes)
    → copy_operands instruction stream ≡ ok (offset, size, rest)
    → length rest ≤ length stream
unfolding copy_operands read_partial_int
copy_operands-shrinks instruction stream offset size rest e =
    let ((o, flags, stream'), first, e') =
      >>=-eq-ok (read_partial_loop 4 0 instruction 0 stream) _ e in
    let ((s, left, stream''), second, last) =
      >>=-eq-ok (read_partial_loop 3 0 flags 0 stream') _ e' in
    let same : stream'' ≡ rest = cc in
    omega (
      arith,
      read_partial_loop-shrinks 4 0 instruction 0 stream o flags stream' first,
      read_partial_loop-shrinks 3 0 flags 0 stream' s left stream'' second,
      ap length same,
    )
