-- ===== src/Delta/Copy.antt =====
-- Copy instructions: src/delta/utils.rs reads their operands, src/delta/encode/mod.rs and
-- src/delta/encode/rabin/mod.rs write them.
pub mod Operands
pub mod RoundTrip
pub mod Shrink
use git_internal.Base.{
  ℕ, zero, suc, ◌+◌, ◌*◌, ◌/◌, ◌%◌, ◌^◌, bit_and, bit_or, List, [], ◌∷◌, ◌++◌, Bytes, Result, ok,
  err, ◌>>=◌, ◌==◌, if◌then◌else◌,
}
use git_internal.Delta.Size.{IoError, unexpected_eof}

pub read_byte : Bytes → Result IoError (ℕ × Bytes)
read_byte [] = err unexpected_eof
read_byte (byte ∷ stream) = ok (byte, stream)

-- The operand's value, the flags that are left, and the stream.
abbrev Partial : Type 0
Partial = ℕ × ℕ × Bytes

-- `value |= (byte as usize) << (byte_index * 8)`, where the lowest flag is set.
pub take_operand_byte : ℕ → ℕ → ℕ → Bytes → Result IoError (ℕ × Bytes)
unfolding read_byte
take_operand_byte byte_index present_bytes value stream =
    if bit_and present_bytes 1 == 0 then ok (value, stream) else (do
      (byte, stream') ← read_byte stream
      ok (bit_or value (byte * 2 ^ (byte_index * 8) % 2 ^ 64), stream'))

pub read_partial_loop : ℕ → ℕ → ℕ → ℕ → Bytes → Result IoError Partial
read_partial_loop zero byte_index present_bytes value stream = ok (value, present_bytes, stream)
read_partial_loop (suc rounds) byte_index present_bytes value stream = do
  (value', stream') ← take_operand_byte byte_index present_bytes value stream
  read_partial_loop rounds (byte_index + 1) (present_bytes / 2) value' stream'

unfoldable pub read_partial_int : ℕ → ℕ → Bytes → Result IoError Partial
unfolding read_partial_loop take_operand_byte
read_partial_int bytes present_bytes stream = read_partial_loop bytes 0 present_bytes 0 stream

abbrev pub copy_zero_size : ℕ
copy_zero_size = 0x10000

-- The offset and the size that a copy instruction names.
unfoldable pub copy_operands : ℕ → Bytes → Result IoError (ℕ × ℕ × Bytes)
unfolding read_partial_int
copy_operands instruction stream = do
  (offset, nonzero_bytes, stream') ← read_partial_int 4 instruction stream
  (size, flags_left, stream'') ← read_partial_int 3 nonzero_bytes stream'
  ok (offset, (if size == 0 then copy_zero_size else size), stream'')

-- One operand of an instruction being written: a flag and a byte for each byte that is not 0.
pub put_operand : ℕ → ℕ → ℕ → ℕ × Bytes → ℕ × Bytes
put_operand zero bit v op = op
put_operand (suc rounds) bit v (cmd, extra) =
    let byte = bit_and v 0xff in
    put_operand rounds (bit + 1) (v / 2 ^ 8)
      (if byte == 0 then (cmd, extra) else (bit_or cmd (2 ^ bit % 256), extra ++ byte ∷ []))

-- The command byte, and the operands' bytes behind it.
unfoldable pub copy_op : ℕ → ℕ → Bytes
unfolding put_operand
copy_op offset size =
    let (cmd, extra) = put_operand 3 4 size (put_operand 4 0 offset (0x80, [])) in cmd ∷ extra

unfoldable pub push_copy_op : Bytes → ℕ → ℕ → Bytes
unfolding copy_op
push_copy_op out offset size = out ++ copy_op offset size
