-- ===== src/Pack/Varint.antt =====
-- The variable-length integers of a pack: src/internal/pack/utils.rs reads them, and
-- src/internal/pack/encode/header.rs writes them. A u64 wraps as a release build's does.
pub mod Offset
pub mod Size
pub mod Bounds
pub mod Tests
use git_internal.Base.{
  ℕ, zero, suc, ◌+◌, ◌-◌, ◌*◌, ◌/◌, ◌%◌, ◌^◌, bit_and, bit_or, Bool, true, false, [], ◌∷◌, ◌++◌,
  Bytes, Option, none, some, Result, ok, err, ◌>>=◌, ltb, leb, ◌==◌, if◌then◌else◌,
}
use git_internal.Delta.Size.{IoError, unexpected_eof, invalid_data}

-- `read_byte_and_check_continuation`, on the byte that was read.
unfoldable pub continuation : ℕ → ℕ × Bool
continuation byte = (bit_and byte 0x7f, leb 128 byte)

-- The loop of `read_type_and_varint_size`; `offset` counts the bytes. A u64 shifted by 64 or more
-- is shifted by the remainder (a debug build panics).
unfoldable pub size_loop : Bytes → ℕ → ℕ → ℕ → Result IoError ((ℕ × ℕ) × Bytes)
size_loop [] size shift offset = err unexpected_eof
size_loop (byte ∷ stream) size shift offset =
    let (next_byte, more_bytes) = continuation byte in
    let size' = bit_or size (next_byte * 2 ^ (shift % 64) % 2 ^ 64) in
    let rest = size_loop stream size' (shift + 7) (offset + 1) in
    if more_bytes then rest else ok ((size', offset + 1), stream)

-- The type, the size, the offset behind them, and the stream.
unfoldable pub read_type_and_varint_size : Bytes → ℕ → Result IoError (ℕ × (ℕ × ℕ) × Bytes)
read_type_and_varint_size [] offset = err unexpected_eof
read_type_and_varint_size (byte ∷ stream) offset =
    let (first_byte, more_bytes) = continuation byte in
    let type_bits = bit_and first_byte 0x70 / 2 ^ 4 in
    let size = bit_and first_byte 0x0f in
    if more_bytes
    then (do
      (sized, stream') ← size_loop stream size 4 (offset + 1)
      ok (type_bits, sized, stream'))
    else ok (type_bits, (size, offset + 1), stream)

-- The loop of `read_varint_le`. The byte is read before the check of the shift.
pub varint_loop : Bytes → ℕ → ℕ → ℕ → Result IoError ((ℕ × ℕ) × Bytes)
varint_loop [] value shift offset = err unexpected_eof
varint_loop (byte ∷ stream) value shift offset =
    let value' = bit_or value (bit_and byte 0x7f * 2 ^ shift % 2 ^ 64) in
    let rest = varint_loop stream value' (shift + 7) (offset + 1) in
    if ltb 63 shift
    then err invalid_data
    else if bit_and byte 0x80 == 0
    then ok ((value', offset + 1), stream)
    else rest

unfoldable pub read_varint_le : Bytes → Result IoError ((ℕ × ℕ) × Bytes)
read_varint_le stream = varint_loop stream 0 0 0

-- The two sizes that stand at the start of a delta.
unfoldable pub read_delta_object_size : Bytes → Result IoError ((ℕ × ℕ) × Bytes)
read_delta_object_size stream = do
  ((base_size, base_bytes), stream') ← read_varint_le stream
  ((result_size, result_bytes), stream'') ← read_varint_le stream'
  ok ((base_size, result_size), stream'')

-- The loop of `read_offset_encoding`, most significant group first.
pub offset_loop : Bytes → ℕ → ℕ → Result IoError ((ℕ × ℕ) × Bytes)
offset_loop [] value offset = err unexpected_eof
offset_loop (byte ∷ stream) value offset =
    let (byte_value, more_bytes) = continuation byte in
    let value' = bit_or (value * 2 ^ 7 % 2 ^ 64) byte_value in
    let rest = offset_loop stream ((value' + 1) % 2 ^ 64) (offset + 1) in
    if more_bytes then rest else ok ((value', offset + 1), stream)

unfoldable pub read_offset_encoding : Bytes → Result IoError ((ℕ × ℕ) × Bytes)
read_offset_encoding stream = offset_loop stream 0 0

-- The loop of `encode_offset`. `bytes` is the vector last byte first, as `reverse` leaves it, so
-- that a push stands in front. Nine groups hold what is left of a usize behind the first.
unfoldable pub encode_offset_loop : ℕ → ℕ → Bytes → Bytes
encode_offset_loop zero value bytes = bytes
encode_offset_loop (suc fuel) value bytes =
    let rest =
      encode_offset_loop fuel ((value - 1) / 2 ^ 7)
        (bit_or (bit_and (value - 1) 0x7f % 256) 0x80 ∷ bytes) in
    if value == 0 then bytes else rest

-- `none` is the panic of the assertion.
unfoldable pub encode_offset : ℕ → Option Bytes
encode_offset value =
    if value == 0
    then none
    else some (encode_offset_loop 9 (value / 2 ^ 7) ((bit_and value 0x7f % 256) ∷ []))

-- `while size > 0`. A usize without its lowest four bits has nine groups of seven bits.
pub header_size_loop : ℕ → ℕ → Bytes
header_size_loop zero size = []
header_size_loop (suc rounds) size =
    let rest = header_size_loop rounds (size / 2 ^ 7) in
    if ltb 0 size
    then (if ltb 0 (size / 2 ^ 7) then (bit_or 0x80 size % 256) ∷ rest else (size % 256) ∷ [])
    else []

unfoldable pub header_size : ℕ → Bytes
header_size size = if ltb 0 size then header_size_loop 9 size else 0 ∷ []

-- The header of `encode_one_object`: four size bits and the type, and the rest of the size.
unfoldable pub object_header : ℕ → ℕ → Bytes
object_header obj_type_number obj_data_len =
    ((bit_or 0x80 (obj_type_number * 2 ^ 4 % 256) + bit_and obj_data_len 0x0f % 256) % 256)
    ∷ header_size (obj_data_len / 2 ^ 4)
