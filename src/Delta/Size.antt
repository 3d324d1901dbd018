-- ===== src/Delta/Size.antt =====
-- The size varints of a delta's header: src/delta/utils.rs (the reader), src/delta/encode/mod.rs
-- and src/delta/encode/rabin/mod.rs (the two writers). A `usize` is below 2 ^ 64.
pub mod RoundTrip
use git_internal.Base.{
  ℕ, zero, suc, ◌+◌, ◌-◌, ◌*◌, ◌/◌, ◌%◌, ◌^◌, bit_and, bit_or, Bool, true, false, not, ◌&&◌, ◌||◌,
  List, [], ◌∷◌, Bytes, Result, ok, err, ltb, leb, ◌==◌, if◌then◌else◌,
}

-- The error kinds of `std::io` that an in-memory reader and the parsers produce.
pub data IoError : Type 0 where
  unexpected_eof invalid_data : IoError

abbrev pub usize_bits : ℕ
usize_bits = 64

abbrev pub usize_max : ℕ
usize_max = 2 ^ 64 - 1

abbrev var_int_encoding_bits : ℕ
var_int_encoding_bits = 7

abbrev var_int_continue_flag : ℕ
var_int_continue_flag = 2 ^ var_int_encoding_bits

-- `byte & !VAR_INT_CONTINUE_FLAG`, and the test of the flag.
pub var_int_byte : ℕ → ℕ × Bool
var_int_byte byte =
    (bit_and byte (0xff - var_int_continue_flag), not (bit_and byte var_int_continue_flag == 0))

pub read_var_int_byte : Bytes → Result IoError ((ℕ × Bool) × Bytes)
read_var_int_byte [] = err unexpected_eof
read_var_int_byte (byte ∷ stream) = ok (var_int_byte byte, stream)

-- The guard on one group of seven bits.
pub exceeds_usize : ℕ → ℕ → Bool
exceeds_usize length byte_value =
    leb usize_bits length
    || (ltb usize_bits (length + var_int_encoding_bits) && ltb (usize_max / 2 ^ length) byte_value)

-- The loop, over what the stream still holds: `[]` is where `read_var_int_byte` fails.
pub read_size_loop : Bytes → ℕ → ℕ → Result IoError (ℕ × Bytes)
read_size_loop [] value length = err unexpected_eof
read_size_loop (byte ∷ stream) value length =
    let (byte_value, more_bytes) = var_int_byte byte in
    let value' = bit_or value (byte_value * 2 ^ length % 2 ^ usize_bits) in
    let rest = read_size_loop stream value' (length + var_int_encoding_bits) in
    if exceeds_usize length byte_value
    then err invalid_data
    else if not more_bytes
    then ok (value', stream)
    else rest

unfoldable pub read_size_encoding : Bytes → Result IoError (ℕ × Bytes)
unfolding read_size_loop var_int_byte exceeds_usize
read_size_encoding stream = read_size_loop stream 0 0

-- The patience encoder's writer. A usize has ten groups of seven bits.
pub write_size_loop : ℕ → ℕ → Bytes
write_size_loop zero number = []
write_size_loop (suc rounds) number =
    let rest = write_size_loop rounds (number / 2 ^ var_int_encoding_bits) in
    if ltb 0 (number / 2 ^ var_int_encoding_bits)
    then bit_or (bit_and number 0x7f % 256) 0x80 ∷ rest
    else (bit_and number 0x7f % 256) ∷ []

unfoldable pub write_size_encoding : ℕ → Bytes
unfolding write_size_loop
write_size_encoding = write_size_loop 10

-- The Rabin encoder's writer, on the output so far.
pub write_varint_loop : ℕ → ℕ → Bytes
write_varint_loop zero v = []
write_varint_loop (suc rounds) v =
    let rest = write_varint_loop rounds (v / 2 ^ 7) in
    if leb 0x80 v then bit_or (v % 256) 0x80 ∷ rest else (v % 256) ∷ []

unfoldable pub write_varint : ℕ → Bytes
unfolding write_varint_loop
write_varint = write_varint_loop 10
