-- ===== src/Delta/Decode.antt =====
-- src/delta/decode/mod.rs and src/delta/errors.rs: a delta rebuilt over its base. The messages of
-- `DeltaDecoderError` are the constructors of `DeltaError`; the stream is the list of bytes left.
pub mod Stream
pub mod Sound
use git_internal.Base.{
  ℕ, zero, suc, ◌+◌, ◌-◌, ◌*◌, ◌/◌, ◌%◌, ◌^◌, bit_and, Bool, true, false, not, ◌&&◌, ◌||◌, List, [],
  ◌∷◌, ◌++◌, Bytes, Result, ok, err, ◌>>=◌, ◌>>◌, map_err, ltb, leb, ◌==◌, if◌then◌else◌, length,
  take, drop,
}
use git_internal.Delta.Size.{IoError, unexpected_eof, usize_max, read_size_encoding}
use git_internal.Delta.Copy.{copy_operands}

-- `out_of_fuel` is no error of the program: it says that the model's loop ran out of rounds.
pub data DeltaError : Type 0 where
  io : IoError → DeltaError
  base_len invalid_data_instruction invalid_copy_instruction : DeltaError
  size_overflow exceeds_declared cannot_allocate result_len out_of_fuel : DeltaError

abbrev copy_instruction_flag : ℕ
copy_instruction_flag = 2 ^ 7

-- `read_exact` into a buffer of `n` bytes.
unfoldable pub read_exact : ℕ → Bytes → Result IoError (Bytes × Bytes)
read_exact n stream =
    if leb n (length stream) then ok (take n stream, drop n stream) else err unexpected_eof

-- `base_info.get(offset..end)`, where `end` is `offset.checked_add(size)`.
pub copy_range : Bytes → ℕ → ℕ → Result DeltaError Bytes
copy_range base_info offset size =
    if ltb usize_max (offset + size)
    then err invalid_copy_instruction
    else if ltb (length base_info) (offset + size)
    then err invalid_copy_instruction
    else ok (take size (drop offset base_info))

-- The allocator is a parameter: whether `try_reserve_exact(n)` succeeds on a buffer of that length.
module _ (reserves : ℕ → ℕ → Bool) where
  pub prepare_result_append : Bytes → ℕ → ℕ → Result DeltaError (Unit {0})
  prepare_result_append buffer instruction_size result_size =
      let new_size = length buffer + instruction_size in
      if ltb usize_max new_size
      then err size_overflow
      else if ltb result_size new_size
      then err exceeds_declared
      else if not (reserves (length buffer) instruction_size)
      then err cannot_allocate
      else ok tt

  -- One instruction: the new buffer, and the stream behind it.
  pub run_instruction : Bytes → ℕ → Bytes → ℕ → Bytes → Result DeltaError (Bytes × Bytes)
  run_instruction base_info result_size buffer instruction stream =
      if bit_and instruction copy_instruction_flag == 0
      then (if instruction == 0 then err invalid_data_instruction else (do
        (data_bytes, stream') ← map_err io (read_exact instruction stream)
        prepare_result_append buffer (length data_bytes) result_size
        ok (buffer ++ data_bytes, stream')))
      else (do
        (offset, size, stream') ← map_err io (copy_operands instruction stream)
        base_data ← copy_range base_info offset size
        prepare_result_append buffer (length base_data) result_size
        ok (buffer ++ base_data, stream'))

  -- The loop: an instruction byte that cannot be read is the end of the stream.
  pub decode_loop : ℕ → Bytes → ℕ → Bytes → Bytes → Result DeltaError Bytes
  decode_loop fuel base_info result_size buffer [] = ok buffer
  decode_loop zero base_info result_size buffer (instruction ∷ stream) = err out_of_fuel
  decode_loop (suc fuel) base_info result_size buffer (instruction ∷ stream) = do
    (buffer', stream') ← run_instruction base_info result_size buffer instruction stream
    decode_loop fuel base_info result_size buffer' stream'

  -- Each instruction takes its own byte at least, so the stream's length is fuel enough.
  unfoldable pub delta_decode : Bytes → Bytes → Result DeltaError Bytes
  unfolding decode_loop run_instruction prepare_result_append read_exact copy_range copy_operands
      read_size_encoding
  delta_decode stream base_info = do
    (base_size, stream') ← map_err io (read_size_encoding stream)
    if not (length base_info == base_size) then err base_len else (do
      (result_size, stream'') ← map_err io (read_size_encoding stream')
      buffer ← decode_loop (length stream'') base_info result_size [] stream''
      if not (length buffer == result_size) then err result_len else ok buffer)
