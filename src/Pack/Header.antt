-- ===== src/Pack/Header.antt =====
-- The twelve bytes at the start of a pack: `encode_header` of src/internal/pack/encode/header.rs,
-- and `check_header` of src/internal/pack/decode.rs.
pub mod RoundTrip
pub mod Tests
use git_internal.Base.{
  ℕ, ◌+◌, ◌-◌, ◌*◌, ◌/◌, ◌%◌, ◌^◌, Bool, not, ◌||◌, [], ◌∷◌, ◌++◌, Bytes, Option, none, some,
  Result, ok, err, ◌>>=◌, map_err, ltb, ◌==◌, same_bytes, if◌then◌else◌,
}
use git_internal.Delta.Decode.{read_exact}

-- The errors of `check_header`, `InvalidPackHeader` first, then the messages of `InvalidPackFile`.
pub data PackError : Type 0 where
  invalid_pack_header : Bytes → PackError
  wrong_version : ℕ → PackError
  reading_magic reading_version reading_object_number : PackError

-- `u32::to_be_bytes` and `u32::from_be_bytes`.
abbrev pub to_be_bytes : ℕ → Bytes
to_be_bytes n = (n / 2 ^ 24 % 256) ∷ (n / 2 ^ 16 % 256) ∷ (n / 2 ^ 8 % 256) ∷ (n % 256) ∷ []

abbrev pub be_value : ℕ → Bytes → ℕ
be_value high [] = high
be_value high (b ∷ bs) = be_value (high * 256 + b) bs

-- "PACK"
abbrev pub pack_magic : Bytes
pack_magic = 80 ∷ 65 ∷ 67 ∷ 75 ∷ []

-- `none` is the panic of one of the two assertions.
unfoldable pub encode_header : ℕ → Option Bytes
encode_header object_number =
    if object_number == 0 || ltb (2 ^ 32 - 1) object_number
    then none
    else some (pack_magic ++ (0 ∷ 0 ∷ 0 ∷ 2 ∷ to_be_bytes object_number))

-- The number of objects, the header's bytes, and the stream behind them.
unfoldable pub check_header : Bytes → Result PackError ((ℕ × Bytes) × Bytes)
check_header pack = do
  (magic, pack') ← map_err (λ _. reading_magic) (read_exact 4 pack)
  if not (same_bytes magic pack_magic) then err (invalid_pack_header magic) else (do
    (version_bytes, pack'') ← map_err (λ _. reading_version) (read_exact 4 pack')
    if not (be_value 0 version_bytes == 2)
        then err (wrong_version (be_value 0 version_bytes))
        else (do
          (object_num_bytes, pack''') ← map_err (λ _. reading_object_number) (read_exact 4 pack'')
          ok (
            (be_value 0 object_num_bytes, magic ++ (version_bytes ++ object_num_bytes)),
            pack''',
          )))
