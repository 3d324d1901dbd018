-- ===== src/Pack/Entry.antt =====
-- One entry of a pack: `encode_one_object` of src/internal/pack/encode/header.rs. The compressor of
-- the flate2 crate is a parameter.
pub mod RoundTrip
pub mod Tests
use git_internal.Base.{
  ℕ, Bool, true, false, [], ◌++◌, Bytes, Option, none, some, Result, ok, err, ◌>>=◌, length,
  if◌then◌else◌,
}
use git_internal.Object.Types.{
  ObjectType, offset_delta, offset_zstdelta, hash_delta, to_pack_type_u8,
}
use git_internal.Pack.Varint.{object_header, encode_offset}

-- The error of a type without type bits, and the panics: `unwrap` of no offset, the assertion on
-- an offset of 0, `unreachable!` for a reference delta.
pub data EncodeError : Type 0 where
  not_encodable no_offset zero_offset unsupported_type : EncodeError

abbrev pub has_base_offset : ObjectType → Bool
has_base_offset offset_delta = true
has_base_offset offset_zstdelta = true
has_base_offset _ = false

abbrev pub is_hash_delta : ObjectType → Bool
is_hash_delta hash_delta = true
is_hash_delta _ = false

unfoldable pub type_number : Option ℕ → Result EncodeError ℕ
type_number none = err not_encodable
type_number (some n) = ok n

unfoldable pub checked_offset : Option Bytes → Result EncodeError Bytes
checked_offset none = err zero_offset
checked_offset (some bytes) = ok bytes

unfoldable pub offset_data : Option ℕ → Result EncodeError Bytes
offset_data none = err no_offset
offset_data (some offset) = checked_offset (encode_offset offset)

-- The backwards distance, where the type has one.
unfoldable pub base_reference : ObjectType → Option ℕ → Result EncodeError Bytes
base_reference obj_type offset =
    if has_base_offset obj_type
    then offset_data offset
    else if is_hash_delta obj_type
    then err unsupported_type
    else ok []

module _ (compress : Bytes → Bytes) where
  unfoldable pub encode_one_object : ObjectType → Bytes → Option ℕ → Result EncodeError Bytes
  unfolding type_number base_reference offset_data checked_offset
  encode_one_object obj_type obj_data offset = do
    obj_type_number ← type_number (to_pack_type_u8 obj_type)
    reference ← base_reference obj_type offset
    ok (object_header obj_type_number (length obj_data) ++ (reference ++ compress obj_data))
