-- ===== src/Pack/Entry/Tests.antt =====
-- Runs of `encode_one_object` with a compressor that changes nothing, and its theorem at one.
use git_internal.Base.{ℕ, [], ◌∷◌, Bytes, some, none, ok, err, ◌≡◌, refl, arith}
use git_internal.Object.Types.{offset_delta, hash_delta, run, to_pack_type_u8, from_pack_type_u8}
use git_internal.Pack.Varint.{
  object_header, header_size, encode_offset, encode_offset_loop, read_type_and_varint_size,
}
use git_internal.Pack.Entry.{encode_one_object, not_encodable, unsupported_type}
use git_internal.Pack.Entry.RoundTrip.{encode_one_object-read, Payload}

abbrev stored : Bytes → Bytes
stored bytes = bytes

abbrev entry_bytes : Bytes
entry_bytes = 0xe2 ∷ 0 ∷ 0x81 ∷ 44 ∷ 104 ∷ 105 ∷ []

encode_one_object_test :
    encode_one_object stored offset_delta (104 ∷ 105 ∷ []) (some 300) ≡ ok entry_bytes
unfolding encode_one_object to_pack_type_u8 object_header header_size encode_offset
    encode_offset_loop
encode_one_object_test = refl

-- An AI object has no type bits, and a reference delta is not encoded.
encode_one_object_ai : encode_one_object stored run (104 ∷ 105 ∷ []) none ≡ err not_encodable
unfolding encode_one_object to_pack_type_u8
encode_one_object_ai = refl

encode_one_object_hash :
    encode_one_object stored hash_delta (104 ∷ 105 ∷ []) none ≡ err unsupported_type
unfolding encode_one_object to_pack_type_u8
encode_one_object_hash = refl

encode_one_object-read_example :
    (obj_type_number header_len : ℕ) × (tail : Bytes) × (read_type_and_varint_size entry_bytes 0
      ≡ ok (obj_type_number, (2, header_len), tail))
    × (from_pack_type_u8 obj_type_number ≡ some offset_delta)
    × Payload offset_delta (some 300) tail (104 ∷ 105 ∷ [])
encode_one_object-read_example =
    encode_one_object-read stored offset_delta (104 ∷ 105 ∷ []) (some 300) entry_bytes (omega arith)
      (λ n e. let same : 300 ≡ n = cc in omega arith) encode_one_object_test
