-- ===== src/Pack/Varint/Tests.antt =====
-- Runs of the varint codecs, and the theorems at them.
use git_internal.Base.{◌+◌, [], ◌∷◌, ◌++◌, some, ok, length, ◌≡◌, refl, arith}
use git_internal.Delta.Size.{write_size_encoding}
use git_internal.Pack.Varint.{
  encode_offset, encode_offset_loop, read_offset_encoding, offset_loop, continuation,
  read_type_and_varint_size, object_header, read_delta_object_size,
}
use git_internal.Pack.Varint.Offset.{read_offset_encoding-encode_offset}
use git_internal.Pack.Varint.Size.{
  read_type_and_varint_size-object_header, read_delta_object_size-write_size_encoding,
}

encode_offset_test : encode_offset 300 ≡ some (0x81 ∷ 44 ∷ [])
unfolding encode_offset encode_offset_loop
encode_offset_test = refl

read_offset_encoding_test : read_offset_encoding (0x81 ∷ 44 ∷ 7 ∷ []) ≡ ok ((300, 2), 7 ∷ [])
unfolding read_offset_encoding offset_loop continuation
read_offset_encoding_test = refl

read_offset_encoding-encode_offset_example :
    read_offset_encoding ((0x81 ∷ 44 ∷ []) ++ 7 ∷ []) ≡ ok ((300, 2), 7 ∷ [])
read_offset_encoding-encode_offset_example =
    read_offset_encoding-encode_offset 300 (0x81 ∷ 44 ∷ []) (7 ∷ []) (omega arith)
      encode_offset_test

-- A blob of 1000 bytes.
read_type_and_varint_size-object_header_example :
    read_type_and_varint_size (object_header 3 1000 ++ 7 ∷ []) 12
    ≡ ok (3, (1000, 12 + length (object_header 3 1000)), 7 ∷ [])
read_type_and_varint_size-object_header_example =
    read_type_and_varint_size-object_header 3 1000 12 (7 ∷ []) (omega arith) (omega arith)

read_delta_object_size-write_size_encoding_example :
    read_delta_object_size (write_size_encoding 300 ++ (write_size_encoding 5 ++ 9 ∷ []))
    ≡ ok ((300, 5), 9 ∷ [])
read_delta_object_size-write_size_encoding_example =
    read_delta_object_size-write_size_encoding 300 5 (9 ∷ []) (omega arith) (omega arith)
