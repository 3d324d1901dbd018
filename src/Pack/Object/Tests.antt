-- ===== src/Pack/Object/Tests.antt =====
-- A compressor that marks each byte, and an object that is skipped.
use git_internal.Base.{
  ℕ, zero, suc, [], ◌∷◌, ◌++◌, Bytes, length, replicate, true, false, ok, err, none, some, ◌≡◌,
  refl,
}
use git_internal.Object.Types.{is_base, from_pack_type_u8}
use git_internal.Object.Names.{to_bytes}
use git_internal.Hash.{HashKind, ObjectHash}
use git_internal.Hash.Tests.Codec.{HexError, digests}
use git_internal.Pack.Varint.{continuation, size_loop, read_type_and_varint_size}
use git_internal.Pack.Object.{
  Inflated, Arguments, extra_read, verify_known_crc, hash_compressed_object, skipped_size,
  skip_base, decode_by_type, decode_pack_object_with_crc,
}
use git_internal.Pack.Object.Skip.{accepted, decode_pack_object-decode_all}

-- A one stands before each byte, and a zero behind them all.
abbrev pub compress : Bytes → Bytes
compress [] = 0 ∷ []
compress (b ∷ content) = 1 ∷ b ∷ compress content

abbrev pub one_more : ℕ → Inflated ℕ → Inflated ℕ
one_more b inflated = record {
  delivered = b ∷ inflated.delivered;
  ending = elim inflated.ending [ ok consumed ↦ ok (suc (suc consumed)) | err z ↦ err z ];
}

abbrev pub inflate : Bytes → Inflated ℕ
inflate (zero ∷ rest) = record { delivered = []; ending = ok 1 }
inflate (suc zero ∷ b ∷ rest) = one_more b (inflate rest)
inflate _ = record { delivered = []; ending = err 9 }

-- A blob of one byte at the offset 12, which no delta needs; the length stands for the CRC.
abbrev blob_hash : ObjectHash
blob_hash = ObjectHash.sha1 ((98 ∷ 108 ∷ 111 ∷ 98 ∷ 32 ∷ 49 ∷ 0 ∷ 7 ∷ []) ++ replicate 12 0)

abbrev unneeded : ObjectHash → Arguments
unneeded hash = record {
  track_crc = true;
  skip_unneeded_objects = true;
  emit_skipped_base_callback = false;
  known_hash = some hash;
  known_crc = some 5;
  retention = some (record { offset_remaining = []; hash_remaining = [] });
}

abbrev blob_entry : Bytes
blob_entry = 177 ∷ 0 ∷ 1 ∷ 7 ∷ 0 ∷ 99 ∷ []

skipped_test :
    decode_pack_object_with_crc {X = HexError} digests inflate
      (λ bytes. length bytes)
      HashKind.sha1
      (unneeded blob_hash)
      blob_entry
      12
    ≡ ok (none, (17, 99 ∷ []))
unfolding decode_pack_object_with_crc decode_by_type is_base from_pack_type_u8 continuation
    size_loop read_type_and_varint_size skip_base skipped_size hash_compressed_object extra_read
    to_bytes verify_known_crc
skipped_test = refl

decode_pack_object-decode_all_example :
    accepted (
      decode_pack_object_with_crc {X = HexError} digests inflate
        (λ bytes. length bytes)
        HashKind.sha1
        (unneeded blob_hash)
        blob_entry
        12)
    ≡ accepted (
        decode_pack_object_with_crc {X = HexError} digests inflate
          (λ bytes. length bytes)
          HashKind.sha1
          (record (unneeded blob_hash) { skip_unneeded_objects = false })
          blob_entry
          12)
decode_pack_object-decode_all_example =
    decode_pack_object-decode_all HexError digests inflate (λ bytes. length bytes) HashKind.sha1
      (unneeded blob_hash) blob_entry 12
