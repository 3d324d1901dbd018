-- ===== src/Pack/Decode/Tests.antt =====
-- Two entries, a compressor that marks each byte, and a decoder that is given their index.
use git_internal.Base.{
  map_err, ◌>>=◌, List, [], ◌∷◌, ◌++◌, length, replicate, true, false, ok, none, some, ◌≡◌, refl,
  ap, arith,
}
use git_internal.Object.Types.{commit, blob, is_base, to_pack_type_u8}
use git_internal.Object.Names.{to_bytes}
use git_internal.Hash.{HashKind, ObjectHash}
use git_internal.Hash.Digest.Loose.{
  decimal_usize_bytes, hash_loose_object, calculate_object_hash_for_kind,
}
use git_internal.Hash.Tests.Codec.{HexError, digests}
use git_internal.Pack.Varint.{header_size, object_header}
use git_internal.Pack.Entry.{
  encode_one_object, type_number, base_reference, offset_data, checked_offset,
}
use git_internal.Pack.Object.Tests.{compress, one_more, inflate}
use git_internal.Pack.Idx.Write.{write_idx}
use git_internal.Pack.Encode.{
  encode_idx_file, idx_error, Entry, PackEncoder, new_with_idx_and_hash_kind, parallel_encode,
}
use git_internal.Pack.Encode.Entries.{idx_from, IsEntry}
use git_internal.Pack.Encode.Whole.{pack_hash_of}
use git_internal.Pack.Decode.{DecodeOptions, decode_inner}
use git_internal.Pack.Decode.Objects.{Inflates}
use git_internal.Pack.Decode.RoundTrip.{Supplied, objects_from, decode_inner-parallel_encode}

compress-Inflates : Inflates compress inflate
compress-Inflates [] rest = refl
compress-Inflates (b ∷ content) rest = ap (one_more b) (compress-Inflates content rest)

abbrev a_blob : Entry
a_blob = record {
  obj_type = blob;
  content = 7 ∷ [];
  hash = ObjectHash.sha1 ((98 ∷ 108 ∷ 111 ∷ 98 ∷ 32 ∷ 49 ∷ 0 ∷ 7 ∷ []) ++ replicate 12 0);
  chain_len = 0;
}

abbrev a_commit : Entry
a_commit = record {
  obj_type = commit;
  content = [];
  hash = ObjectHash.sha1 ((99 ∷ 111 ∷ 109 ∷ 109 ∷ 105 ∷ 116 ∷ 32 ∷ 48 ∷ 0 ∷ []) ++ replicate 11 0);
  chain_len = 0;
}

abbrev two_entries : List Entry
two_entries = a_blob ∷ a_commit ∷ []

a_blob-IsEntry : IsEntry HexError digests HashKind.sha1 a_blob
unfolding is_base calculate_object_hash_for_kind hash_loose_object decimal_usize_bytes to_bytes
a_blob-IsEntry = record { base = refl; named = refl; of_kind = refl; short = omega arith }

a_commit-IsEntry : IsEntry HexError digests HashKind.sha1 a_commit
unfolding is_base calculate_object_hash_for_kind hash_loose_object decimal_usize_bytes to_bytes
a_commit-IsEntry = record { base = refl; named = refl; of_kind = refl; short = omega arith }

-- The index of the pack; the length stands for the CRC.
abbrev indexed : DecodeOptions
indexed = record {
  retention = none;
  skip_unneeded_objects = false;
  known_hashes = some (a_blob.hash ∷ a_commit.hash ∷ []);
  known_crcs = some (5 ∷ 3 ∷ []);
  known_offsets = some (12 ∷ 17 ∷ []);
  expected_pack_hash = some (pack_hash_of digests compress HashKind.sha1 two_entries);
  verify_pack_stream_hash = true;
  callback = true;
}

indexed-Supplied : Supplied compress (λ bytes. length bytes) indexed 0 12 two_entries
unfolding encode_one_object object_header header_size type_number base_reference offset_data
    checked_offset to_pack_type_u8
indexed-Supplied = (refl, refl, refl, (refl, refl, refl, tt))

decode_inner-parallel_encode_example :
    (enc : PackEncoder digests) × (parallel_encode digests {X = HexError} compress
        (λ bytes. length bytes)
        1
        two_entries
        (new_with_idx_and_hash_kind digests HashKind.sha1 2 0)
      ≡ ok enc)
    × (enc.final_hash ≡ some (pack_hash_of digests compress HashKind.sha1 two_entries))
    × (decode_inner {X = HexError} digests inflate
          (λ bytes. length bytes)
          HashKind.sha1
          indexed
          enc.sent
        ≡ ok (
          objects_from compress (λ bytes. length bytes) true 12 two_entries,
          pack_hash_of digests compress HashKind.sha1 two_entries,
        ))
    × (encode_idx_file digests {X = HexError} enc ≡ (
        map_err idx_error (
          write_idx digests {X = HexError} 2
            (pack_hash_of digests compress HashKind.sha1 two_entries)
            (idx_from compress (λ bytes. length bytes) 12 two_entries))
        >>= λ file. ok (file, record enc { idx_sender = false })))
decode_inner-parallel_encode_example =
    decode_inner-parallel_encode {X = HexError} digests compress inflate (λ bytes. length bytes)
      compress-Inflates HashKind.sha1 indexed refl 1 two_entries (omega arith) (omega arith)
      (omega arith) (a_blob-IsEntry, (a_commit-IsEntry, tt)) indexed-Supplied refl
