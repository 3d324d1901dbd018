-- ===== src/Pack/Idx/Read.antt =====
-- The parser of a pack index, src/internal/pack/pack_index.rs. The reader is what is left of the
-- file, with the running hash.
use git_internal.Base.{
  ℕ, zero, suc, ◌+◌, ◌-◌, ◌*◌, ◌/◌, ◌%◌, ◌^◌, not, List, [], ◌∷◌, Bytes, ◌==◌, ltb, if◌then◌else◌,
  length, get_or, Result, ok, err, map_err, ◌>>=◌, Option, none, some,
}
use git_internal.Delta.Decode.{read_exact}
use git_internal.Pack.Header.{be_value}
use git_internal.Hash.{HashKind, size, same_hash, from_bytes_for_kind}
use git_internal.Hash.Digest.{Digests, HashAlgorithm, hasher_for_kind, update, finalize_object_hash}
use git_internal.Pack.Idx.{
  IndexEntry, IdxV2, IdxError, read_index, fanout_not_monotonic, too_many_objects, invalid_name,
  names_not_ascending, unknown_slot, large_table_truncated, invalid_checksum, checksum_mismatch,
  trailing_data, fanout_of, validate_idx_v2_header, ascends, check_fanout, large_count, large_slots,
  place_large, check_offsets,
}

module _ (d : Digests) where
  abbrev pub IdxHashingReader : Type 0
  IdxHashingReader = Bytes × HashAlgorithm d

  module _ {X : Type 0} where
    unfoldable pub read_exact_hashed :
        ℕ → IdxHashingReader → Result (IdxError X) (Bytes × IdxHashingReader)
    read_exact_hashed n (inner, hasher) = do
      (buf, inner) ← map_err read_index (read_exact n inner)
      ok (buf, (inner, update d hasher buf))

    unfoldable pub read_u32_hashed : IdxHashingReader → Result (IdxError X) (ℕ × IdxHashingReader)
    read_u32_hashed reader = do
      (buf, reader) ← read_exact_hashed 4 reader
      ok (be_value 0 buf, reader)

    unfoldable pub read_fanout :
        ℕ → ℕ → ℕ → IdxHashingReader → Result (IdxError X) (List ℕ × IdxHashingReader)
    read_fanout zero i prev reader = ok ([], reader)
    read_fanout (suc n) i prev reader = do
      (count, reader) ← read_u32_hashed reader
      if ltb count prev then err (fanout_not_monotonic i) else (do
        (fanout, reader) ← read_fanout n (1 + i) count reader
        ok (count ∷ fanout, reader))

    unfoldable pub read_names :
        ℕ
        → ℕ
        → HashKind
        → Option Bytes
        → IdxHashingReader
        → Result (IdxError X) (List IndexEntry × IdxHashingReader)
    read_names zero i k prev reader = ok ([], reader)
    read_names (suc n) i k prev reader = do
      (name, reader) ← read_exact_hashed (size k) reader
      hash ← map_err (invalid_name i) (from_bytes_for_kind k name)
      if not (ascends prev name) then err (names_not_ascending i) else (do
        (entries, reader) ← read_names n (1 + i) k (some name) reader
        ok (record { hash = hash; crc32 = 0; offset = 0 } ∷ entries, reader))

    unfoldable pub read_crcs :
        List IndexEntry
        → IdxHashingReader
        → Result (IdxError X) (List IndexEntry × IdxHashingReader)
    read_crcs [] reader = ok ([], reader)
    read_crcs (e ∷ entries) reader = do
      (crc32, reader) ← read_u32_hashed reader
      (entries, reader) ← read_crcs entries reader
      ok (record e { crc32 = crc32 } ∷ entries, reader)

    -- The entries with their offset, or with a slot of the large table.
    unfoldable pub read_offsets :
        List IndexEntry
        → IdxHashingReader
        → Result (IdxError X) (List (IndexEntry × Option ℕ) × IdxHashingReader)
    read_offsets [] reader = ok ([], reader)
    read_offsets (e ∷ entries) reader = do
      (raw_offset, reader) ← read_u32_hashed reader
      (slots, reader) ← read_offsets entries reader
      if raw_offset / 2 ^ 31 % 2 == 0
          then ok ((record e { offset = raw_offset }, none) ∷ slots, reader)
          else ok ((e, some (raw_offset % 2 ^ 31)) ∷ slots, reader)

    unfoldable pub read_large :
        ℕ → IdxHashingReader → Result (IdxError X) (List ℕ × IdxHashingReader)
    read_large zero reader = ok ([], reader)
    read_large (suc n) reader = do
      (buf, reader) ← read_exact_hashed 8 reader
      (large_offsets, reader) ← read_large n reader
      ok (be_value 0 buf ∷ large_offsets, reader)

    -- The table of the entries, from the names on; `declared` is the length without large offsets.
    unfoldable pub read_entries :
        HashKind
        → ℕ
        → ℕ
        → List ℕ
        → IdxHashingReader
        → Result (IdxError X) (List IndexEntry × IdxHashingReader)
    read_entries k total_len declared fanout reader = do
      (entries, reader) ← read_names (get_or fanout 255 0) 0 k none reader
      _ ← check_fanout 0 fanout (fanout_of entries)
      (entries, reader) ← read_crcs entries reader
      (slots, reader) ← read_offsets entries reader
      if ltb (large_slots slots) (large_count slots)
          then err (unknown_slot (large_count slots - 1) (large_slots slots))
          else if ltb total_len (declared + large_count slots * 8)
          then err large_table_truncated
          else (do
            (large_offsets, reader) ← read_large (large_count slots) reader
            let entries = place_large large_offsets slots
            _ ← check_offsets [] entries
            ok (entries, reader))

    -- The checksums, and the end of the file.
    unfoldable pub read_trailer :
        HashKind → List IndexEntry → IdxHashingReader → Result (IdxError X) IdxV2
    read_trailer k entries reader = do
      (buf, (inner, hasher)) ← read_exact_hashed (size k) reader
      pack_hash ← map_err invalid_checksum (from_bytes_for_kind k buf)
      (buf, inner) ← map_err read_index (read_exact (size k) inner)
      idx_hash ← map_err invalid_checksum (from_bytes_for_kind k buf)
      if not (same_hash (finalize_object_hash d hasher) idx_hash)
          then err (checksum_mismatch idx_hash (finalize_object_hash d hasher))
          else if not (length inner == 0)
          then err trailing_data
          else ok (record { entries = entries; pack_hash = pack_hash; idx_hash = idx_hash })

    unfoldable pub parse_idx_v2_from : Bytes → HashKind → ℕ → Result (IdxError X) IdxV2
    parse_idx_v2_from file k total_len = do
      (magic, reader) ← read_u32_hashed (file, hasher_for_kind d k)
      (version, reader) ← read_u32_hashed reader
      _ ← validate_idx_v2_header magic version
      (fanout, reader) ← read_fanout 256 0 0 reader
      let declared = 8 + 256 * 4 + 2 * size k + (size k + 4 + 4) * get_or fanout 255 0
      if ltb total_len declared then err (too_many_objects (get_or fanout 255 0) declared) else (do
        (entries, reader) ← read_entries k total_len declared fanout reader
        read_trailer k entries reader)

    abbrev pub parse_idx_v2 : Bytes → HashKind → Result (IdxError X) IdxV2
    parse_idx_v2 file k = parse_idx_v2_from file k (length file)
