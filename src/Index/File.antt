-- ===== src/Index/File.antt =====
-- The index file, src/internal/index.rs, as the bytes that are read and written. The running hash of
-- src/internal/pack/wrapper.rs is the digest of the bytes that were read.
pub mod RoundTrip
use git_internal.Base.{
  ℕ, zero, suc, ◌+◌, ◌-◌, ◌%◌, ◌^◌, Bool, true, false, not, ◌&&◌, ◌||◌, List, [], ◌∷◌, ◌++◌, Bytes,
  ◌==◌, ltb, leb, same_bytes, if◌then◌else◌, length, take, get_or, Result, ok, err, map_err, ◌>>=◌,
  Option, none, some,
}
use git_internal.Base.Utf8.{is_utf8}
use git_internal.Pack.Header.{to_be_bytes}
use git_internal.Hash.{same_hash, HashKind, ObjectHash, as_ref, size, ensure_kind}
use git_internal.Hash.Digest.{
  Digests, HashAlgorithm, hasher_for_kind, update, finalize_object_hash, new_for_kind,
}
use git_internal.Index.Flags.{extended_word}
use git_internal.Index.Entry.{
  IndexEntry, IndexError, invalid_hash_value, not_utf8, invalid_header, invalid_version,
  unsupported_extension, check_sum_failed, assertion_failed, read_bytes, read_u32,
  read_sha_for_kind, read_entry, write_entry,
}
use git_internal.Index.Map.{Key, Index, add, is_some, new}

-- "DIRC"
abbrev pub index_magic : Bytes
index_magic = 68 ∷ 73 ∷ 82 ∷ 67 ∷ []

abbrev pub any_extended : Index → Bool
any_extended [] = false
any_extended (p ∷ index) =
    (is_some (extended_word p.1.flags) || p.1.flags.extended) || any_extended index

abbrev pub header_bytes : Index → Bytes
header_bytes index =
    index_magic
    ++ (to_be_bytes (if any_extended index then 3 else 2) ++ to_be_bytes (length index % 2 ^ 32))

-- `Wrapper::final_hash`, from the file and what is left of it.
abbrev pub final_hash : Digests → HashKind → Bytes → Bytes → ObjectHash
final_hash d k file left = new_for_kind d k (take (length file - length left) file)

module _ {X : Type 0} where
  -- The version and the number of entries.
  unfoldable pub check_header : Bytes → Result (IndexError X) ((ℕ × ℕ) × Bytes)
  check_header file = do
    (magic, file) ← read_bytes 4 file
    if not (same_bytes magic index_magic) then err (invalid_header magic) else (do
      (version, file) ← read_u32 file
      if not (version == 2) && not (version == 3)
          then err (invalid_version version)
          else (do (entries, file) ← read_u32 file; ok ((version, entries), file)))

  -- The loop over the entries, into the index that there is.
  unfoldable pub entries_loop : ℕ → HashKind → Index → Bytes → Result (IndexError X) (Index × Bytes)
  entries_loop zero k index file = ok (index, file)
  entries_loop (suc num) k index file = do
    (entry, file) ← read_entry k file
    entries_loop num k (add index entry) file

  -- The loop over the extensions: what is left once only a checksum is. Each round takes eight bytes
  -- at least.
  unfoldable pub extensions_loop : ℕ → HashKind → Bytes → Result (IndexError X) Bytes
  extensions_loop zero k file = ok file
  extensions_loop (suc fuel) k file =
      if ltb (size k) (length file)
      then (do
        (sign, file) ← read_bytes 4 file
        _ ← (if is_utf8 sign then ok sign else err (not_utf8 sign))
        if leb 65 (get_or sign 0 0) && leb (get_or sign 0 0) 90
            then (do
              (len, file) ← read_u32 file
              (_, file) ← read_bytes len file
              extensions_loop fuel k file)
            else err unsupported_extension)
      else ok file

  -- Every entry belongs to the kind.
  unfoldable pub ensure_kinds : HashKind → Index → Result (IndexError X) (Unit {0})
  ensure_kinds k [] = ok tt
  ensure_kinds k (p ∷ index) = do
    _ ← map_err invalid_hash_value (ensure_kind p.1.hash k)
    ensure_kinds k index

  module _ (d : Digests) where
    unfoldable pub from_file_with_hash_kind : HashKind → Bytes → Result (IndexError X) Index
    from_file_with_hash_kind k all = do
      ((version, num), file) ← check_header all
      (index, file) ← entries_loop num k new file
      file ← extensions_loop (length file) k file
      (check_sum, rest) ← read_sha_for_kind k file
      if not (same_hash (final_hash d k all file) check_sum)
          then err check_sum_failed
          else (if length index == num then ok index else err assertion_failed)

    -- The loop over the entries, which updates the hash with each of them.
    unfoldable pub write_entries :
        HashKind → Index → HashAlgorithm d → Result (IndexError X) (Bytes × HashAlgorithm d)
    write_entries k [] hasher = ok ([], hasher)
    write_entries k (p ∷ index) hasher = do
      bytes ← write_entry k p.1
      (later, hasher') ← write_entries k index (update d hasher bytes)
      ok (bytes ++ later, hasher')

    -- The file that is written.
    unfoldable pub to_file_with_hash_kind : HashKind → Index → Result (IndexError X) Bytes
    to_file_with_hash_kind k index = do
      _ ← ensure_kinds k index
      let header = header_bytes index
      (entries, hasher) ← write_entries k index (update d (hasher_for_kind d k) header)
      ok (header ++ (entries ++ as_ref (finalize_object_hash d hasher)))
