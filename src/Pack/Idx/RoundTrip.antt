-- ===== src/Pack/Idx/RoundTrip.antt =====
-- A pack index of src/internal/pack/pack_index.rs, written and read again.
use git_internal.Base.{
  ℕ, ◌+◌, ◌*◌, ◌≤◌, List, [], ◌++◌, Bytes, length, ok, none, ◌≡◌, ◌≢◌, refl, sym, arith, All-map,
  le→ltb,
}
use git_internal.Pack.Header.{to_be_bytes}
use git_internal.Hash.{HashKind, ObjectHash, size, as_ref}
use git_internal.Hash.Kinds.{OfKind}
use git_internal.Hash.Digest.{
  Digests, HashAlgorithm, hasher_for_kind, update, finalize, finalize_object_hash,
}
use git_internal.Hash.Digest.Objects.{update-append}
use git_internal.Pack.Idx.{
  IndexEntry, idx_magic, fanout_of, validate_idx_v2_header, sort_by_hash, large_offsets_of,
}
use git_internal.Pack.Idx.Read.{read_entries, parse_idx_v2_from, parse_idx_v2}
use git_internal.Pack.Idx.Write.{write_idx}
use git_internal.Pack.Idx.Fanout.{fanout_of-IsFanout}
use git_internal.Pack.Idx.Sort.{
  Pairwise, Below, All-sort_by_hash, length-sort_by_hash, Pairwise-sort_by_hash, sort_by_hash-Below,
}
use git_internal.Pack.Idx.Slots.{
  large_slots-slots_of, large_count_all, place_large_all, check_offsets-Pairwise, check_fanout_same,
  fanout_of-named,
}
use git_internal.Pack.Idx.Trailer.{read_trailer-sums}
use git_internal.Pack.Idx.Tables.{
  words, read_u32_hashed-append, read_fanout-words, read_names-names_of, read_crcs-crcs_of,
  read_large-long_words, read_offsets-offset_words,
}
use git_internal.Pack.Idx.Lengths.{
  IsIndexEntry, IsIdx, IsIndexEntry-HasCounter, large_offsets_of-All, length-large_offsets_of,
}
use git_internal.Pack.Idx.Written.{
  idx_header, tables_of, tables_hasher, sums_hasher, file_of, IsIdx-IsFanout, sums_hasher_kind,
  length-file_of, write_idx-file_of,
}

sort_by_hash-IsIdx :
    (k : HashKind) (entries : List IndexEntry) → IsIdx k entries → IsIdx k (sort_by_hash entries)
sort_by_hash-IsIdx k entries ready = record {
  each = All-sort_by_hash (IsIndexEntry k) entries ready.each;
  names = Pairwise-sort_by_hash (λ a b. a.hash ≢ b.hash) (λ a b h e. h (sym e)) entries ready.names;
  offsets =
      Pairwise-sort_by_hash (λ a b. a.offset ≢ b.offset) (λ a b h e. h (sym e)) entries
        ready.offsets;
  few = omega (arith, length-sort_by_hash entries, ready.few);
}

module _ {X : Type 0} (d : Digests) where
  -- The tables from the names on.
  read_entries-tables :
      (k : HashKind) (total_len declared : ℕ) (entries : List IndexEntry) (rest : Bytes)
      (h : HashAlgorithm d)
      → IsIdx k entries
      → Pairwise Below entries
      → declared + length (large_offsets_of entries) * 8 ≤ total_len
      → read_entries d {X = X} k total_len declared (fanout_of entries) (tables_of entries rest, h)
        ≡ ok (entries, (rest, tables_hasher d h entries))
  unfolding read_entries
  read_entries-tables k total_len declared entries rest h ready below fits =
      let large = large_offsets_of entries in
      let fanout =
        fanout_of-IsFanout entries (All-map (IsIndexEntry-HasCounter k) entries ready.each)
          (omega (arith, ready.few)) in
      let few = length-large_offsets_of entries in
      let slots = large_slots-slots_of 0 entries in
      let count = large_count_all entries in
      let enough = le→ltb (length large) (length large) (omega arith) in
      let room = le→ltb total_len (declared + length large * 8) fits in
      rw
        (
          fanout.last,
          read_names-names_of d {X = X} 0 k none entries _ h
              (All-map (λ e w. w.hash) entries ready.each)
              (All-map (λ e w. refl) entries ready.each) below,
          fanout_of-named entries,
          check_fanout_same {X = X} (fanout_of entries),
          read_crcs-crcs_of d {X = X} entries _ _ (All-map (λ e w. w.crc32) entries ready.each),
          read_offsets-offset_words d {X = X} 0 entries _ _ (omega (arith, few, ready.few)),
          slots,
          count,
          enough,
          room,
          read_large-long_words d {X = X} (length large) large rest _ refl
              (large_offsets_of-All k entries ready.each),
          place_large_all entries,
          check_offsets-Pairwise {X = X} [] entries (All-map (λ e w. refl) entries ready.each)
              ready.offsets,
        )
        refl

  parse_idx_v2-file_of :
      (k : HashKind) (entries : List IndexEntry) (pack_hash : ObjectHash)
      → IsIdx k entries
      → Pairwise Below entries
      → OfKind k pack_hash
      → parse_idx_v2 d {X = X} (file_of d k entries pack_hash) k
        ≡ ok (record {
          entries = entries;
          pack_hash = pack_hash;
          idx_hash = finalize_object_hash d (update d (sums_hasher d k entries) (as_ref pack_hash));
        })
  unfolding parse_idx_v2_from validate_idx_v2_header
  parse_idx_v2-file_of k entries pack_hash ready below typed =
      let file = file_of d k entries pack_hash in
      let hasher = sums_hasher d k entries in
      let tail = as_ref pack_hash ++ finalize d (update d hasher (as_ref pack_hash)) in
      let tables = words (fanout_of entries) ++ tables_of entries tail in
      let start = hasher_for_kind d k in
      let fanout = IsIdx-IsFanout k entries ready in
      let long = length-file_of d k entries pack_hash ready typed in
      let declared = 8 + 256 * 4 + 2 * size k + (size k + 4 + 4) * length entries in
      let fits = le→ltb (length file) declared (omega (arith, long)) in
      rw
        (
          read_u32_hashed-append d {X = X} idx_magic (to_be_bytes 2 ++ tables) start (omega arith),
          read_u32_hashed-append d {X = X} 2 tables (update d start (to_be_bytes idx_magic))
              (omega arith),
          update-append d start (to_be_bytes idx_magic) (to_be_bytes 2),
          read_fanout-words d {X = X} 256 0 0 (fanout_of entries) (tables_of entries tail)
              (update d start idx_header) fanout.sized fanout.words fanout.rises,
          fanout.last,
          fits,
          read_entries-tables k (length file) declared entries tail
              (update d (update d start idx_header) (words (fanout_of entries))) ready below
              (omega (arith, long)),
          read_trailer-sums {X = X} d k entries pack_hash hasher typed
              (sums_hasher_kind d k entries),
        )
        refl

  -- A pack index that was written for entries of the kind of the pack's checksum, with distinct names
  -- and distinct offsets below 2^64, at most 2^31 of them, is read back: the entries in the order of
  -- their names, large offsets included, the checksum of the pack, and a checksum of the index that the
  -- parser finds right.
  pub parse_idx_v2-write_idx :
      (k : HashKind) (entries : List IndexEntry) (pack_hash : ObjectHash)
      → IsIdx k entries
      → OfKind k pack_hash
      → (file : Bytes) × (idx_hash : ObjectHash) × (write_idx d {X = X}
            (length entries)
            pack_hash
            entries
          ≡ ok file)
        × (parse_idx_v2 d {X = X} file k
            ≡ ok (record {
              entries = sort_by_hash entries;
              pack_hash = pack_hash;
              idx_hash = idx_hash;
            }))
  parse_idx_v2-write_idx k entries pack_hash ready typed =
      let sorted = sort_by_hash entries in
      (
        file_of d k sorted pack_hash,
        _,
        write_idx-file_of d k entries pack_hash typed.of_kind ready.each,
        parse_idx_v2-file_of k sorted pack_hash (sort_by_hash-IsIdx k entries ready)
            (sort_by_hash-Below entries ready.names) typed,
      )
