-- ===== src/Pack/Idx/Written.antt =====
-- The file that `IdxBuilder` of src/internal/pack/pack_index.rs sends.
use git_internal.Base.{
  ℕ, ◌+◌, ◌*◌, List, [], ◌∷◌, ◌++◌, Bytes, length, map, ok, ◌≡◌, refl, sym, ap, ◌∙◌, subst, arith,
  All, All-map, ==_iff, length-append, append_assoc,
}
use git_internal.Pack.Header.{to_be_bytes}
use git_internal.Hash.{HashKind, ObjectHash, size, kind, as_ref, ensure_kind}
use git_internal.Hash.Kinds.{OfKind, ensure_kind-same}
use git_internal.Hash.Digest.{
  Digests, HashAlgorithm, hasher_for_kind, hasher_kind, update, finalize,
}
use git_internal.Hash.Digest.Objects.{finalized}
use git_internal.Pack.Idx.{
  to_be_bytes_64, IndexEntry, fanout_of, sort_by_hash, ensure_kinds, offset_words, large_offsets_of,
}
use git_internal.Pack.Idx.Write.{
  Sink, send_each, write_header, write_fanout, write_names, write_crc32, write_offsets,
  write_trailer, write_idx,
}
use git_internal.Pack.Idx.Fanout.{IsFanout, fanout_of-IsFanout}
use git_internal.Pack.Idx.Trailer.{finalize_eq, update_kind, hasher_for_kind_kind}
use git_internal.Pack.Idx.Tables.{words, long_words, names_of, crcs_of, send_each-concat}
use git_internal.Pack.Idx.Lengths.{
  IsIndexEntry, IsIdx, IsIndexEntry-HasCounter, length-offset_words, length-words,
  length-long_words, length-crcs_of, length-names_of,
}

-- The magic number and the version.
abbrev pub idx_header : Bytes
idx_header = 0xff ∷ 0x74 ∷ 0x4f ∷ 0x63 ∷ 0 ∷ 0 ∷ 0 ∷ 2 ∷ []

-- The tables from the names on, in front of what follows, and the running hash behind them.
abbrev pub tables_of : List IndexEntry → Bytes → Bytes
tables_of entries rest =
    names_of entries
    ++ (crcs_of entries
        ++ (words (offset_words 0 entries) ++ (long_words (large_offsets_of entries) ++ rest)))

abbrev pub tables_hasher : (d : Digests) → HashAlgorithm d → List IndexEntry → HashAlgorithm d
tables_hasher d h entries =
    update d
      (update d (update d (update d h (names_of entries)) (crcs_of entries))
        (words (offset_words 0 entries)))
      (long_words (large_offsets_of entries))

-- The fanout table of entries that can be written.
pub IsIdx-IsFanout :
    (k : HashKind) (entries : List IndexEntry)
    → IsIdx k entries
    → IsFanout (length entries) (fanout_of entries)
IsIdx-IsFanout k entries ready =
    fanout_of-IsFanout entries (All-map (IsIndexEntry-HasCounter k) entries ready.each)
      (omega (arith, ready.few))

entry_size : (k : HashKind) (n : ℕ) → (size k + 4 + 4) * n ≡ size k * n + 8 * n
entry_size HashKind.sha1 n = omega arith
entry_size HashKind.sha256 n = omega arith
entry_size HashKind.blake3 n = omega arith

module _ (d : Digests) where
  -- The running hash behind the tables, and the file, for sorted entries.
  abbrev pub sums_hasher : HashKind → List IndexEntry → HashAlgorithm d
  sums_hasher k entries =
      tables_hasher d
        (update d (update d (hasher_for_kind d k) idx_header) (words (fanout_of entries))) entries

  abbrev pub file_of : HashKind → List IndexEntry → ObjectHash → Bytes
  file_of k entries pack_hash =
      idx_header
      ++ (words (fanout_of entries)
          ++ tables_of entries (
              as_ref pack_hash ++ finalize d (update d (sums_hasher k entries) (as_ref pack_hash))))

  sent_tables :
      (entries : List IndexEntry) (sent : Bytes) (h : HashAlgorithm d)
      → write_offsets d entries
          (write_crc32 d entries (write_names d entries (write_fanout d entries (sent, h))))
        ≡ (
          (((((sent ++ words (fanout_of entries)) ++ names_of entries) ++ crcs_of entries)
                ++ words (offset_words 0 entries))
              ++ long_words (large_offsets_of entries)),
          tables_hasher d (update d h (words (fanout_of entries))) entries,
        )
  unfolding write_fanout write_names write_crc32 write_offsets
  sent_tables entries sent h =
      let names = map (λ (e : IndexEntry). as_ref e.hash) entries in
      let crcs = map (λ (e : IndexEntry). to_be_bytes e.crc32) entries in
      let offsets = map to_be_bytes (offset_words 0 entries) in
      let large = map to_be_bytes_64 (large_offsets_of entries) in
      ap
        (λ (s : Sink d).
          send_each d large (send_each d offsets (send_each d crcs (send_each d names s))))
        (send_each-concat d (map to_be_bytes (fanout_of entries)) sent h)
      ∙ ap (λ (s : Sink d). send_each d large (send_each d offsets (send_each d crcs s)))
          (send_each-concat d names _ _)
      ∙ ap (λ (s : Sink d). send_each d large (send_each d offsets s)) (send_each-concat d crcs _ _)
      ∙ ap (λ (s : Sink d). send_each d large s) (send_each-concat d offsets _ _)
      ∙ send_each-concat d large _ _

  written :
      (k : HashKind) (entries : List IndexEntry) (pack_hash : ObjectHash)
      → write_trailer d pack_hash (
          write_offsets d entries (
            write_crc32 d entries (
              write_names d entries
                (write_fanout d entries (write_header d ([], hasher_for_kind d k))))))
        ≡ file_of k entries pack_hash
  unfolding write_header write_trailer
  written k entries pack_hash =
      ap (write_trailer d pack_hash)
        (sent_tables entries idx_header (update d (hasher_for_kind d k) idx_header))
      ∙ simp append_assoc

  pub sums_hasher_kind :
      (k : HashKind) (entries : List IndexEntry) → hasher_kind d (sums_hasher k entries) ≡ k
  sums_hasher_kind k entries = update_kind d k _ _ (
      update_kind d k _ _ (
        update_kind d k _ _ (
          update_kind d k _ _
            (update_kind d k _ _ (update_kind d k _ _ (hasher_for_kind_kind d k))))))

  sum_length :
      (k : HashKind) (entries : List IndexEntry) (pack_hash : ObjectHash)
      → length (finalize d (update d (sums_hasher k entries) (as_ref pack_hash))) ≡ size k
  sum_length k entries pack_hash =
      let hasher = update d (sums_hasher k entries) (as_ref pack_hash) in
      let typed = finalized d hasher in
      ap (λ (bs : Bytes). length bs) (sym (finalize_eq d hasher))
      ∙ typed.well_formed.sized
      ∙ ap size (typed.of_kind ∙ update_kind d k _ _ (sums_hasher_kind k entries))

  pub length-file_of :
      (k : HashKind) (entries : List IndexEntry) (pack_hash : ObjectHash)
      → IsIdx k entries
      → OfKind k pack_hash
      → length (file_of k entries pack_hash)
        ≡ 8
          + 256 * 4
          + 2 * size k
          + (size k + 4 + 4) * length entries
          + length (large_offsets_of entries) * 8
  length-file_of k entries pack_hash ready typed =
      let large = large_offsets_of entries in
      let offsets = offset_words 0 entries in
      let hasher = sums_hasher k entries in
      let sum = finalize d (update d hasher (as_ref pack_hash)) in
      let tail = as_ref pack_hash ++ sum in
      let fanout = IsIdx-IsFanout k entries ready in
      omega (
        arith,
        length-append idx_header (words (fanout_of entries) ++ tables_of entries tail),
        length-append (words (fanout_of entries)) (tables_of entries tail),
        length-append (names_of entries)
            (crcs_of entries ++ (words offsets ++ (long_words large ++ tail))),
        length-append (crcs_of entries) (words offsets ++ (long_words large ++ tail)),
        length-append (words offsets) (long_words large ++ tail),
        length-append (long_words large) tail,
        length-append (as_ref pack_hash) sum,
        length-words (fanout_of entries),
        fanout.sized,
        length-names_of k entries ready.each,
        length-crcs_of entries,
        length-words offsets,
        length-offset_words 0 entries,
        length-long_words large,
        typed.well_formed.sized ∙ ap size typed.of_kind,
        sum_length k entries pack_hash,
        entry_size k (length entries),
      )

module _ {X : Type 0} (d : Digests) where
  ensure_kinds-IsIdx :
      (k : HashKind) (entries : List IndexEntry)
      → All (IsIndexEntry k) entries
      → ensure_kinds {X = X} k entries ≡ ok tt
  ensure_kinds-IsIdx k [] h = refl
  ensure_kinds-IsIdx k (e ∷ entries) (h, hs) =
      let same : ensure_kind {X = X} e.hash k ≡ ok tt =
        subst (λ j. ensure_kind {X = X} e.hash j ≡ ok tt) h.hash.of_kind
          (ensure_kind-same e.hash) in
      rw same (ensure_kinds-IsIdx k entries hs)

  pub write_idx-file_of :
      (k : HashKind) (entries : List IndexEntry) (pack_hash : ObjectHash)
      → kind pack_hash ≡ k
      → All (IsIndexEntry k) entries
      → write_idx d {X = X} (length entries) pack_hash entries
        ≡ ok (file_of d k (sort_by_hash entries) pack_hash)
  unfolding write_idx
  write_idx-file_of k entries pack_hash of_kind each =
      let sorted = sort_by_hash entries in
      let counted = (==_iff (length entries) (length entries)).1 refl in
      rw (counted, of_kind, ensure_kinds-IsIdx k entries each)
        (ap ok (written d k sorted pack_hash))
