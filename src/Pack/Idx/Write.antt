-- ===== src/Pack/Idx/Write.antt =====
-- The writer of a pack index, `IdxBuilder` of src/internal/pack/pack_index.rs. Its channel, to which
-- there is a receiver throughout, is the list of the bytes that were sent, with the running hash.
use git_internal.Base.{
  ℕ, not, List, [], ◌∷◌, ◌++◌, Bytes, ◌==◌, if◌then◌else◌, length, map, Result, ok, err, ◌>>=◌,
}
use git_internal.Pack.Header.{to_be_bytes}
use git_internal.Hash.{ObjectHash, kind, as_ref}
use git_internal.Hash.Digest.{Digests, HashAlgorithm, hasher_for_kind, update, finalize}
use git_internal.Pack.Idx.{
  IndexEntry, IdxError, wrong_number, to_be_bytes_64, fanout_of, sort_by_hash, ensure_kinds,
  offset_words, large_offsets_of,
}

module _ (d : Digests) where
  abbrev pub Sink : Type 0
  Sink = Bytes × HashAlgorithm d

  abbrev pub send_data : Bytes → Sink → Sink
  send_data bytes (sent, hasher) = (sent ++ bytes, update d hasher bytes)

  abbrev pub send_each : List Bytes → Sink → Sink
  send_each [] sink = sink
  send_each (bytes ∷ later) sink = send_each later (send_data bytes sink)

  -- From the header to the offsets.
  unfoldable pub write_header : Sink → Sink
  write_header sink = send_data (0xff ∷ 0x74 ∷ 0x4f ∷ 0x63 ∷ 0 ∷ 0 ∷ 0 ∷ 2 ∷ []) sink

  -- The entries are sorted already.
  unfoldable pub write_fanout : List IndexEntry → Sink → Sink
  write_fanout entries sink = send_each (map to_be_bytes (fanout_of entries)) sink

  unfoldable pub write_names : List IndexEntry → Sink → Sink
  write_names entries sink = send_each (map (λ (e : IndexEntry). as_ref e.hash) entries) sink

  unfoldable pub write_crc32 : List IndexEntry → Sink → Sink
  write_crc32 entries sink = send_each (map (λ (e : IndexEntry). to_be_bytes e.crc32) entries) sink

  unfoldable pub write_offsets : List IndexEntry → Sink → Sink
  write_offsets entries sink =
      send_each (map to_be_bytes_64 (large_offsets_of entries))
        (send_each (map to_be_bytes (offset_words 0 entries)) sink)

  unfoldable pub write_trailer : ObjectHash → Sink → Bytes
  write_trailer pack_hash sink =
      let (sent, hasher) = send_data (as_ref pack_hash) sink in sent ++ finalize d hasher

  -- What a new builder sends for the entries.
  unfoldable pub write_idx :
      {X : Type 0} → ℕ → ObjectHash → List IndexEntry → Result (IdxError X) Bytes
  write_idx object_number pack_hash entries =
      if not (length entries == object_number)
      then err (wrong_number (length entries) object_number)
      else (do
        _ ← ensure_kinds (kind pack_hash) entries
        let sink = write_header ([], hasher_for_kind d (kind pack_hash))
        let sorted = sort_by_hash entries
        let sink = write_fanout sorted sink
        let sink = write_names sorted sink
        let sink = write_crc32 sorted sink
        let sink = write_offsets sorted sink
        ok (write_trailer pack_hash sink))
