-- ===== src/Pack/Decode/RoundTrip.antt =====
-- A pack as src/internal/pack/encode/parallel.rs sends it, read by src/internal/pack/decode.rs.
use git_internal.Base.{
  map_err, ◌>>=◌, ℕ, ◌+◌, ◌^◌, ◌<◌, Bool, true, false, ◌||◌, List, [], ◌∷◌, ◌++◌, Bytes, ◌==◌,
  if◌then◌else◌, length, drop, ok, Option, none, some, ◌≡◌, refl, sym, ap, ◌∙◌, arith, All,
  append_assoc, append-nil, take_front,
}
use git_internal.Hash.{HashKind, ObjectHash, as_ref, same_hash, size}
use git_internal.Hash.Kinds.{same_hash_refl}
use git_internal.Hash.Stream.{chunk, from_stream_for_kind}
use git_internal.Hash.Stream.Whole.{from_stream_for_kind-OfKind, drop-OfKind}
use git_internal.Hash.Digest.{Digests, new_for_kind}
use git_internal.Hash.Digest.Objects.{new_for_kind-OfKind}
use git_internal.Pack.Header.RoundTrip.{check_header-encode_header}
use git_internal.Pack.Resolve.{CacheObject}
use git_internal.Pack.Object.{Inflated}
use git_internal.Pack.Idx.Write.{write_idx}
use git_internal.Pack.Encode.{
  encode_idx_file, idx_error, Entry, PackEncoder, new_with_idx_and_hash_kind, parallel_encode,
}
use git_internal.Pack.Encode.Entries.{idx_from, IsEntry, entry_bytes, body}
use git_internal.Pack.Encode.Whole.{
  encode_idx_file-IsSent, header_of, encode_header-header_of, pack_hash_of, parallel_encode-IsSent,
}
use git_internal.Pack.Decode.{
  DecodeOptions, PackFileError, known, is_known, arguments, check_offset, check_signature,
  index_mismatch, trailer_mismatch, read_objects, read_trailer, decode_inner,
}
use git_internal.Pack.Decode.Objects.{Inflates, Agrees, object_of, decode_pack_object-object_of}

module _ (compress : Bytes → Bytes) (crc32 : Bytes → ℕ) where
  -- What the options supply of each entry, by its number and its offset, is right.
  abbrev pub Supplied : DecodeOptions → ℕ → ℕ → List Entry → Type 0
  Supplied o i offset [] = Unit
  Supplied o i offset (e ∷ entries) =
      Agrees (known o.known_offsets i) offset
      × Agrees (known o.known_hashes i) e.hash
      × Agrees (known o.known_crcs i) (crc32 (entry_bytes compress e))
      × Supplied o (1 + i) (offset + length (entry_bytes compress e)) entries

  -- The objects of entries that stand one behind another.
  abbrev pub objects_from : Bool → ℕ → List Entry → List CacheObject
  objects_from track_crc offset [] = []
  objects_from track_crc offset (e ∷ entries) =
      object_of compress crc32 track_crc offset e
      ∷ objects_from track_crc (offset + length (entry_bytes compress e)) entries

module _ {X Z : Type 0} where
  check_offset-Agrees :
      (i offset : ℕ) (expected : Option ℕ)
      → Agrees expected offset
      → check_offset {X = X} {Z = Z} i offset expected ≡ ok tt
  check_offset-Agrees i offset none h = refl
  check_offset-Agrees i offset (some w) h =
      let same : (w == offset) ≡ true = ground (arith, h) in rw same refl

  check_signature-Agrees :
      (mismatch : ObjectHash → ObjectHash → PackFileError X Z) (expected : Option ObjectHash)
      (signature : ObjectHash)
      → Agrees expected signature
      → check_signature mismatch expected signature ≡ ok tt
  check_signature-Agrees mismatch none signature h = refl
  check_signature-Agrees mismatch (some w) signature h =
      let same : same_hash w signature ≡ true =
        ap (λ v. same_hash v signature) h ∙ same_hash_refl signature in
      rw same refl

-- The hash of the stream is compared where the options ask for it.
stream_hash-Agrees :
    (verify : Bool) (hash : ObjectHash) → Agrees (if verify then some hash else none) hash
stream_hash-Agrees true hash = refl
stream_hash-Agrees false hash = tt

module _ {X Z : Type 0} (d : Digests) (compress : Bytes → Bytes) (inflate : Bytes → Inflated Z)
    (crc32 : Bytes → ℕ) (inflates : Inflates compress inflate) (k : HashKind) (o : DecodeOptions)
    (decoded : o.skip_unneeded_objects ≡ false) where
  read_objects-body :
      (entries : List Entry) (i offset : ℕ) (left : Bytes)
      → All (IsEntry X d k) entries
      → Supplied compress crc32 o i offset entries
      → read_objects {X = X} d inflate crc32 k o
          (length entries)
          i
          offset
          (body compress entries ++ left)
        ≡ ok
            (objects_from compress crc32 (o.callback || is_known o.known_crcs) offset entries, left)
  unfolding read_objects
  read_objects-body [] i offset left h right = refl
  read_objects-body (e ∷ entries) i offset left (h, hs) (at_offset, named, checked, later) =
      let bytes = entry_bytes compress e in
      let rest = body compress entries ++ left in
      rw
        (
          check_offset-Agrees {X = X} {Z = Z} i offset (known o.known_offsets i) at_offset,
          append_assoc bytes (body compress entries) left,
          decode_pack_object-object_of {X = X} d compress inflate crc32 inflates k (arguments o i) e
              offset rest h decoded named checked,
          read_objects-body entries (1 + i) (offset + length bytes) left hs later,
        )
        refl

module _ {X Z : Type 0} (d : Digests) (inflate : Bytes → Inflated Z) (crc32 : Bytes → ℕ)
    (k : HashKind) (o : DecodeOptions) where
  -- The trailer of a file that ends with the hash of all that stands before it.
  read_trailer-new_for_kind :
      (front : Bytes)
      → Agrees o.expected_pack_hash (new_for_kind d k front)
      → read_trailer {X = X} d inflate crc32 k o
          (front ++ as_ref (new_for_kind d k front))
          (as_ref (new_for_kind d k front))
        ≡ ok (new_for_kind d k front)
  unfolding read_trailer
  read_trailer-new_for_kind front expected =
      let hash = new_for_kind d k front in
      let typed = new_for_kind-OfKind d k front in
      let whole = append-nil (as_ref hash) in
      let read : (from_stream_for_kind {X = X} k (chunk (as_ref hash) ∷ [])).0 ≡ ok hash =
        ap (λ b. (from_stream_for_kind {X = X} k (chunk b ∷ [])).0) (sym whole)
        ∙ from_stream_for_kind-OfKind {X = X} k hash [] typed in
      let ended : drop (size k) (as_ref hash) ≡ [] =
        ap (drop (size k)) (sym whole) ∙ drop-OfKind k hash [] typed in
      rw
        (
          take_front front (as_ref hash),
          read,
          check_signature-Agrees {X = X} {Z = Z} index_mismatch o.expected_pack_hash hash expected,
          check_signature-Agrees {X = X} {Z = Z} trailer_mismatch
              (if o.verify_pack_stream_hash then some hash else none) hash
              (stream_hash-Agrees o.verify_pack_stream_hash hash),
          ended,
        )
        refl

module _ {X Z : Type 0} (d : Digests) (compress : Bytes → Bytes) (inflate : Bytes → Inflated Z)
    (crc32 : Bytes → ℕ) (inflates : Inflates compress inflate) (k : HashKind) (o : DecodeOptions)
    (decoded : o.skip_unneeded_objects ≡ false) where
  decode_inner-sent :
      (entries : List Entry)
      → 0 < length entries
      → length entries < 2 ^ 32
      → All (IsEntry X d k) entries
      → Supplied compress crc32 o 0 12 entries
      → Agrees o.expected_pack_hash (pack_hash_of d compress k entries)
      → decode_inner {X = X} d inflate crc32 k o (
          header_of (length entries)
          ++ (body compress entries ++ as_ref (pack_hash_of d compress k entries)))
        ≡ ok (
          objects_from compress crc32 (o.callback || is_known o.known_crcs) 12 entries,
          pack_hash_of d compress k entries,
        )
  unfolding decode_inner
  decode_inner-sent entries some_entries few ready right expected =
      let n = length entries in
      let front = header_of n ++ body compress entries in
      let hash = pack_hash_of d compress k entries in
      let trailer : read_trailer {X = X} d inflate crc32 k o
            (header_of n ++ (body compress entries ++ as_ref hash)) (as_ref hash)
          ≡ ok hash =
        ap (λ b. read_trailer {X = X} d inflate crc32 k o b (as_ref hash))
          (sym (append_assoc (header_of n) (body compress entries) (as_ref hash)))
        ∙ read_trailer-new_for_kind {X = X} d inflate crc32 k o front expected in
      rw
        (
          check_header-encode_header n (header_of n) (body compress entries ++ as_ref hash)
              (encode_header-header_of n some_entries few),
          read_objects-body {X = X} d compress inflate crc32 inflates k o decoded entries 0 12
              (as_ref hash) ready right,
          trailer,
        )
        refl

  -- Entries of the plain types, at least one and fewer than 2^32 of them, whose names are those of
  -- their contents for the kind and whose sizes fit in 64 bits, are encoded without an error,
  -- whatever the size of the batches, and the bytes that are sent are a pack that the decoder
  -- reads without an error: it gives exactly the entries in their order, each with its type,
  -- content and name, at the offset and under the CRC that its place in the pack determines,
  -- and the pack's hash is the encoder's. The index that is sent afterwards is what `write_idx` makes
  -- of the hash and of the names, CRCs and places of these entries. This holds for a zlib that gives back what it
  -- compressed and takes nothing of what follows, and for any options of the decoder that decode
  -- every object and supply only offsets, names, CRCs and a pack hash that are right.
  pub decode_inner-parallel_encode :
      (batch_size : ℕ) (entries : List Entry)
      → 0 < batch_size
      → 0 < length entries
      → length entries < 2 ^ 32
      → All (IsEntry X d k) entries
      → Supplied compress crc32 o 0 12 entries
      → Agrees o.expected_pack_hash (pack_hash_of d compress k entries)
      → (enc : PackEncoder d) × (parallel_encode d {X = X} compress crc32 batch_size entries
            (new_with_idx_and_hash_kind d k (length entries) 0)
          ≡ ok enc)
        × (enc.final_hash ≡ some (pack_hash_of d compress k entries))
        × (decode_inner {X = X} d inflate crc32 k o enc.sent
            ≡ ok (
              objects_from compress crc32 (o.callback || is_known o.known_crcs) 12 entries,
              pack_hash_of d compress k entries,
            ))
        × (encode_idx_file d {X = X} enc ≡ (
            map_err idx_error (
              write_idx d {X = X}
                (length entries)
                (pack_hash_of d compress k entries)
                (idx_from compress crc32 12 entries))
            >>= λ file. ok (file, record enc { idx_sender = false })))
  decode_inner-parallel_encode batch_size entries some_size some_entries few ready right expected =
      let (enc, returned, whole) =
        parallel_encode-IsSent {X = X} d compress crc32 k batch_size entries some_size some_entries
          few ready in
      (
        enc,
        returned,
        whole.final_hash,
        ap (decode_inner {X = X} d inflate crc32 k o) whole.sent
            ∙ decode_inner-sent entries some_entries few ready right expected,
        encode_idx_file-IsSent {X = X} d compress crc32 k entries enc whole,
      )
