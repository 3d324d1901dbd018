-- ===== src/Pack/Encode/Whole.antt =====
-- The pack that `parallel_encode` of src/internal/pack/encode/parallel.rs sends.
use git_internal.Base.{
  ℕ, ◌+◌, ◌-◌, ◌^◌, ◌<◌, true, false, ◌||◌, List, ◌∷◌, ◌++◌, Bytes, ◌==◌, ltb, length, ok, map_err,
  ◌>>=◌, some, ◌≡◌, refl, ap, ◌∙◌, arith, All, append_assoc, ==_iff,
}
use git_internal.Hash.{HashKind, ObjectHash, as_ref}
use git_internal.Hash.Digest.{Digests, hasher_for_kind, update, finalize_object_hash, new_for_kind}
use git_internal.Hash.Digest.Objects.{update-append}
use git_internal.Pack.Header.{pack_magic, to_be_bytes, encode_header}
use git_internal.Pack.Idx.Write.{write_idx}
use git_internal.Pack.Encode.{
  Entry, PackEncoder, encode_idx_file, idx_error, new_with_idx_and_hash_kind, parallel_encode,
}
use git_internal.Pack.Encode.Entries.{IsEntry, body, idx_from}
use git_internal.Pack.Encode.Batches.{written, batch_loop-written}

abbrev pub header_of : ℕ → Bytes
header_of n = pack_magic ++ (0 ∷ 0 ∷ 0 ∷ 2 ∷ to_be_bytes n)

pub encode_header-header_of : (n : ℕ) → 0 < n → n < 2 ^ 32 → encode_header n ≡ some (header_of n)
unfolding encode_header
encode_header-header_of n some_objects few =
    let accepted : (n == 0 || ltb (2 ^ 32 - 1) n) ≡ false = ground (arith, some_objects, few) in
    rw accepted refl

-- The checksum of a pack, and the encoder once the pack is sent.
abbrev pub pack_hash_of : (d : Digests) → (Bytes → Bytes) → HashKind → List Entry → ObjectHash
pack_hash_of d compress k entries =
    new_for_kind d k (header_of (length entries) ++ body compress entries)

pub record IsSent (d : Digests) (compress : Bytes → Bytes) (crc32 : Bytes → ℕ) (k : HashKind)
    (entries : List Entry) (enc : PackEncoder d) : Type 0 where
  pub sent :
      enc.sent
      ≡ header_of (length entries)
        ++ (body compress entries ++ as_ref (pack_hash_of d compress k entries))
  pub final_hash : enc.final_hash ≡ some (pack_hash_of d compress k entries)
  pub idx_entries : enc.idx_entries ≡ some (idx_from compress crc32 12 entries)
  pub idx_sender : enc.idx_sender ≡ true
  pub object_number : enc.object_number ≡ length entries

module _ {X : Type 0} (d : Digests) (compress : Bytes → Bytes) (crc32 : Bytes → ℕ)
    (k : HashKind) where
  pub parallel_encode-IsSent :
      (batch_size : ℕ) (entries : List Entry)
      → 0 < batch_size
      → 0 < length entries
      → length entries < 2 ^ 32
      → All (IsEntry X d k) entries
      → (enc : PackEncoder d) × (parallel_encode d {X = X} compress crc32 batch_size entries
            (new_with_idx_and_hash_kind d k (length entries) 0)
          ≡ ok enc)
        × IsSent d compress crc32 k entries enc
  unfolding parallel_encode new_for_kind
  parallel_encode-IsSent batch_size entries some_size some_entries few ready =
      let n = length entries in
      let head = header_of n in
      let hasher = update d (hasher_for_kind d k) head in
      let hash = finalize_object_hash d (update d hasher (body compress entries)) in
      let hashed : hash ≡ pack_hash_of d compress k entries =
        ap (finalize_object_hash d)
          (update-append d (hasher_for_kind d k) head (body compress entries)) in
      let all = (==_iff (0 + n) n).1 (omega arith) in
      (
        record (written d compress k n (0 + n) head 12 hasher entries) {
          pack_sender = false;
          sent = (head ++ body compress entries) ++ as_ref hash;
          final_hash = some hash;
          idx_entries = some (idx_from compress crc32 12 entries);
        },
        rw
            (
              encode_header-header_of n some_entries few,
              batch_loop-written {X = X} d compress crc32 k n n batch_size entries 0 head 12 hasher
                  some_size (omega arith) ready,
              all,
            )
            refl,
        record {
          sent =
              append_assoc head (body compress entries) (as_ref hash)
              ∙ ap (λ (h : ObjectHash). head ++ (body compress entries ++ as_ref h)) hashed;
          final_hash = ap some hashed;
          idx_entries = refl;
          idx_sender = refl;
          object_number = refl;
        },
      )

  -- The index of the names, CRCs and places of the entries is what is written for the pack.
  pub encode_idx_file-IsSent :
      (entries : List Entry) (enc : PackEncoder d)
      → IsSent d compress crc32 k entries enc
      → encode_idx_file d {X = X} enc ≡ (
          map_err idx_error (
            write_idx d {X = X}
              (length entries)
              (pack_hash_of d compress k entries)
              (idx_from compress crc32 12 entries))
          >>= λ file. ok (file, record enc { idx_sender = false }))
  unfolding encode_idx_file
  encode_idx_file-IsSent entries enc whole =
      rw (whole.idx_sender, whole.final_hash, whole.idx_entries, whole.object_number) refl
