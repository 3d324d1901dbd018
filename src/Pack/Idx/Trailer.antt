-- ===== src/Pack/Idx/Trailer.antt =====
-- The checksums of a pack index, src/internal/pack/pack_index.rs.
use git_internal.Base.{
  List, [], ◌++◌, Bytes, length, ok, ◌≡◌, refl, sym, ap, ap₂, ◌∙◌, subst, append-nil,
}
use git_internal.Delta.Decode.{read_exact}
use git_internal.Delta.Decode.Stream.{read_exact-append}
use git_internal.Hash.{HashKind, ObjectHash, size, as_ref, from_bytes_for_kind}
use git_internal.Hash.Kinds.{OfKind, same_hash_refl, from_bytes_for_kind-sized}
use git_internal.Hash.Digest.{
  Digests, HashAlgorithm, hasher_for_kind, hasher_kind, update, finalize, finalize_object_hash,
}
use git_internal.Hash.Digest.Objects.{finalized}
use git_internal.Pack.Idx.{IndexEntry}
use git_internal.Pack.Idx.Read.{read_trailer}
use git_internal.Pack.Idx.Tables.{named_hash, read_exact_hashed-append}

module _ (d : Digests) where
  pub finalize_eq : (h : HashAlgorithm d) → as_ref (finalize_object_hash d h) ≡ finalize d h
  finalize_eq (HashAlgorithm.sha1 s) = refl
  finalize_eq (HashAlgorithm.sha256 s) = refl
  finalize_eq (HashAlgorithm.blake3 s) = refl

  pub update_kind :
      (k : HashKind) (h : HashAlgorithm d) (bs : Bytes)
      → hasher_kind d h ≡ k
      → hasher_kind d (update d h bs) ≡ k
  update_kind k (HashAlgorithm.sha1 s) bs e = e
  update_kind k (HashAlgorithm.sha256 s) bs e = e
  update_kind k (HashAlgorithm.blake3 s) bs e = e

  pub hasher_for_kind_kind : (k : HashKind) → hasher_kind d (hasher_for_kind d k) ≡ k
  hasher_for_kind_kind HashKind.sha1 = refl
  hasher_for_kind_kind HashKind.sha256 = refl
  hasher_for_kind_kind HashKind.blake3 = refl

module _ {X : Type 0} (d : Digests) where
  pub name_read :
      (k : HashKind) (h : ObjectHash)
      → OfKind k h
      → (length (as_ref h) ≡ size k) × (from_bytes_for_kind {X = X} k (as_ref h) ≡ ok h)
  name_read k h typed =
      let long : length (as_ref h) ≡ size k = typed.well_formed.sized ∙ ap size typed.of_kind in
      (long, from_bytes_for_kind-sized k (as_ref h) long ∙ ap ok (named_hash k h typed))

  -- The checksums and the end of the file.
  pub read_trailer-sums :
      (k : HashKind) (entries : List IndexEntry) (pack_hash : ObjectHash) (h : HashAlgorithm d)
      → OfKind k pack_hash
      → hasher_kind d h ≡ k
      → read_trailer d {X = X} k entries
          (as_ref pack_hash ++ finalize d (update d h (as_ref pack_hash)), h)
        ≡ ok (record {
          entries = entries;
          pack_hash = pack_hash;
          idx_hash = finalize_object_hash d (update d h (as_ref pack_hash));
        })
  unfolding read_trailer
  read_trailer-sums k entries pack_hash h typed of_kind =
      let hasher = update d h (as_ref pack_hash) in
      let sum = finalize_object_hash d hasher in
      let sum_kind : OfKind k sum =
        subst (λ j. OfKind j sum) (update_kind d k h (as_ref pack_hash) of_kind)
          (finalized d hasher) in
      let (pack_long, pack_read) = name_read k pack_hash typed in
      let (sum_long, sum_read) = name_read k sum sum_kind in
      let read : read_exact (size k) (as_ref sum) ≡ ok (as_ref sum, []) =
        ap₂ read_exact (sym sum_long) (sym (append-nil (as_ref sum)))
        ∙ read_exact-append (as_ref sum) [] in
      rw
        (
          sym (finalize_eq d hasher),
          read_exact_hashed-append d {X = X} {n = size k} (as_ref pack_hash) (as_ref sum) h
              pack_long,
          pack_read,
          read,
          sum_read,
          same_hash_refl sum,
        )
        refl
