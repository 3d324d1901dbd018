-- ===== src/Hash/Digest.antt =====
-- The digests of src/hash.rs and the hashers of src/utils.rs. The hash functions are libraries: the
-- record `Digests` holds their states and calls, and what their documentation says of them.
pub mod Objects
pub mod Loose
use git_internal.Base.{
  ℕ, ◌+◌, ◌*◌, List, [], ◌∷◌, ◌++◌, Bytes, IsByte, All, length, Result, ok, err, Option, none, some,
  ◌>>=◌, ◌≡◌,
}
use mathlib.Core.Option
use git_internal.Base.Decimal.{decimal}
use git_internal.Object.Types.{ObjectType}
use git_internal.Object.Names.{to_bytes, to_data}
use git_internal.Hash.Parse.{ok_or}
use git_internal.Hash.{
  HashKind, ObjectHash, HashError, unsupported_object_type, in_from_type_and_data, size,
}

pub record Digests : Type 1 where
  pub State : HashKind → Type 0
  pub new : (k : HashKind) → State k
  pub update : (k : HashKind) → State k → Bytes → State k
  pub finalize : (k : HashKind) → State k → Bytes
  pub update-append :
      (k : HashKind) (s : State k) (a b : Bytes) → update k (update k s a) b ≡ update k s (a ++ b)
  pub update-nil : (k : HashKind) (s : State k) → update k s [] ≡ s
  pub length-finalize : (k : HashKind) (s : State k) → length (finalize k s) ≡ size k
  pub finalize-All : (k : HashKind) (s : State k) → All IsByte (finalize k s)

module _ (d : Digests) where
  pub data HashAlgorithm : Type 0 where
    sha1 : d.State HashKind.sha1 → HashAlgorithm
    sha256 : d.State HashKind.sha256 → HashAlgorithm
    blake3 : d.State HashKind.blake3 → HashAlgorithm

  -- The hasher's constructor for a kind.
  abbrev pub hasher_for_kind : HashKind → HashAlgorithm
  hasher_for_kind HashKind.sha1 = HashAlgorithm.sha1 (d.new HashKind.sha1)
  hasher_for_kind HashKind.sha256 = HashAlgorithm.sha256 (d.new HashKind.sha256)
  hasher_for_kind HashKind.blake3 = HashAlgorithm.blake3 (d.new HashKind.blake3)

  -- `HashAlgorithm::kind`.
  abbrev pub hasher_kind : HashAlgorithm → HashKind
  hasher_kind (HashAlgorithm.sha1 s) = HashKind.sha1
  hasher_kind (HashAlgorithm.sha256 s) = HashKind.sha256
  hasher_kind (HashAlgorithm.blake3 s) = HashKind.blake3

  abbrev pub update : HashAlgorithm → Bytes → HashAlgorithm
  update (HashAlgorithm.sha1 s) bs = HashAlgorithm.sha1 (d.update HashKind.sha1 s bs)
  update (HashAlgorithm.sha256 s) bs = HashAlgorithm.sha256 (d.update HashKind.sha256 s bs)
  update (HashAlgorithm.blake3 s) bs = HashAlgorithm.blake3 (d.update HashKind.blake3 s bs)

  -- `Write::write`, with the number of bytes written.
  abbrev pub write : HashAlgorithm → Bytes → ℕ × HashAlgorithm
  write hasher buf = (length buf, update hasher buf)

  abbrev pub finalize : HashAlgorithm → Bytes
  finalize (HashAlgorithm.sha1 s) = d.finalize HashKind.sha1 s
  finalize (HashAlgorithm.sha256 s) = d.finalize HashKind.sha256 s
  finalize (HashAlgorithm.blake3 s) = d.finalize HashKind.blake3 s

  abbrev pub finalize_object_hash : HashAlgorithm → ObjectHash
  finalize_object_hash (HashAlgorithm.sha1 s) = ObjectHash.sha1 (d.finalize HashKind.sha1 s)
  finalize_object_hash (HashAlgorithm.sha256 s) = ObjectHash.sha256 (d.finalize HashKind.sha256 s)
  finalize_object_hash (HashAlgorithm.blake3 s) = ObjectHash.blake3 (d.finalize HashKind.blake3 s)

  -- `ObjectHash::new_for_kind`.
  unfoldable pub new_for_kind : HashKind → Bytes → ObjectHash
  new_for_kind k bs = finalize_object_hash (update (hasher_for_kind k) bs)

  -- The five updates of the object's header and payload, one after another.
  unfoldable pub from_type_and_data_for_kind :
      {X : Type 0} → HashKind → ObjectType → Bytes → Result (HashError X) ObjectHash
  from_type_and_data_for_kind k object_type bs = do
    type_bytes ←
        ok_or (to_bytes object_type)
          (unsupported_object_type in_from_type_and_data k object_type (size k) 0 (length bs))
    let hasher = update (hasher_for_kind k) type_bytes
    let hasher = update hasher (32 ∷ [])
    let hasher = update hasher (decimal (length bs))
    let hasher = update hasher (0 ∷ [])
    let hasher = update hasher bs
    ok (finalize_object_hash hasher)

  -- The legacy constructor, which panics where the type has no name; the kind is the thread's.
  unfoldable pub from_type_and_data : HashKind → ObjectType → Bytes → Option ObjectHash
  from_type_and_data k object_type bs =
      Option.map
        (λ (type_bytes : Bytes).
          new_for_kind k (type_bytes ++ (32 ∷ [] ++ (decimal (length bs) ++ (0 ∷ [] ++ bs)))))
        (to_data object_type)
