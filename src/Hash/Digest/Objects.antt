-- ===== src/Hash/Digest/Objects.antt =====
-- The digests of src/hash.rs: the identifiers of objects.
use git_internal.Base.{
  [], ◌∷◌, ◌++◌, Bytes, length, ok, some, inl, inr, Option-cases, Option-map-some, subst, ◌≡◌, refl,
  sym, ap, ◌∙◌,
}
use git_internal.Base.Decimal.{decimal}
use git_internal.Object.Types.{ObjectType}
use git_internal.Object.Names.{to_bytes, to_data}
use git_internal.Object.Names.RoundTrip.{ObjectType-Named}
use git_internal.Hash.{HashKind, ObjectHash, unsupported_object_type, in_from_type_and_data, size}
use git_internal.Hash.Parse.{ok_or}
use git_internal.Hash.Kinds.{OfKind, ok_or-inv}
use git_internal.Hash.Digest.{
  Digests, HashAlgorithm, hasher_for_kind, hasher_kind, update, finalize_object_hash, new_for_kind,
  from_type_and_data_for_kind, from_type_and_data,
}

module _ (d : Digests) where
  pub update-append :
      (h : HashAlgorithm d) (a b : Bytes) → update d (update d h a) b ≡ update d h (a ++ b)
  update-append (HashAlgorithm.sha1 s) a b =
      ap HashAlgorithm.sha1 (d.update-append HashKind.sha1 s a b)
  update-append (HashAlgorithm.sha256 s) a b =
      ap HashAlgorithm.sha256 (d.update-append HashKind.sha256 s a b)
  update-append (HashAlgorithm.blake3 s) a b =
      ap HashAlgorithm.blake3 (d.update-append HashKind.blake3 s a b)

  pub update-nil : (h : HashAlgorithm d) → update d h [] ≡ h
  update-nil (HashAlgorithm.sha1 s) = ap HashAlgorithm.sha1 (d.update-nil HashKind.sha1 s)
  update-nil (HashAlgorithm.sha256 s) = ap HashAlgorithm.sha256 (d.update-nil HashKind.sha256 s)
  update-nil (HashAlgorithm.blake3 s) = ap HashAlgorithm.blake3 (d.update-nil HashKind.blake3 s)

  -- Five updates are one.
  five_updates :
      (h : HashAlgorithm d) (a b c e f : Bytes)
      → update d (update d (update d (update d (update d h a) b) c) e) f
        ≡ update d h (a ++ (b ++ (c ++ (e ++ f))))
  five_updates h a b c e f =
      update-append (update d (update d (update d h a) b) c) e f
      ∙ update-append (update d (update d h a) b) c (e ++ f)
      ∙ update-append (update d h a) b (c ++ (e ++ f))
      ∙ update-append h a (b ++ (c ++ (e ++ f)))

  pub finalized : (h : HashAlgorithm d) → OfKind (hasher_kind d h) (finalize_object_hash d h)
  finalized (HashAlgorithm.sha1 s) = record {
    of_kind = refl;
    well_formed = record {
      sized = d.length-finalize HashKind.sha1 s;
      bytes = d.finalize-All HashKind.sha1 s;
    };
  }
  finalized (HashAlgorithm.sha256 s) = record {
    of_kind = refl;
    well_formed = record {
      sized = d.length-finalize HashKind.sha256 s;
      bytes = d.finalize-All HashKind.sha256 s;
    };
  }
  finalized (HashAlgorithm.blake3 s) = record {
    of_kind = refl;
    well_formed = record {
      sized = d.length-finalize HashKind.blake3 s;
      bytes = d.finalize-All HashKind.blake3 s;
    };
  }

  -- What a hasher of a kind makes of any bytes is an identifier of that kind.
  pub new_for_kind-OfKind : (k : HashKind) (bs : Bytes) → OfKind k (new_for_kind d k bs)
  unfolding new_for_kind
  new_for_kind-OfKind HashKind.sha1 bs =
      finalized (HashAlgorithm.sha1 (d.update HashKind.sha1 (d.new HashKind.sha1) bs))
  new_for_kind-OfKind HashKind.sha256 bs =
      finalized (HashAlgorithm.sha256 (d.update HashKind.sha256 (d.new HashKind.sha256) bs))
  new_for_kind-OfKind HashKind.blake3 bs =
      finalized (HashAlgorithm.blake3 (d.update HashKind.blake3 (d.new HashKind.blake3) bs))

  -- Streaming the header and the payload gives the identifier that the legacy constructor gives for
  -- the copied bytes on a thread of the same kind, for every object type: where that one panics,
  -- for the delta types, the result is the error for an unsupported type.
  pub from_type_and_data_for_kind-from_type_and_data :
      {X : Type 0} (k : HashKind) (object_type : ObjectType) (bs : Bytes)
      → from_type_and_data_for_kind d {X = X} k object_type bs
        ≡ ok_or
            (from_type_and_data d k object_type bs)
            (unsupported_object_type in_from_type_and_data k object_type (size k) 0 (length bs))
  unfolding from_type_and_data_for_kind from_type_and_data new_for_kind
  from_type_and_data_for_kind-from_type_and_data k object_type bs =
      let same = (ObjectType-Named object_type).same_name in
      elim (Option-cases (to_bytes object_type)) [
        | inl unnamed ↦ rw (unnamed, same ∙ unnamed) refl
        | inr (name, named) ↦
            rw (named, same ∙ named)
              (ap (λ h. ok (finalize_object_hash d h))
                (five_updates (hasher_for_kind d k) name (32 ∷ []) (decimal (length bs)) (0 ∷ [])
                  bs))
      ]

  from_type_and_data-OfKind :
      (k : HashKind) (object_type : ObjectType) (bs : Bytes) {h : ObjectHash}
      → from_type_and_data d k object_type bs ≡ some h
      → OfKind k h
  unfolding from_type_and_data
  from_type_and_data-OfKind k object_type bs e =
      let (name, named, same) = Option-map-some _ (to_data object_type) e in
      subst (OfKind k) same (new_for_kind-OfKind k _)

  -- An identifier that is computed for an object is of the kind that was asked for.
  pub from_type_and_data_for_kind-OfKind :
      {X : Type 0} (k : HashKind) (object_type : ObjectType) (bs : Bytes) {h : ObjectHash}
      → from_type_and_data_for_kind d {X = X} k object_type bs ≡ ok h
      → OfKind k h
  from_type_and_data_for_kind-OfKind k object_type bs e =
      from_type_and_data-OfKind k object_type bs (
        ok_or-inv (from_type_and_data d k object_type bs) _
          (sym (from_type_and_data_for_kind-from_type_and_data k object_type bs) ∙ e))
