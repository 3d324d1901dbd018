-- ===== src/Hash/Kinds.antt =====
-- The kinds of the identifiers that the constructors and parsers of src/hash.rs return.
use git_internal.Base.{
  arith, sym, [], ◌∷◌, ◌&&◌, same_bytes, ap₂, ℕ, Bool, true, false, Bytes, IsByte, All, ◌==◌,
  if◌then◌else◌, length, ok, map_err, >>=-eq-ok, ok-injective, map_err-eq-ok, guard-eq-ok, Option,
  none, some, ◌≡◌, ◌≢◌, refl, ◌∙◌, ap, subst, ==→eq, ==_iff,
}
use git_internal.Hash.{
  same_hash, HashKind, ObjectHash, size, hex_len, as_ref, kind, variant, same_kind, IsObjectHash,
  ensure_kind, from_bytes_for_kind,
}
use git_internal.Hash.Parse.{
  Hex, infer_kind, ok_or, bad_length, parse_kind, split_once, from_str, from_hex_for_kind,
  from_tagged_str,
}

both_true : (a b : Bool) → (a && b) ≡ true → (a ≡ true) × (b ≡ true)
both_true true b e = (refl, e)
both_true false b e = cc

pub same_kind_refl : (k : HashKind) → same_kind k k ≡ true
same_kind_refl HashKind.sha1 = refl
same_kind_refl HashKind.sha256 = refl
same_kind_refl HashKind.blake3 = refl

pub same_kind→eq : (k l : HashKind) → same_kind k l ≡ true → k ≡ l
same_kind→eq HashKind.sha1 HashKind.sha1 e = refl
same_kind→eq HashKind.sha1 HashKind.sha256 e = cc
same_kind→eq HashKind.sha1 HashKind.blake3 e = cc
same_kind→eq HashKind.sha256 HashKind.sha1 e = cc
same_kind→eq HashKind.sha256 HashKind.sha256 e = refl
same_kind→eq HashKind.sha256 HashKind.blake3 e = cc
same_kind→eq HashKind.blake3 HashKind.sha1 e = cc
same_kind→eq HashKind.blake3 HashKind.sha256 e = cc
same_kind→eq HashKind.blake3 HashKind.blake3 e = refl

same_bytes_refl : (a : Bytes) → same_bytes a a ≡ true
same_bytes_refl [] = refl
same_bytes_refl (b ∷ bs) =
    let here : (b == b) ≡ true = ground arith in rw (here, same_bytes_refl bs) refl

pub same_hash_refl : (h : ObjectHash) → same_hash h h ≡ true
same_hash_refl h = rw (same_kind_refl (kind h)) (same_bytes_refl (as_ref h))

same_bytes→eq : (a b : Bytes) → same_bytes a b ≡ true → a ≡ b
same_bytes→eq [] [] e = refl
same_bytes→eq [] (b ∷ bs) e = cc
same_bytes→eq (a ∷ xs) [] e = cc
same_bytes→eq (a ∷ xs) (b ∷ bs) e =
    let (here, later) = both_true (a == b) (same_bytes xs bs) e in
    ap₂ ◌∷◌ (==→eq a b here) (same_bytes→eq xs bs later)

pub kind-variant : (k : HashKind) (bs : Bytes) → kind (variant k bs) ≡ k
kind-variant HashKind.sha1 bs = refl
kind-variant HashKind.sha256 bs = refl
kind-variant HashKind.blake3 bs = refl

pub as_ref-variant : (k : HashKind) (bs : Bytes) → as_ref (variant k bs) ≡ bs
as_ref-variant HashKind.sha1 bs = refl
as_ref-variant HashKind.sha256 bs = refl
as_ref-variant HashKind.blake3 bs = refl

pub variant-kind : (h : ObjectHash) → variant (kind h) (as_ref h) ≡ h
variant-kind (ObjectHash.sha1 bs) = refl
variant-kind (ObjectHash.sha256 bs) = refl
variant-kind (ObjectHash.blake3 bs) = refl

pub same_hash→eq : (g h : ObjectHash) → same_hash g h ≡ true → g ≡ h
same_hash→eq g h e =
    let (kinds, bytes) =
      both_true (same_kind (kind g) (kind h)) (same_bytes (as_ref g) (as_ref h)) e in
    sym (variant-kind g)
    ∙ ap₂ variant (same_kind→eq (kind g) (kind h) kinds) (same_bytes→eq (as_ref g) (as_ref h) bytes)
    ∙ variant-kind h

-- An identifier of a kind: its variant is that kind's, and it holds that kind's number of bytes.
pub record OfKind (k : HashKind) (h : ObjectHash) : Type 0 where
  pub of_kind : kind h ≡ k
  pub well_formed : IsObjectHash h

variant-OfKind :
    (k : HashKind) (bs : Bytes) → length bs ≡ size k → All IsByte bs → OfKind k (variant k bs)
variant-OfKind HashKind.sha1 bs e h = record {
  of_kind = refl;
  well_formed = record { sized = e; bytes = h };
}
variant-OfKind HashKind.sha256 bs e h = record {
  of_kind = refl;
  well_formed = record { sized = e; bytes = h };
}
variant-OfKind HashKind.blake3 bs e h = record {
  of_kind = refl;
  well_formed = record { sized = e; bytes = h };
}

pub ok_or-inv {ℓ κ} :
    {A : Type ℓ} {E : Type κ} (o : Option A) (e : E) {a : A} → ok_or o e ≡ ok a → o ≡ some a
ok_or-inv none e r = cc
ok_or-inv (some b) e r = ap some (ok-injective refl r)

module _ {X : Type 0} where
  pub from_bytes_for_kind-sized :
      (k : HashKind) (bs : Bytes)
      → length bs ≡ size k
      → from_bytes_for_kind {X = X} k bs ≡ ok (variant k bs)
  unfolding from_bytes_for_kind
  from_bytes_for_kind-sized k bs e = rw ((==_iff (length bs) (size k)).1 e) refl

  pub from_bytes_for_kind-inv :
      (k : HashKind) (bs : Bytes) {h : ObjectHash}
      → from_bytes_for_kind {X = X} k bs ≡ ok h
      → (length bs ≡ size k) × (variant k bs ≡ h)
  unfolding from_bytes_for_kind
  from_bytes_for_kind-inv k bs e =
      let (t, r) = guard-eq-ok (length bs == size k) _ (ok (variant k bs)) e in
      (==→eq (length bs) (size k) t, ok-injective refl r)

  pub from_bytes_for_kind-OfKind :
      (k : HashKind) (bs : Bytes) {h : ObjectHash}
      → All IsByte bs
      → from_bytes_for_kind {X = X} k bs ≡ ok h
      → OfKind k h
  from_bytes_for_kind-OfKind k bs a e =
      let (sized, same) = from_bytes_for_kind-inv k bs e in
      subst (OfKind k) same (variant-OfKind k bs sized a)

  -- Both outcomes of the test on a kind.
  pub ensure_kind-same : (h : ObjectHash) → ensure_kind {X = X} h (kind h) ≡ ok tt
  unfolding ensure_kind
  ensure_kind-same h = rw (same_kind_refl (kind h)) refl

  pub ensure_kind-inv :
      (h : ObjectHash) (k : HashKind) {u : Unit {0}} → ensure_kind {X = X} h k ≡ ok u → kind h ≡ k
  unfolding ensure_kind
  ensure_kind-inv h k e =
      let (t, r) = guard-eq-ok (same_kind (kind h) k) _ (ok tt) e in same_kind→eq (kind h) k t

  module _ (hex : Hex X) where
    -- What `from_hex_for_kind` accepts, it gives as an identifier of the kind that was asked for,
    -- of which the text is as long as that kind's are.
    pub from_hex_for_kind-OfKind :
        (k : HashKind) (hex_str : Bytes) {h : ObjectHash}
        → from_hex_for_kind hex k hex_str ≡ ok h
        → OfKind k h × (length hex_str ≡ hex_len k)
    unfolding from_hex_for_kind
    from_hex_for_kind-OfKind k hex_str e =
        let (t, r) = guard-eq-ok (length hex_str == hex_len k) _ _ e in
        let (bytes, d, f) = >>=-eq-ok (map_err _ (hex.decode hex_str)) _ r in
        (
          from_bytes_for_kind-OfKind k bytes
              (hex.decode-All hex_str bytes (map_err-eq-ok _ (hex.decode hex_str) d)) f,
          ==→eq (length hex_str) (hex_len k) t,
        )

    two_kinds :
        (a b : Bool)
        → (if a then some HashKind.sha1 else if b then some HashKind.sha256 else none)
          ≢ some HashKind.blake3
    two_kinds true b e = cc
    two_kinds false true e = cc
    two_kinds false false e = cc

    infer_kind-blake3 : (n : ℕ) → infer_kind n ≢ some HashKind.blake3
    infer_kind-blake3 n e = two_kinds (n == 40) (n == 64) e

    -- What `from_str` accepts is an identifier of the kind that the length of the text stands for,
    -- so never a BLAKE3 one.
    pub from_str-OfKind :
        (s : Bytes) {h : ObjectHash}
        → from_str hex s ≡ ok h
        → (k : HashKind) × (infer_kind (length s) ≡ some k) × OfKind k h × (k ≢ HashKind.blake3)
    unfolding from_str
    from_str-OfKind s e =
        let (k, i, r) = >>=-eq-ok (ok_or (infer_kind (length s)) bad_length) _ e in
        let (bytes, d, f) = >>=-eq-ok (map_err _ (hex.decode s)) _ r in
        let inferred = ok_or-inv (infer_kind (length s)) bad_length i in
        (
          k,
          inferred,
          from_bytes_for_kind-OfKind k bytes
              (hex.decode-All s bytes (map_err-eq-ok _ (hex.decode s) d))
              (map_err-eq-ok _ (from_bytes_for_kind {X = X} k bytes) f),
          λ b. infer_kind-blake3 (length s) (inferred ∙ ap some b),
        )

    -- What `from_tagged_str` accepts is split at its first colon into a tag and hexadecimal digits:
    -- the tag names the kind of the identifier, and the digits are as many as that kind's.
    pub from_tagged_str-OfKind :
        (tagged : Bytes) {h : ObjectHash}
        → from_tagged_str hex tagged ≡ ok h
        → (tag hex_str : Bytes) × (k : HashKind) × (split_once 58 tagged ≡ some (tag, hex_str))
          × (parse_kind tag ≡ some k)
          × OfKind k h
          × (length hex_str ≡ hex_len k)
    unfolding from_tagged_str
    from_tagged_str-OfKind tagged e =
        let ((tag, hex_str), s, e1) = >>=-eq-ok (ok_or (split_once 58 tagged) _) _ e in
        let (k, p, e2) = >>=-eq-ok (ok_or (parse_kind tag) _) _ e1 in
        let (typed, digits) = from_hex_for_kind-OfKind k hex_str e2 in
        (
          tag,
          hex_str,
          k,
          ok_or-inv (split_once 58 tagged) _ s,
          ok_or-inv (parse_kind tag) _ p,
          typed,
          digits,
        )
