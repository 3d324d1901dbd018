-- ===== src/Hash/RoundTrip.antt =====
-- The textual forms of src/hash.rs read back.
use git_internal.Base.{
  ◌*◌, ◌∷◌, ◌++◌, Bytes, length, ok, if◌then◌else◌, some, ◌≡◌, refl, ap, ◌∙◌, ==_iff,
}
use git_internal.Hash.{
  HashKind, ObjectHash, hex_len, as_str, as_ref, kind, variant, IsObjectHash, is_git_standard,
}
use git_internal.Hash.Parse.{
  Hex, split_once, parse_kind, from_hex_for_kind, from_tagged_str, to_tagged_string, to_string,
  from_str,
}
use git_internal.Hash.Kinds.{from_bytes_for_kind-sized, variant-kind}

parse_kind-as_str : (k : HashKind) → parse_kind (as_str k) ≡ some k
unfolding parse_kind
parse_kind-as_str HashKind.sha1 = refl
parse_kind-as_str HashKind.sha256 = refl
parse_kind-as_str HashKind.blake3 = refl

split_once-as_str :
    (k : HashKind) (s : Bytes) → split_once 58 (as_str k ++ 58 ∷ s) ≡ some (as_str k, s)
unfolding split_once
split_once-as_str HashKind.sha1 s = refl
split_once-as_str HashKind.sha256 s = refl
split_once-as_str HashKind.blake3 s = refl

module _ {X : Type 0} (hex : Hex X) where
  -- The digits of a well-formed identifier are read back as an identifier of its kind.
  pub from_hex_for_kind-to_string :
      (h : ObjectHash) → IsObjectHash h → from_hex_for_kind hex (kind h) (to_string hex h) ≡ ok h
  unfolding from_hex_for_kind
  from_hex_for_kind-to_string h ready =
      let long : length (hex.encode (as_ref h)) ≡ hex_len (kind h) =
        hex.length-encode (as_ref h) ∙ ap (λ n. n * 2) ready.sized in
      rw
        (
          (==_iff (length (hex.encode (as_ref h))) (hex_len (kind h))).1 long,
          hex.decode-encode (as_ref h) ready.bytes,
        )
        (from_bytes_for_kind-sized (kind h) (as_ref h) ready.sized ∙ ap ok (variant-kind h))

  -- The tagged text of a well-formed identifier is read back as that identifier, of its own kind
  -- also where another kind has as many digits.
  pub from_tagged_str-to_tagged_string :
      (h : ObjectHash) → IsObjectHash h → from_tagged_str hex (to_tagged_string hex h) ≡ ok h
  unfolding from_tagged_str
  from_tagged_str-to_tagged_string h ready =
      rw (split_once-as_str (kind h) (to_string hex h), parse_kind-as_str (kind h))
        (from_hex_for_kind-to_string h ready)

  -- The digits of a well-formed identifier are read by the legacy parser as the same bytes, under the
  -- kind of the identifier where that is one of Git's own, and as SHA-256 where it is BLAKE3.
  pub from_str-to_string :
      (h : ObjectHash)
      → IsObjectHash h
      → from_str hex (to_string hex h)
        ≡ ok (variant (if is_git_standard (kind h) then kind h else HashKind.sha256) (as_ref h))
  unfolding from_str
  from_str-to_string (ObjectHash.sha1 bs) ready =
      let long : length (hex.encode bs) ≡ 40 = hex.length-encode bs ∙ ap (◌* 2) ready.sized in
      rw
        (
          long,
          hex.decode-encode bs ready.bytes,
          from_bytes_for_kind-sized {X = X} HashKind.sha1 bs ready.sized,
        )
        refl
  from_str-to_string (ObjectHash.sha256 bs) ready =
      let long : length (hex.encode bs) ≡ 64 = hex.length-encode bs ∙ ap (◌* 2) ready.sized in
      rw
        (
          long,
          hex.decode-encode bs ready.bytes,
          from_bytes_for_kind-sized {X = X} HashKind.sha256 bs ready.sized,
        )
        refl
  from_str-to_string (ObjectHash.blake3 bs) ready =
      let long : length (hex.encode bs) ≡ 64 = hex.length-encode bs ∙ ap (◌* 2) ready.sized in
      rw
        (
          long,
          hex.decode-encode bs ready.bytes,
          from_bytes_for_kind-sized {X = X} HashKind.sha256 bs ready.sized,
        )
        refl
