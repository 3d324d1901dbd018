-- ===== src/Hash/Parse.antt =====
-- The textual forms of object identifiers, src/hash.rs. The hex library is a parameter, the record
-- `Hex` of its two functions and of what its documentation says of them.
use git_internal.Base.{
  ℕ, ◌+◌, ◌*◌, ◌&&◌, [], ◌∷◌, ◌++◌, Bytes, IsByte, All, ◌==◌, leb, if◌then◌else◌, List, length,
  Result, ok, err, map_err, ◌>>=◌, Option, none, some, ◌≡◌, same_bytes, map,
}
use git_internal.Hash.{
  HashKind, ObjectHash, HashError, invalid_length, invalid_hex, unknown_kind, in_from_hex,
  in_from_tagged, hex_len, as_str, as_ref, kind, zero_for_kind, from_bytes_for_kind,
}

pub record Hex (X : Type 0) : Type 0 where
  pub encode : Bytes → Bytes
  pub decode : Bytes → Result X Bytes
  pub length-encode : (bs : Bytes) → length (encode bs) ≡ length bs * 2
  pub decode-encode : (bs : Bytes) → All IsByte bs → decode (encode bs) ≡ ok bs
  pub decode-All : (s bs : Bytes) → decode s ≡ ok bs → All IsByte bs
  pub decode-length : (s bs : Bytes) → decode s ≡ ok bs → length s ≡ length bs * 2

abbrev pub to_ascii_lowercase : Bytes → Bytes
to_ascii_lowercase s = map (λ b. if leb 65 b && leb b 90 then b + 32 else b) s

-- `HashKind::from_str`; its error is one message.
unfoldable pub parse_kind : Bytes → Option HashKind
parse_kind s =
    if same_bytes (to_ascii_lowercase s) (115 ∷ 104 ∷ 97 ∷ 49 ∷ [])
    then some HashKind.sha1
    else if same_bytes (to_ascii_lowercase s) (115 ∷ 104 ∷ 97 ∷ 50 ∷ 53 ∷ 54 ∷ [])
    then some HashKind.sha256
    else if same_bytes (to_ascii_lowercase s) (98 ∷ 108 ∷ 97 ∷ 107 ∷ 101 ∷ 51 ∷ [])
    then some HashKind.blake3
    else none

abbrev pub add_before {ℓ} : {A : Type ℓ} → A → Option (List A × List A) → Option (List A × List A)
add_before b none = none
add_before b (some (left, right)) = some (b ∷ left, right)

-- `split_once`, at the first separator.
unfoldable pub split_once : ℕ → Bytes → Option (Bytes × Bytes)
split_once sep [] = none
split_once sep (b ∷ bs) =
    let later = split_once sep bs in if b == sep then some ([], bs) else add_before b later

-- The errors of `ObjectHash::from_str`, which are messages.
pub data ParseError (X : Type 0) : Type 0 where
  bad_length : ParseError X
  bad_hex : X → ParseError X
  bad_bytes : HashError X → ParseError X

-- The kind that a length stands for, with 40 characters for SHA-1 and 64 for SHA-256.
abbrev pub infer_kind : ℕ → Option HashKind
infer_kind n =
    if n == 40 then some HashKind.sha1 else if n == 64 then some HashKind.sha256 else none

abbrev pub ok_or {ℓ κ} : {A : Type ℓ} {E : Type κ} → Option A → E → Result E A
ok_or none e = err e
ok_or (some a) e = ok a

module _ {X : Type 0} (hex : Hex X) where
  abbrev pub to_string : ObjectHash → Bytes
  to_string h = hex.encode (as_ref h)

  abbrev pub zero_str : HashKind → Bytes
  zero_str k = to_string (zero_for_kind k)

  unfoldable pub from_str : Bytes → Result (ParseError X) ObjectHash
  from_str s = do
    k ← ok_or (infer_kind (length s)) bad_length
    bytes ← map_err bad_hex (hex.decode s)
    map_err bad_bytes (from_bytes_for_kind k bytes)

  unfoldable pub from_hex_for_kind : HashKind → Bytes → Result (HashError X) ObjectHash
  from_hex_for_kind k hex_str =
      if length hex_str == hex_len k
      then (do
        bytes ←
            map_err (invalid_hex in_from_hex k (hex_len k) (length hex_str)) (hex.decode hex_str)
        from_bytes_for_kind k bytes)
      else err (invalid_length in_from_hex k (hex_len k) (length hex_str))

  abbrev pub to_tagged_string : ObjectHash → Bytes
  to_tagged_string h = as_str (kind h) ++ 58 ∷ to_string h

  unfoldable pub from_tagged_str : Bytes → Result (HashError X) ObjectHash
  from_tagged_str tagged = do
    (tag, hex_str) ←
        ok_or (split_once 58 tagged) (unknown_kind in_from_tagged tagged (length tagged) 0)
    k ← ok_or (parse_kind tag) (unknown_kind in_from_tagged tag (length tag) (length hex_str))
    from_hex_for_kind k hex_str
