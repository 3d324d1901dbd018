-- ===== src/Hash/Tests.antt =====
-- Identifiers on concrete inputs, with a hexadecimal codec and a digest in place of the libraries.
pub mod Codec
use git_internal.Base.{
  ℕ, ◌*◌, ◌<◌, true, List, [], ◌∷◌, ◌++◌, Bytes, length, replicate, IsByte, All-replicate, take,
  map, Result, ok, err, none, some, ◌≡◌, ◌≢◌, refl, arith,
}
use git_internal.Object.Types.{blob, offset_delta}
use git_internal.Hash.{
  HashKind, ObjectHash, HashError, IsObjectHash, hex_len, size, unsupported_object_type,
  in_calculate, in_from_type_and_data, interrupted, other_kind, kind,
}
use git_internal.Hash.Parse.{
  infer_kind, parse_kind, split_once, from_str, from_tagged_str, to_tagged_string, to_string, ok_or,
  zero_str,
}
use git_internal.Hash.Stream.{Response, chunk, failed, from_stream_for_kind, delivered, failure}
use git_internal.Hash.Stream.Chunks.{from_stream_for_kind-whole_read, whole_read}
use git_internal.Hash.Digest.{
  Digests, new_for_kind, from_type_and_data, from_type_and_data_for_kind,
}
use git_internal.Hash.Digest.Objects.{from_type_and_data_for_kind-from_type_and_data}
use git_internal.Hash.Digest.Loose.{
  calculate_object_hash, calculate_object_hash_for_kind,
  calculate_object_hash-from_type_and_data_for_kind,
}
use git_internal.Hash.Kinds.{OfKind, from_str-OfKind, from_tagged_str-OfKind}
use git_internal.Hash.RoundTrip.{from_tagged_str-to_tagged_string, from_str-to_string}
use git_internal.Hash.Tests.Codec.{hex, HexError, digests}

-- An identifier of thirty-two bytes.
abbrev some_id : ObjectHash
some_id = ObjectHash.blake3 (171 ∷ replicate 31 7)

some_id-IsObjectHash : IsObjectHash some_id
some_id-IsObjectHash = record {
  sized = refl;
  bytes = (omega arith, All-replicate IsByte 31 7 (omega arith));
}

from_tagged_str-to_tagged_string_example :
    from_tagged_str hex (to_tagged_string hex some_id) ≡ ok some_id
from_tagged_str-to_tagged_string_example =
    from_tagged_str-to_tagged_string hex some_id some_id-IsObjectHash

from_str_blake3 :
    from_str hex (to_string hex some_id) ≡ ok (ObjectHash.sha256 (171 ∷ replicate 31 7))
from_str_blake3 = from_str-to_string hex some_id some_id-IsObjectHash

from_str_kind :
    (k : HashKind) × (infer_kind (length (to_string hex some_id)) ≡ some k)
    × OfKind k (ObjectHash.sha256 (171 ∷ replicate 31 7))
    × (k ≢ HashKind.blake3)
from_str_kind = from_str-OfKind hex (to_string hex some_id) from_str_blake3

from_tagged_str-OfKind_example :
    (tag hex_str : Bytes) × (k : HashKind) × (split_once 58 (to_tagged_string hex some_id)
      ≡ some (tag, hex_str))
    × (parse_kind tag ≡ some k)
    × OfKind k some_id
    × (length hex_str ≡ hex_len k)
from_tagged_str-OfKind_example =
    from_tagged_str-OfKind hex (to_tagged_string hex some_id)
      from_tagged_str-to_tagged_string_example

-- A reader that gives two bytes, is interrupted, and fails after six more.
abbrev broken : List Response
broken =
    chunk (1 ∷ 2 ∷ [])
    ∷ failed interrupted []
    ∷ chunk (3 ∷ 4 ∷ 5 ∷ 6 ∷ 7 ∷ 8 ∷ [])
    ∷ failed (other_kind 5) (120 ∷ [])
    ∷ []

from_stream_for_kind-whole_read_example :
    (from_stream_for_kind {X = HexError} HashKind.sha1 broken).0
    ≡ whole_read HashKind.sha1 (delivered broken) (failure broken)
from_stream_for_kind-whole_read_example = from_stream_for_kind-whole_read HashKind.sha1 broken

from_type_and_data_for_kind-from_type_and_data_example :
    from_type_and_data_for_kind digests {X = HexError} HashKind.sha256 blob (97 ∷ [])
    ≡ ok_or
        (from_type_and_data digests HashKind.sha256 blob (97 ∷ []))
        (unsupported_object_type in_from_type_and_data HashKind.sha256 blob 32 0 1)
from_type_and_data_for_kind-from_type_and_data_example =
    from_type_and_data_for_kind-from_type_and_data digests HashKind.sha256 blob (97 ∷ [])

calculate_delta_type :
    (ok_or
        (calculate_object_hash digests HashKind.sha1 offset_delta (97 ∷ []))
        (unsupported_object_type in_calculate HashKind.sha1 offset_delta 20 0 1)
      ≡ calculate_object_hash_for_kind digests {X = HexError} HashKind.sha1 offset_delta (97 ∷ []))
    × (ok_or
          (calculate_object_hash digests HashKind.sha1 offset_delta (97 ∷ []))
          (unsupported_object_type in_from_type_and_data HashKind.sha1 offset_delta 20 0 1)
        ≡ from_type_and_data_for_kind digests {X = HexError} HashKind.sha1 offset_delta (97 ∷ []))
calculate_delta_type =
    calculate_object_hash-from_type_and_data_for_kind digests HashKind.sha1 offset_delta (97 ∷ [])
      (omega arith)
