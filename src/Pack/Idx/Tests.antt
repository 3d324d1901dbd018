-- ===== src/Pack/Idx/Tests.antt =====
-- A pack index of two entries, of which one has a large offset.
use git_internal.Base.{
  ◌≢◌, length, none, ℕ, ◌^◌, List, [], ◌∷◌, Bytes, replicate, All-replicate, IsByte, ok, ◌≡◌, refl,
  arith,
}
use git_internal.Hash.{HashKind, ObjectHash, kind}
use git_internal.Pack.Idx.Sort.{Pairwise}
use git_internal.Pack.Idx.Verified.{Ascending, parse_idx_v2_from-Ascending}
use git_internal.Hash.Kinds.{OfKind}
use git_internal.Hash.Tests.Codec.{HexError, digests}
use git_internal.Pack.Idx.{IndexEntry, offset_words, sort_by_hash}
use git_internal.Pack.Idx.Read.{parse_idx_v2}
use git_internal.Pack.Idx.Write.{write_idx}
use git_internal.Pack.Idx.Lengths.{IsIdx}
use git_internal.Pack.Idx.RoundTrip.{parse_idx_v2-write_idx}

abbrev name : ℕ → ObjectHash
name b = ObjectHash.sha1 (replicate 20 b)

abbrev late : IndexEntry
late = record { hash = name 9; crc32 = 77; offset = 12 }

abbrev far : IndexEntry
far = record { hash = name 3; crc32 = 5; offset = 2 ^ 33 }

abbrev entries : List IndexEntry
entries = late ∷ far ∷ []

sorted_test : sort_by_hash entries ≡ far ∷ late ∷ []
sorted_test = refl

words_test : offset_words 0 (far ∷ late ∷ []) ≡ 2 ^ 31 ∷ 12 ∷ []
words_test = refl

name-OfKind : (b : ℕ) → IsByte b → OfKind HashKind.sha1 (name b)
name-OfKind b h = record {
  of_kind = refl;
  well_formed = record { sized = refl; bytes = All-replicate IsByte 20 b h };
}

entries-IsIdx : IsIdx HashKind.sha1 entries
entries-IsIdx = record {
  each = (
    record { hash = name-OfKind 9 (omega arith); crc32 = omega arith; offset = omega arith },
    (record { hash = name-OfKind 3 (omega arith); crc32 = omega arith; offset = omega arith }, tt),
  );
  names = ((λ e. cc, tt), (tt, tt));
  offsets = ((omega arith, tt), (tt, tt));
  few = omega arith;
}

parse_idx_v2-write_idx_example :
    (file : Bytes) × (idx_hash : ObjectHash) × (write_idx digests {X = HexError} 2
        (name 200)
        entries
      ≡ ok file)
    × (parse_idx_v2 digests {X = HexError} file HashKind.sha1
        ≡ ok (record { entries = far ∷ late ∷ []; pack_hash = name 200; idx_hash = idx_hash }))
parse_idx_v2-write_idx_example =
    parse_idx_v2-write_idx digests HashKind.sha1 entries (name 200) entries-IsIdx
      (name-OfKind 200 (omega arith))

-- The file that is written for the two entries.
abbrev written_idx :
    (file : Bytes) × (idx_hash : ObjectHash) × (write_idx digests {X = HexError} 2
        (name 200)
        entries
      ≡ ok file)
    × (parse_idx_v2 digests {X = HexError} file HashKind.sha1
        ≡ ok (record { entries = far ∷ late ∷ []; pack_hash = name 200; idx_hash = idx_hash }))
written_idx =
    parse_idx_v2-write_idx digests HashKind.sha1 entries (name 200) entries-IsIdx
      (name-OfKind 200 (omega arith))

parse_idx_v2_from-Ascending_example :
    Ascending HashKind.sha1 none (name 3 ∷ name 9 ∷ [])
    × Pairwise (λ a b. a.offset ≢ b.offset) (far ∷ late ∷ [])
    × (kind (name 200) ≡ HashKind.sha1)
    × (kind written_idx.1 ≡ HashKind.sha1)
parse_idx_v2_from-Ascending_example =
    parse_idx_v2_from-Ascending {X = HexError} digests written_idx.0 HashKind.sha1
      (length written_idx.0)
      (record { entries = far ∷ late ∷ []; pack_hash = name 200; idx_hash = written_idx.1 })
      written_idx.3
