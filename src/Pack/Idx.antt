-- ===== src/Pack/Idx.antt =====
-- The pack index of version 2, src/internal/pack/pack_index.rs, as it is read and written. Its
-- entries, what is computed from them, and what is checked of them.
pub mod Read
pub mod Write
pub mod Sort
pub mod Fanout
pub mod Tables
pub mod Slots
pub mod Lengths
pub mod Trailer
pub mod Written
pub mod Verified
pub mod RoundTrip
pub mod Tests
use Prim.Native.Nat.{compare, Ordering}
use git_internal.Base.{
  ℕ, zero, suc, ◌+◌, ◌-◌, ◌*◌, ◌/◌, ◌%◌, ◌^◌, Bool, true, false, not, ◌||◌, List, [], ◌∷◌, ◌++◌,
  Bytes, ◌==◌, ltb, leb, if◌then◌else◌, length, get_or, set, replicate, map, Result, ok, err,
  map_err, ◌>>=◌, Option, none, some,
}
use git_internal.Delta.Size.{IoError}
use git_internal.Delta.Decode.{read_exact}
use git_internal.Pack.Header.{to_be_bytes, be_value}
use git_internal.Hash.{
  HashKind, ObjectHash, HashError, size, kind, as_ref, same_hash, ensure_kind, from_bytes_for_kind,
}
use git_internal.Hash.Digest.{
  Digests, HashAlgorithm, hasher_for_kind, update, finalize, finalize_object_hash,
}
use git_internal.Index.Map.{then_compare, compare_bytes}

pub record IndexEntry : Type 0 where
  pub hash : ObjectHash
  pub crc32 : ℕ
  pub offset : ℕ

pub record IdxV2 : Type 0 where
  pub entries : List IndexEntry
  pub pack_hash : ObjectHash
  pub idx_hash : ObjectHash

-- What a parser or a writer reports.
pub data IdxError (X : Type 0) : Type 0 where
  read_index : IoError → IdxError X
  invalid_magic unsupported_version : ℕ → IdxError X
  fanout_not_monotonic : ℕ → IdxError X
  too_many_objects : ℕ → ℕ → IdxError X
  invalid_name : ℕ → HashError X → IdxError X
  names_not_ascending : ℕ → IdxError X
  wrong_fanout : ℕ → IdxError X
  unknown_slot : ℕ → ℕ → IdxError X
  large_table_truncated : IdxError X
  repeated_offset : ℕ → IdxError X
  invalid_checksum : HashError X → IdxError X
  checksum_mismatch : ObjectHash → ObjectHash → IdxError X
  trailing_data : IdxError X
  wrong_number : ℕ → ℕ → IdxError X
  wrong_kind : HashError X → IdxError X

abbrev pub idx_magic : ℕ
idx_magic = 0xff744f63

abbrev pub to_be_bytes_64 : ℕ → Bytes
to_be_bytes_64 n = to_be_bytes (n / 2 ^ 32 % 2 ^ 32) ++ to_be_bytes (n % 2 ^ 32)

-- The 256 counters by a name's first byte, in 32 bits.
abbrev pub count_name : List ℕ → ObjectHash → List ℕ
count_name counts hash =
    let first = get_or (as_ref hash) 0 0 in set counts first ((get_or counts first 0 + 1) % 2 ^ 32)

abbrev pub count_names : List ℕ → List IndexEntry → List ℕ
count_names counts [] = counts
count_names counts (e ∷ entries) = count_names (count_name counts e.hash) entries

-- The sums up to each counter.
abbrev pub running_counts : ℕ → List ℕ → List ℕ
running_counts running [] = []
running_counts running (count ∷ counts) =
    let sum = (running + count) % 2 ^ 32 in sum ∷ running_counts sum counts

abbrev pub fanout_of : List IndexEntry → List ℕ
fanout_of entries = running_counts 0 (count_names (replicate 256 0) entries)

unfoldable pub validate_idx_v2_header : {X : Type 0} → ℕ → ℕ → Result (IdxError X) (Unit {0})
validate_idx_v2_header magic version =
    if not (magic == idx_magic)
    then err (invalid_magic magic)
    else if not (version == 2)
    then err (unsupported_version version)
    else ok tt

-- Whether a name is above the last one.
abbrev pub is_less : Ordering → Bool
is_less Ordering.lt = true
is_less _ = false

abbrev pub ascends : Option Bytes → Bytes → Bool
ascends none name = true
ascends (some prev) name = is_less (compare_bytes prev name)

-- The comparison of the fanout table with the names, from a byte on.
abbrev pub check_fanout : {X : Type 0} → ℕ → List ℕ → List ℕ → Result (IdxError X) (Unit {0})
check_fanout byte fanout [] = ok tt
check_fanout byte fanout (running ∷ sums) =
    if get_or fanout byte 0 == running
    then check_fanout (1 + byte) fanout sums
    else err (wrong_fanout byte)

-- How many slots of the large table there must be, and how many entries use it.
abbrev pub large_count : List (IndexEntry × Option ℕ) → ℕ
large_count [] = 0
large_count ((e, none) ∷ slots) = large_count slots
large_count ((e, some slot) ∷ slots) =
    let others = large_count slots in if ltb others (slot + 1) then slot + 1 else others

abbrev pub large_slots : List (IndexEntry × Option ℕ) → ℕ
large_slots [] = 0
large_slots ((e, none) ∷ slots) = large_slots slots
large_slots ((e, some slot) ∷ slots) = 1 + large_slots slots

abbrev pub place_large : List ℕ → List (IndexEntry × Option ℕ) → List IndexEntry
place_large large_offsets [] = []
place_large large_offsets ((e, none) ∷ slots) = e ∷ place_large large_offsets slots
place_large large_offsets ((e, some slot) ∷ slots) =
    record e { offset = get_or large_offsets slot 0 } ∷ place_large large_offsets slots

abbrev pub seen : ℕ → List ℕ → Bool
seen offset [] = false
seen offset (o ∷ offsets) = o == offset || seen offset offsets

abbrev pub check_offsets : {X : Type 0} → List ℕ → List IndexEntry → Result (IdxError X) (Unit {0})
check_offsets seen_offsets [] = ok tt
check_offsets seen_offsets (e ∷ entries) =
    if seen e.offset seen_offsets
    then err (repeated_offset e.offset)
    else check_offsets (e.offset ∷ seen_offsets) entries

-- The order of `sort_by_key`, that of the derived `Ord`, and a stable sort.
abbrev pub rank : HashKind → ℕ
rank HashKind.sha1 = 0
rank HashKind.sha256 = 1
rank HashKind.blake3 = 2

abbrev pub compare_hashes : ObjectHash → ObjectHash → Ordering
compare_hashes a b =
    then_compare (compare (rank (kind a)) (rank (kind b))) (compare_bytes (as_ref a) (as_ref b))

abbrev pub place_entry :
    Ordering → IndexEntry → IndexEntry → List IndexEntry → List IndexEntry → List IndexEntry
place_entry Ordering.gt e first rest placed = first ∷ placed
place_entry _ e first rest placed = e ∷ first ∷ rest

abbrev pub insert_entry : IndexEntry → List IndexEntry → List IndexEntry
insert_entry e [] = e ∷ []
insert_entry e (first ∷ rest) =
    place_entry (compare_hashes e.hash first.hash) e first rest (insert_entry e rest)

abbrev pub sort_by_hash : List IndexEntry → List IndexEntry
sort_by_hash [] = []
sort_by_hash (e ∷ entries) = insert_entry e (sort_by_hash entries)

abbrev pub ensure_kinds : {X : Type 0} → HashKind → List IndexEntry → Result (IdxError X) (Unit {0})
ensure_kinds k [] = ok tt
ensure_kinds k (e ∷ entries) = do
  _ ← map_err wrong_kind (ensure_kind e.hash k)
  ensure_kinds k entries

-- The word of an entry's offset, by how many large offsets come before it, and the large offsets.
abbrev pub offset_words : ℕ → List IndexEntry → List ℕ
offset_words large [] = []
offset_words large (e ∷ entries) =
    let small = e.offset ∷ offset_words large entries in
    let marked = (2 ^ 31 + large % 2 ^ 31) ∷ offset_words (1 + large) entries in
    if leb e.offset 0x7fffffff then small else marked

abbrev pub large_offsets_of : List IndexEntry → List ℕ
large_offsets_of [] = []
large_offsets_of (e ∷ entries) =
    let later = large_offsets_of entries in
    if leb e.offset 0x7fffffff then later else e.offset ∷ later
