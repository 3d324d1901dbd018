-- ===== src/Index/Map.antt =====
-- The entries of the index in memory, src/internal/index.rs: a `BTreeMap` by name and stage. The
-- file system is a parameter, by what its calls return.
pub mod Order
use mathlib.Core.Option
use Prim.Native.Nat.{compare, Ordering}
use git_internal.Base.{
  ℕ, ◌+◌, ◌%◌, ◌^◌, Bool, true, false, not, ◌&&◌, ◌||◌, List, [], ◌∷◌, ◌++◌, Bytes, ◌==◌,
  same_bytes, if◌then◌else◌, length, Result, ok, err, map_err, ◌>>=◌, Option, none, some, map,
}
use git_internal.Base.Decimal.{decimal}
use git_internal.Base.SortedMap.{insert, get, remove}
use git_internal.Object.Types.{blob}
use git_internal.Object.Names.{to_bytes}
use git_internal.Hash.{
  same_hash, HashKind, ObjectHash, HashError, kind, as_ref, same_kind, ensure_kind,
}
use git_internal.Hash.Digest.{Digests, hasher_for_kind, update, finalize_object_hash}
use git_internal.Index.Entry.{Time, IndexEntry}

abbrev pub then_compare : Ordering → Ordering → Ordering
then_compare Ordering.lt next = Ordering.lt
then_compare Ordering.eq next = next
then_compare Ordering.gt next = Ordering.gt

-- The order of byte strings.
abbrev pub compare_bytes : Bytes → Bytes → Ordering
compare_bytes [] [] = Ordering.eq
compare_bytes [] (b ∷ bs) = Ordering.lt
compare_bytes (a ∷ xs) [] = Ordering.gt
compare_bytes (a ∷ xs) (b ∷ bs) = then_compare (compare a b) (compare_bytes xs bs)

abbrev pub Key : Type 0
Key = Bytes × ℕ

abbrev pub compare_keys : Key → Key → Ordering
compare_keys a b = then_compare (compare_bytes a.0 b.0) (compare a.1 b.1)

-- `Index`, by its one field.
abbrev pub Index : Type 0
Index = List (Key × IndexEntry)

abbrev pub new : Index
new = []

abbrev pub size : Index → ℕ
size index = length index

unfoldable pub add : Index → IndexEntry → Index
add index entry = insert compare_keys (entry.name, entry.flags.stage) entry index

abbrev pub update_entry : Index → IndexEntry → Index
update_entry index entry = add index entry

-- The entry that was removed, and the index without it.
unfoldable pub remove_entry : Index → Bytes → ℕ → Option IndexEntry × Index
remove_entry index name stage =
    (get compare_keys (name, stage) index, remove compare_keys (name, stage) index)

unfoldable pub get_entry : Index → Bytes → ℕ → Option IndexEntry
get_entry index name stage = get compare_keys (name, stage) index

abbrev pub is_some {ℓ} : {A : Type ℓ} → Option A → Bool
is_some none = false
is_some (some a) = true

unfoldable pub tracked : Index → Bytes → ℕ → Bool
tracked index name stage = is_some (get_entry index name stage)

abbrev pub get_hash : Index → Bytes → ℕ → Option ObjectHash
get_hash index file stage = Option.map (λ (e : IndexEntry). e.hash) (get_entry index file stage)

abbrev pub verify_hash : Index → Bytes → ℕ → ObjectHash → Bool
verify_hash index file stage hash = elim (get_hash index file stage) [
  | some inner_hash ↦ same_hash inner_hash hash
  | none ↦ false
]

-- What `symlink_metadata` tells of a file; the times are those that `Time::from_system_time` makes
-- of it, and the length is a `u64`.
pub record Metadata : Type 0 where
  pub ctime : Time
  pub mtime : Time
  pub len : ℕ

abbrev pub same_time : Time → Time → Bool
same_time a b = a.seconds == b.seconds && a.nanos == b.nanos

-- Whether the file differs from its entry; it panics where there is no entry or no file.
unfoldable pub is_modified : Option Metadata → Index → Bytes → ℕ → Option Bool
is_modified none index file stage = none
is_modified (some meta) index file stage =
    Option.map
      (λ (entry : IndexEntry). not (
        same_time entry.ctime meta.ctime
        && (same_time entry.mtime meta.mtime && entry.file_size == meta.len % 2 ^ 32)))
      (get_entry index file stage)

abbrev pub filter {ℓ} : {A : Type ℓ} → (A → Bool) → List A → List A
filter p [] = []
filter p (a ∷ xs) = let rest = filter p xs in if p a then a ∷ rest else rest

unfoldable pub tracked_entries : Index → ℕ → List IndexEntry
tracked_entries index stage =
    map (λ (p : Key × IndexEntry). p.1)
      (filter (λ (p : Key × IndexEntry). p.1.flags.stage == stage) index)

abbrev pub tracked_files : Index → List Bytes
tracked_files index = map (λ (e : IndexEntry). e.name) (tracked_entries index 0)
