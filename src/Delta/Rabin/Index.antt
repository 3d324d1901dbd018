-- ===== src/Delta/Rabin/Index.antt =====
-- The index of a source buffer: `create_delta_index` of src/delta/encode/rabin/mod.rs. The `Arc`
-- that shares the source is the list itself.
pub mod Windows
pub mod Lookup
pub mod Filed
pub mod Sound
pub mod Cull
use git_internal.Base.{
  ℕ, zero, suc, ◌+◌, ◌-◌, ◌*◌, ◌/◌, ◌%◌, ◌^◌, bit_and, Bool, true, false, ◌&&◌, List, [], ◌∷◌, ◌++◌,
  Bytes, Option, none, some, ltb, ◌==◌, if◌then◌else◌, length, get_or, set, last?, set_last,
  replicate, map,
}
use git_internal.Delta.Rabin.Tables.{rabin_window, hash_limit}
use git_internal.Delta.Rabin.Hash.{u32, fingerprint}

pub record IndexEntry : Type 0 where
  pub offset : ℕ
  pub hash : ℕ

pub record RabinDeltaIndex : Type 0 where
  pub source : Bytes
  pub entries : List IndexEntry
  pub buckets : List ℕ
  pub hash_mask : ℕ

-- `while hsize < hsize_entries { hsize <<= 1 }`, from 16 on.
pub grow : ℕ → ℕ → ℕ → ℕ
grow zero hsize_entries hsize = hsize
grow (suc fuel) hsize_entries hsize =
    let rest = grow fuel hsize_entries (hsize * 2) in
    if ltb hsize hsize_entries then rest else hsize

-- The hash of the window before, and the buckets' lists.
pub record Build : Type 0 where
  pub prev_val : ℕ
  pub bucket_lists : List (List IndexEntry)

-- The write through `last_mut`.
pub move_last : Option IndexEntry → List IndexEntry → ℕ → List IndexEntry
move_last none bucket offset = bucket
move_last (some last) bucket offset = set_last bucket (record last { offset = offset })

module _ (source : Bytes) (hmask : ℕ) where
  pub index_window : ℕ → Build → Build
  index_window pos b =
      let val = fingerprint source (pos + 1) in
      let h = bit_and val hmask in
      let bucket = get_or b.bucket_lists h [] in
      let offset = u32 (pos + rabin_window) in
      if val == b.prev_val
      then record b { bucket_lists = set b.bucket_lists h (move_last (last? bucket) bucket offset) }
      else record {
        prev_val = val;
        bucket_lists = set b.bucket_lists h (bucket ++ record { offset = offset; hash = val } ∷ []);
      }

  -- From the last window to the first. Each round takes 16 off `pos`, which is a multiple of 16.
  pub build_loop : ℕ → ℕ → Build → Build
  build_loop zero pos b = b
  build_loop (suc fuel) pos b =
      let next = if ltb (length source) (pos + 1 + rabin_window) then b else index_window pos b in
      let rest = build_loop fuel (pos - rabin_window) next in if pos == 0 then next else rest

-- `kept.len() < target && idx * target / total == kept.len()`
pub cull_loop : ℕ → ℕ → List IndexEntry → List IndexEntry → List IndexEntry
cull_loop total idx [] kept = kept
cull_loop total idx (entry ∷ bucket) kept = cull_loop total (idx + 1) bucket (
    if ltb (length kept) hash_limit && idx * hash_limit / total == length kept
    then kept ++ entry ∷ []
    else kept)

pub cull_bucket : List IndexEntry → List IndexEntry
cull_bucket bucket = cull_loop (length bucket) 0 bucket []

pub cull_overfull : List IndexEntry → List IndexEntry
cull_overfull bucket = if ltb hash_limit (length bucket) then cull_bucket bucket else bucket

-- The buckets one after the other, with the place where each starts, and the sentinel.
pub pack_loop : List (List IndexEntry) → List IndexEntry → List ℕ → List IndexEntry × List ℕ
pack_loop [] entries buckets = (entries, buckets ++ u32 (length entries) ∷ [])
pack_loop (bucket ∷ rest) entries buckets =
    pack_loop rest (entries ++ bucket) (buckets ++ u32 (length entries) ∷ [])

pub build_index : Bytes → ℕ → ℕ → RabinDeltaIndex
build_index source entries_count hsize =
    let empty : Build = record { prev_val = 2 ^ 32 - 1; bucket_lists = replicate hsize [] } in
    let built =
      build_loop source (hsize - 1) entries_count (entries_count * rabin_window - rabin_window)
        empty in
    let (entries, buckets) = pack_loop (map cull_overfull built.bucket_lists) [] [] in
    record { source = source; entries = entries; buckets = buckets; hash_mask = u32 (hsize - 1) }

-- `create_delta_index` and `create_delta_index_arc`.
unfoldable pub create_delta_index : Bytes → Option RabinDeltaIndex
unfolding build_index build_loop index_window move_last grow cull_loop cull_bucket cull_overfull
    pack_loop fingerprint
create_delta_index source =
    if length source == 0
    then none
    else (let entries_count = (length source - 1) / rabin_window in
        if entries_count == 0
        then none
        else some (build_index source entries_count (grow entries_count (entries_count / 4) 16)))
