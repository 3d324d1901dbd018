-- ===== src/Pack/Resolve/Tests.antt =====
-- A run of the tasks on a pack with a blob and a delta on it, which is sent first.
use git_internal.Base.{
  ℕ, ◌+◌, ◌*◌, ◌≤◌, true, false, List, [], ◌∷◌, Bytes, length, Bool, Option, replicate, none, ◌≡◌,
  refl, All, ◌⊎◌,
}
use git_internal.Object.Types.{blob}
use git_internal.Object.Names.{to_bytes}
use git_internal.Hash.{ObjectHash}
use git_internal.Hash.Digest.Loose.{
  calculate_object_hash_for_kind, hash_loose_object, decimal_usize_bytes,
}
use git_internal.Hash.Tests.Codec.{HexError, digests}
use git_internal.Delta.Decode.{delta_decode}
use git_internal.Pack.Resolve.{
  CacheObject, base_object, offset_delta, Base, by_offset, lookup, keep, wake, Task, Shared,
  run_task, rebuild_with_hash, Step, step, Run, stay, go, start,
}
use git_internal.Pack.Resolve.Steps.{Run-bounded}
use git_internal.Pack.Resolve.Settled.{Run-Settled}

abbrev the_blob : CacheObject
the_blob = record {
  info = base_object blob (ObjectHash.sha1 (replicate 20 7));
  offset = 12;
  crc32 = 0;
  data_decompressed = 1 ∷ 2 ∷ 3 ∷ [];
  is_delta_in_pack = false;
  known_hash = none;
}

-- Copy the three bytes, then add a nine.
abbrev the_delta : CacheObject
the_delta = record {
  info = offset_delta 12 4;
  offset = 30;
  crc32 = 0;
  data_decompressed = 3 ∷ 4 ∷ 0x90 ∷ 3 ∷ 1 ∷ 9 ∷ [];
  is_delta_in_pack = true;
  known_hash = none;
}

abbrev objs : List CacheObject
objs = the_delta ∷ the_blob ∷ []

abbrev second_blob : CacheObject
second_blob = record {
  info =
      base_object blob
        (ObjectHash.sha1 (98 ∷ 108 ∷ 111 ∷ 98 ∷ 32 ∷ 52 ∷ 0 ∷ 1 ∷ 2 ∷ 3 ∷ 9 ∷ replicate 9 0));
  offset = 30;
  crc32 = 0;
  data_decompressed = 1 ∷ 2 ∷ 3 ∷ 9 ∷ [];
  is_delta_in_pack = true;
  known_hash = none;
}

abbrev after : Shared HexError
after = record {
  caches = second_blob ∷ the_blob ∷ [];
  waitlist = [];
  callbacks = the_blob ∷ second_blob ∷ [];
  error = none;
}

abbrev none_left : List Task
none_left = []

abbrev reserves : ℕ → ℕ → Bool
reserves a b = true

abbrev zstd : Bytes → Bytes → Option Bytes
zstd a b = none

abbrev TestRun : ℕ → List Task × Shared HexError → List Task × Shared HexError → Type 0
TestRun n p q = Run {X = HexError} digests reserves zstd n p q

the_run : TestRun 8 (start objs) ([], after)
unfolding run_task rebuild_with_hash delta_decode calculate_object_hash_for_kind decimal_usize_bytes
    hash_loose_object to_bytes
the_run = go _ _ _ (step [] _ _ _) (
    go _ _ _ (step [] _ _ _) (
      go _ _ _ (step [] _ _ _) (
        go _ _ _ (step [] _ _ _) (
          go _ _ _ (step [] _ _ _) (
            go _ _ _ (step [] _ _ _)
              (go _ _ _ (step [] _ _ _) (go _ _ _ (step [] _ _ _) (stay _))))))))

Run-Settled_example :
    All (λ (e : Base × CacheObject). lookup e.0 after.caches ≡ none) after.waitlist
    × (length after.caches + length after.waitlist ≡ length objs)
Run-Settled_example =
    Run-Settled digests reserves zstd 8 objs after the_run refl ((λ h e. cc, tt), (tt, tt))

Run-bounded_example :
    (8 ≤ 8 * length objs)
    × ((none_left ≡ [])
        ⊎ ((q : List Task × Shared HexError) × Step digests reserves zstd ([], after) q))
Run-bounded_example = Run-bounded digests reserves zstd 8 objs ([], after) the_run

-- The blob once more, at another offset.
abbrev twin : CacheObject
twin = record the_blob { offset = 20 }

-- The delta waits for the offset 12, where an object is cached.
abbrev stuck : Shared HexError
stuck = record {
  caches = twin ∷ the_blob ∷ [];
  waitlist = (by_offset 12, the_delta) ∷ [];
  callbacks = the_blob ∷ twin ∷ [];
  error = none;
}

twin_run : TestRun 8 (start (the_delta ∷ the_blob ∷ twin ∷ [])) ([], stuck)
unfolding run_task
twin_run = go _ _ _ (step [] _ _ _) (
    go _ _ _ (step (_ ∷ []) (keep the_blob) _ _) (
      go _ _ _ (step (_ ∷ []) (wake the_blob) _ _) (
        go _ _ _ (step [] _ _ _) (
          go _ _ _ (step (_ ∷ []) (keep twin) _ _) (
            go _ _ _ (step [] _ _ _)
              (go _ _ _ (step [] (wake twin) _ _) (go _ _ _ (step [] _ _ _) (stay _))))))))
