-- ===== src/Pack/Resolve/Settled.antt =====
-- What the tasks that resolve deltas leave behind, src/internal/pack/decode.rs.
use git_internal.Base.{
  ℕ, ◌+◌, Bool, List, [], Bytes, length, Option, none, ◌≡◌, arith, All-map, inl, inr, All,
}
use git_internal.Hash.Digest.{Digests}
use git_internal.Pack.Resolve.{CacheObject, Base, lookup, Shared, Run, start}
use git_internal.Pack.Resolve.Lookup.{HasDistinctNames}
use git_internal.Pack.Resolve.Attended.{Attended}
use git_internal.Pack.Resolve.Objects.{Run-carried, start_carried}
use git_internal.Pack.Resolve.Attended.Kept.{Run-AllAttended}

module _ {X : Type 0} (d : Digests) (reserves : ℕ → ℕ → Bool)
    (zstd : Bytes → Bytes → Option Bytes) where
  -- Once no task is left, in whatever order the tasks have run, if no rebuild has failed and no two
  -- cached objects have the same hash, each object of the pack is in the cache or in the waitlist, and
  -- what is in the waitlist waits for a base that is not in the cache: no delta is forgotten.
  pub Run-Settled :
      (n : ℕ) (objs : List CacheObject) (s : Shared X)
      → Run d reserves zstd n (start objs) ([], s)
      → s.error ≡ none
      → HasDistinctNames s.caches
      → All (λ (e : Base × CacheObject). lookup e.0 s.caches ≡ none) s.waitlist
        × (length s.caches + length s.waitlist ≡ length objs)
  Run-Settled n objs s run e distinct =
      let (unused, kept) = Run-carried d reserves zstd n (start objs) ([], s) run e in
      (
        All-map (λ w. asleep w) s.waitlist
            (Run-AllAttended d reserves zstd n (start objs) ([], s) run distinct tt),
        omega (arith, kept, start_carried objs),
      )
    where
      asleep : (w : Base × CacheObject) → Attended s.caches [] w → lookup w.0 s.caches ≡ none
      asleep w (inl missing) = missing
      asleep w (inr awake) = cc
